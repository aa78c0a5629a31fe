-- ===== src/Schedular/Exclusion/Steps.antt =====
-- The steps of `register` and `wake`, one by one.
use reblessive.Base.{refl, Bool, Option, none, some, List, ◌∷◌, arith}
use reblessive.Schedular.Notify.{
  State, waiting, registering, waking, both, AtomicWaker, Thread, register, store_waker, release,
  recover, reset, notify, wake, take_waker, unlock, finished, stored, try_release, recover_waker,
  step,
}
use reblessive.Schedular.Exclusion.Views.{
  IsRegistering, HasWaker, IsBoth, IsWaking, Knows, Knows-free,
}
use reblessive.Schedular.Exclusion.Begin.{Stepped, busy-le, step-register, step-wake}

module _ {W : Type 0} (will_wake : W → W → Bool) where
  step-store_waker :
      (w : W) (s : State) (m : Option W) (log : List W)
      → IsRegistering s
      → Stepped will_wake (store_waker w) (record { state = s; waker = m; woken = log })
  unfolding step
  step-store_waker w s m log k = record {
    next = release;
    after = record { state = s; waker = some (stored will_wake w m); woken = log };
    runs = refl;
    knows = (k, tt);
    count = refl;
    others = λ u h _. Knows-free u _ (omega (arith, busy-le will_wake s));
  }

  step-release :
      (s : State) (m : Option W) (log : List W)
      → IsRegistering s
      → HasWaker m
      → Stepped will_wake release (record { state = s; waker = m; woken = log })
  unfolding step try_release
  step-release waiting m log k has = absurd k
  step-release registering m log k has = record {
    next = finished;
    after = record { state = waiting; waker = m; woken = log };
    runs = refl;
    knows = tt;
    count = refl;
    others = λ u h _. Knows-free u _ (omega arith);
  }
  step-release waking m log k has = absurd k
  step-release both m log k has = record {
    next = recover;
    after = record { state = both; waker = m; woken = log };
    runs = refl;
    knows = (tt, has);
    count = refl;
    others = λ u h v. v;
  }

  step-recover :
      (s : State) (m : Option W) (log : List W)
      → IsBoth s
      → HasWaker m
      → Stepped will_wake recover (record { state = s; waker = m; woken = log })
  unfolding step recover_waker
  step-recover s none log k has = absurd has
  step-recover s (some w) log k has = record {
    next = reset w;
    after = record { state = s; waker = none; woken = log };
    runs = refl;
    knows = (k, tt);
    count = refl;
    others = λ u h _. Knows-free u _ (omega (arith, busy-le will_wake s));
  }

  step-reset :
      (w : W) (s : State) (m : Option W) (log : List W)
      → IsBoth s
      → Stepped will_wake (reset w) (record { state = s; waker = m; woken = log })
  unfolding step
  step-reset w waiting m log k = absurd k
  step-reset w registering m log k = absurd k
  step-reset w waking m log k = absurd k
  step-reset w both m log k = record {
    next = notify w;
    after = record { state = waiting; waker = m; woken = log };
    runs = refl;
    knows = tt;
    count = refl;
    others = λ u h _. Knows-free u _ (omega arith);
  }

  step-take_waker :
      (s : State) (m : Option W) (log : List W)
      → IsWaking s
      → Stepped will_wake take_waker (record { state = s; waker = m; woken = log })
  unfolding step
  step-take_waker s m log k = record {
    next = unlock m;
    after = record { state = s; waker = none; woken = log };
    runs = refl;
    knows = k;
    count = refl;
    others = λ u h _. Knows-free u _ (omega (arith, busy-le will_wake s));
  }

  step-unlock :
      (w m : Option W) (s : State) (log : List W)
      → IsWaking s
      → Stepped will_wake (unlock w) (record { state = s; waker = m; woken = log })
  unfolding step
  step-unlock w m waiting log k = absurd k
  step-unlock w m registering log k = absurd k
  step-unlock w m both log k = absurd k
  step-unlock none m waking log k = record {
    next = finished;
    after = record { state = waiting; waker = m; woken = log };
    runs = refl;
    knows = tt;
    count = refl;
    others = λ u h _. Knows-free u _ (omega arith);
  }
  step-unlock (some w) m waking log k = record {
    next = notify w;
    after = record { state = waiting; waker = m; woken = log };
    runs = refl;
    knows = tt;
    count = refl;
    others = λ u h _. Knows-free u _ (omega arith);
  }

  Knows-woken :
      (u : Thread W) (c : AtomicWaker W) (log : List W)
      → Knows u c
      → Knows u (record c { woken = log })
  Knows-woken (register w) c log k = k
  Knows-woken (store_waker w) c log k = k
  Knows-woken release c log k = k
  Knows-woken recover c log k = k
  Knows-woken (reset w) c log k = k
  Knows-woken (notify w) c log k = k
  Knows-woken wake c log k = k
  Knows-woken take_waker c log k = k
  Knows-woken (unlock w) c log k = k
  Knows-woken finished c log k = k

  -- A thread that knows what it should takes its step.
  pub Knows-step : (t : Thread W) (c : AtomicWaker W) → Knows t c → Stepped will_wake t c
  unfolding step
  Knows-step (register w) c k = step-register will_wake w c.state c.waker c.woken
  Knows-step (store_waker w) c k = step-store_waker w c.state c.waker c.woken k
  Knows-step release c k = step-release c.state c.waker c.woken k.0 k.1
  Knows-step recover c k = step-recover c.state c.waker c.woken k.0 k.1
  Knows-step (reset w) c k = step-reset w c.state c.waker c.woken k.0
  Knows-step (notify w) c k = record {
    next = finished;
    after = record c { woken = w ∷ c.woken };
    runs = refl;
    knows = tt;
    count = refl;
    others = λ u h v. Knows-woken u c (w ∷ c.woken) v;
  }
  Knows-step wake c k = step-wake will_wake c.state c.waker c.woken
  Knows-step take_waker c k = step-take_waker c.state c.waker c.woken k
  Knows-step (unlock w) c k = step-unlock w c.waker c.state c.woken k
  Knows-step finished c k = record {
    next = finished;
    after = c;
    runs = refl;
    knows = tt;
    count = refl;
    others = λ u h v. v;
  }
