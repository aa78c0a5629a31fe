-- ===== src/Schedular/Exclusion/Begin.antt =====
-- The first steps of `register` and `wake`.
use reblessive.Base.{refl, ◌+◌, ◌≤◌, ◌≡◌, Bool, Option, List, arith, ok}
use reblessive.Schedular.Notify.{
  State, waiting, registering, waking, both, AtomicWaker, Thread, register, store_waker, notify,
  wake, take_waker, finished, begin_register, begin_wake, step,
}
use reblessive.Schedular.Exclusion.Views.{hold, busy, Knows, Knows-free, Knows-both}

module _ {W : Type 0} (will_wake : W → W → Bool) where
  -- What a step does, to the thread, to the number of those that have the cell, and to what the
  -- others know
  pub record Stepped (t : Thread W) (c : AtomicWaker W) : Type 0 where
    pub next : Thread W
    pub after : AtomicWaker W
    pub runs : step will_wake t c ≡ ok next after
    pub knows : Knows next after
    pub count : hold next + busy c.state ≡ hold t + busy after.state
    pub others : (u : Thread W) → hold u + hold t ≤ busy c.state → Knows u c → Knows u after

  pub busy-le : (s : State) → busy s ≤ 1
  busy-le waiting = omega arith
  busy-le registering = omega arith
  busy-le waking = omega arith
  busy-le both = omega arith

  pub step-register :
      (w : W) (s : State) (m : Option W) (log : List W)
      → Stepped (register w) (record { state = s; waker = m; woken = log })
  unfolding step begin_register
  step-register w waiting m log = record {
    next = store_waker w;
    after = record { state = registering; waker = m; woken = log };
    runs = refl;
    knows = tt;
    count = refl;
    others = λ u h k. Knows-free u _ (omega arith);
  }
  step-register w registering m log = record {
    next = finished;
    after = record { state = registering; waker = m; woken = log };
    runs = refl;
    knows = tt;
    count = refl;
    others = λ u h k. k;
  }
  step-register w waking m log = record {
    next = notify w;
    after = record { state = waking; waker = m; woken = log };
    runs = refl;
    knows = tt;
    count = refl;
    others = λ u h k. k;
  }
  step-register w both m log = record {
    next = finished;
    after = record { state = both; waker = m; woken = log };
    runs = refl;
    knows = tt;
    count = refl;
    others = λ u h k. k;
  }

  pub step-wake :
      (s : State) (m : Option W) (log : List W)
      → Stepped wake (record { state = s; waker = m; woken = log })
  unfolding step begin_wake
  step-wake waiting m log = record {
    next = take_waker;
    after = record { state = waking; waker = m; woken = log };
    runs = refl;
    knows = tt;
    count = refl;
    others = λ u h k. Knows-free u _ (omega arith);
  }
  step-wake registering m log = record {
    next = finished;
    after = record { state = both; waker = m; woken = log };
    runs = refl;
    knows = tt;
    count = refl;
    others = λ u h k. Knows-both u _ refl k;
  }
  step-wake waking m log = record {
    next = finished;
    after = record { state = waking; waker = m; woken = log };
    runs = refl;
    knows = tt;
    count = refl;
    others = λ u h k. k;
  }
  step-wake both m log = record {
    next = finished;
    after = record { state = both; waker = m; woken = log };
    runs = refl;
    knows = tt;
    count = refl;
    others = λ u h k. k;
  }
