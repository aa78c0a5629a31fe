-- ===== src/Schedular/Delivery.antt =====
-- src/tree/schedular/atomic_waker.rs: a `wake` that comes during a `register`.
use mathlib.Core.Path.{subst}
use reblessive.Base.{
  refl, sym, ap, ◌∙◌, ℕ, zero, suc, ◌≡◌, Bool, Option, none, some, List, ◌∷◌, ◌++◌, arith, Outcome,
  ok, and_then,
}
use reblessive.Schedular.Notify.{
  waiting, both, AtomicWaker, Thread, register, store_waker, release, recover, reset, notify, wake,
  take_waker, unlock, finished, stored, begin_register, begin_wake, try_release, recover_waker,
  step, Reach,
}
use reblessive.Schedular.Exclusion.{Reach-IsExclusive, AllKnow-split}
use reblessive.Schedular.Exclusion.Views.{hold, HasWaker, Knows}

module _ {W : Type 0} (will_wake : W → W → Bool) where
  -- So many steps of one thread, with none of another in between
  unfoldable pub alone : ℕ → Thread W → AtomicWaker W → Outcome (AtomicWaker W) (Thread W)
  alone zero t c = ok t c
  alone (suc n) t c = and_then (step will_wake t c) (alone n)

  abbrev Delivers : Thread W → AtomicWaker W → Type 0
  Delivers t c =
      (w : W) × (alone 5 t c
        ≡ ok finished (record { state = waiting; waker = none; woken = w ∷ c.woken }))

  release-Delivers :
      (m : Option W) (log : List W)
      → HasWaker m
      → Delivers release (record { state = both; waker = m; woken = log })
  unfolding alone step try_release recover_waker
  release-Delivers none log h = absurd h
  release-Delivers (some w) log h = (w, refl)

  recover-Delivers :
      (m : Option W) (log : List W)
      → HasWaker m
      → Delivers recover (record { state = both; waker = m; woken = log })
  unfolding alone step recover_waker
  recover-Delivers none log h = absurd h
  recover-Delivers (some w) log h = (w, refl)

  Knows-Delivers :
      (t : Thread W) (m : Option W) (log : List W)
      → hold t ≡ 1
      → Knows t (record { state = both; waker = m; woken = log })
      → Delivers t (record { state = both; waker = m; woken = log })
  unfolding alone step try_release
  Knows-Delivers (store_waker w) m log h k = (stored will_wake w m, refl)
  Knows-Delivers release m log h k = release-Delivers m log k.1
  Knows-Delivers recover m log h k = recover-Delivers m log k.1
  Knows-Delivers (reset w) none log h k = (w, refl)
  Knows-Delivers (reset w) (some v) log h k = absurd k.1
  Knows-Delivers take_waker m log h k = absurd k
  Knows-Delivers (unlock w) m log h k = absurd k
  Knows-Delivers (register w) m log h k = absurd (omega arith)
  Knows-Delivers (notify w) m log h k = absurd (omega arith)
  Knows-Delivers wake m log h k = absurd (omega arith)
  Knows-Delivers finished m log h k = absurd (omega arith)

  -- If threads came to the state REGISTERING | WAKING, in any interleaving, and the thread that has
  -- the cell then takes five steps with none of another thread in between, it wakes a waker in these
  -- and leaves the state WAITING and an empty cell.
  pub Reach-Delivers :
      (c : AtomicWaker W) (xs ys : List (Thread W)) (t : Thread W)
      → Reach will_wake c (xs ++ t ∷ ys)
      → c.state ≡ both
      → hold t ≡ 1
      → (w : W) × (alone 5 t c
          ≡ ok finished (record { state = waiting; waker = none; woken = w ∷ c.woken }))
  Reach-Delivers c xs ys t r e h =
      let (_, k, _) = AllKnow-split c xs t ys (Reach-IsExclusive will_wake c (xs ++ t ∷ ys) r).1 in
      let at : Knows t (record { state = both; waker = c.waker; woken = c.woken }) =
        subst (λ s. Knows t (record c { state = s })) e k in
      subst (λ s. Delivers t (record c { state = s })) (sym e)
        (Knows-Delivers t c.waker c.woken h at)

  kept :
      (t u : Thread W) (c d : AtomicWaker W) (r : Outcome (AtomicWaker W) (Thread W))
      → r ≡ ok t c
      → r ≡ ok u d
      → c.state ≡ both
      → (d.state ≡ both) × (d.waker ≡ c.waker)
  kept t u c d r e f b =
      let same : d ≡ c = cc in (ap (λ x. x.state) same ∙ b, ap (λ x. x.waker) same)

  -- Until then the steps of the other threads change neither the state nor the cell.
  pub step-both :
      (t u : Thread W) (c d : AtomicWaker W)
      → hold t ≡ 0
      → c.state ≡ both
      → step will_wake t c ≡ ok u d
      → (d.state ≡ both) × (d.waker ≡ c.waker)
  unfolding step begin_register begin_wake
  step-both (register w) u c d h b e =
      kept finished u c d (step will_wake (register w) c) (rw b refl) e b
  step-both wake u c d h b e = kept finished u c d (step will_wake wake c) (rw b refl) e b
  step-both (notify w) u c d h b e =
      kept finished u (record c { woken = w ∷ c.woken }) d (step will_wake (notify w) c) refl e b
  step-both finished u c d h b e = kept finished u c d (step will_wake finished c) refl e b
  step-both (store_waker w) u c d h b e = absurd (omega arith)
  step-both release u c d h b e = absurd (omega arith)
  step-both recover u c d h b e = absurd (omega arith)
  step-both (reset w) u c d h b e = absurd (omega arith)
  step-both take_waker u c d h b e = absurd (omega arith)
  step-both (unlock w) u c d h b e = absurd (omega arith)
