-- ===== src/Schedular/Uses.antt =====
-- src/tree/schedular/mod.rs: what a future does with the wakers and cancel tokens that it has.
use mathlib.Core.Path.{subst}
use reblessive.Base.{Outcome, sym, ap, ℕ, ◌<◌, ◌≡◌, ◌≢◌, Option, List, [], ◌∷◌, ◌++◌, arith, ok}
use reblessive.Schedular.Queue.{stub}
use reblessive.Schedular.Tasks.{Schedular}
use reblessive.Schedular.Poll.{
  Action, clone_waker, wake, wake_by_ref, drop_waker, drop_token, spawn, perform, perform_all,
}
use reblessive.Schedular.Occurs.{occurs}
use reblessive.Schedular.Invariant.{IsInv, IsInvBut-refs}
use reblessive.Schedular.Invariant.Refs.{decr_task-IsInvBut, incr_task-IsInvBut}
use reblessive.Schedular.Invariant.Wakes.{enqueued, schedular_wake-IsInv, schedular_wake_ref-IsInv}
use reblessive.Schedular.Invariant.Cancel.{cancel-IsInv}
use reblessive.Schedular.Invariant.Spawn.{push_cancellable-IsInv}

-- The lists hold the same references.
abbrev pub Same : List ℕ → List ℕ → Type 0
Same refs refs' = (x : ℕ) → occurs x refs ≡ occurs x refs'

-- An action uses references that are there, or memory that is free, and leaves these references.
abbrev pub Uses : {F : Type 0} → Schedular F → Action F → List ℕ → List ℕ → Type 0
Uses s (clone_waker t) refs left = (0 < occurs t refs) × (left ≡ t ∷ refs)
Uses s (wake t) refs left = Same refs (t ∷ left)
Uses s (wake_by_ref t) refs left = (0 < occurs t refs) × (left ≡ refs)
Uses s (drop_waker t) refs left = Same refs (t ∷ left)
Uses s (drop_token t) refs left = Same refs (t ∷ left)
Uses s (spawn t f) refs left = (s.count t ≡ 0) × (t ≢ stub) × (left ≡ t ∷ refs)

-- A heap in which every task is in one of its states
pub record Good {F : Type 0} (refs : List ℕ) (s : Schedular F) : Type 0 where
  pub all : List ℕ
  pub queue : List ℕ
  pub is : IsInv s all queue refs

module _ {F : Type 0} (run : F → List (Action F) × Option F) where
  -- The heap behind an action
  pub record Performed (a : Action F) (s : Schedular F) (left : List ℕ) : Type 0 where
    pub after : Schedular F
    pub runs : perform run a s ≡ ok tt after
    pub good : Good left after

  -- What a future does with references that it has neither touches a task that is freed nor drops a
  -- future twice, and leaves every task in one of its states.
  pub perform-Good :
      (a : Action F) (s : Schedular F) (refs left : List ℕ)
      → Good refs s
      → Uses s a refs left
      → Performed a s left
  unfolding perform
  perform-Good (clone_waker t) s refs left g u =
      let (runs, w) = incr_task-IsInvBut stub t s g.all g.queue refs g.is u.0 in
      record {
        after = _;
        runs = runs;
        good = record { all = g.all; queue = g.queue; is = rw u.1 w };
      }
  perform-Good (wake t) s refs left g u =
      let v = IsInvBut-refs s g.all g.queue refs stub (t ∷ left) u g.is in
      let (after, runs, w) = schedular_wake-IsInv t s g.all g.queue left v in
      record { after = after; runs = runs; good = record { all = g.all; queue = _; is = w } }
  perform-Good (wake_by_ref t) s refs left g u =
      let (after, runs, w) = schedular_wake_ref-IsInv t s g.all g.queue refs g.is u.0 in
      record {
        after = after;
        runs = runs;
        good = record { all = g.all; queue = enqueued (s.queued t) t g.queue; is = rw u.1 w };
      }
  perform-Good (drop_waker t) s refs left g u =
      let v = IsInvBut-refs s g.all g.queue refs stub (t ∷ left) u g.is in
      let (runs, w) = decr_task-IsInvBut stub t s g.all g.queue left v in
      record { after = _; runs = runs; good = record { all = g.all; queue = g.queue; is = w } }
  perform-Good (drop_token t) s refs left g u =
      let v = IsInvBut-refs s g.all g.queue refs stub (t ∷ left) u g.is in
      let (after, later, runs, w) = cancel-IsInv t s g.all g.queue left v in
      record { after = after; runs = runs; good = record { all = g.all; queue = later; is = w } }
  perform-Good (spawn t f) s refs left g u =
      let (after, runs, w) = push_cancellable-IsInv t f s g.all g.queue refs g.is u.0 u.1 in
      record {
        after = after;
        runs = ground (arith, runs);
        good = record { all = t ∷ g.all; queue = g.queue ++ t ∷ []; is = rw u.2 w };
      }

  -- A list of actions that each use references that are there, up to a heap
  abbrev pub AllUse : Schedular F → List (Action F) → List ℕ → List ℕ → Schedular F → Type 0
  AllUse s [] refs left end = (s ≡ end) × (left ≡ refs)
  AllUse s (a ∷ as') refs left end =
      (s₁ : Schedular F) × (mid : List ℕ) × Uses s a refs mid
      × (perform run a s ≡ ok tt s₁)
      × AllUse s₁ as' mid left end

  perform_unique :
      (a : Action F) (s s₁ : Schedular F) (left : List ℕ)
      → Performed a s left
      → perform run a s ≡ ok tt s₁
      → Good left s₁
  perform_unique a s s₁ left p e =
      let same : p.after ≡ s₁ = after-unique p.after s₁ (perform run a s) p.runs e in
      subst (Good left) same p.good
    where
      after-unique :
          (x y : Schedular F) (r : Outcome (Schedular F) (Unit {0}))
          → r ≡ ok tt x
          → r ≡ ok tt y
          → x ≡ y
      after-unique x y r e f = cc

  pub perform_all-Good :
      (as' : List (Action F)) (s end : Schedular F) (refs left : List ℕ)
      → Good refs s
      → AllUse s as' refs left end
      → (perform_all run as' s ≡ ok tt end) × Good left end
  unfolding perform_all
  perform_all-Good [] s end refs left g (e, f) =
      (ap (λ z. ok tt z) e, subst (λ z. Good z end) (sym f) (subst (Good refs) e g))
  perform_all-Good (a ∷ as') s end refs left g (s₁, mid, u, runs, rest) =
      let g₁ = perform_unique a s s₁ mid (perform-Good a s refs mid g u) runs in
      let (runs', g') = perform_all-Good as' s₁ end mid left g₁ rest in
      (ground (arith, runs, runs'), g')
