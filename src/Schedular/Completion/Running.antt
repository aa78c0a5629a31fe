-- ===== src/Schedular/Completion/Running.antt =====
-- src/tree/schedular/mod.rs: a round of `poll` for a task that is ready at its next poll.
use mathlib.Core.Path.{subst}
use reblessive.Base.{
  refl, sym, ap, ◌∙◌, ℕ, ◌+◌, ◌-◌, ◌<◌, ◌≤◌, ◌≡◌, ◌≢◌, Option, none, some, List, ◌∷◌, ◌++◌, arith,
  ok, length, length-append,
}
use reblessive.Stack.Defs.{ready}
use reblessive.Schedular.Queue.{stub}
use reblessive.Schedular.Tasks.{TaskState, running, Schedular}
use reblessive.Schedular.Ops.{pop_task_all}
use reblessive.Schedular.Poll.{Action, again, drive_task, running_round, task_round, poll_round}
use reblessive.Schedular.Occurs.{occurs, occurs_self, occurs_split, occurs-middle, occurs-insert}
use reblessive.Schedular.Invariant.{IsInv, IsInvBut, IsTask, IsInv-task, IsInv-but}
use reblessive.Schedular.Invariant.Refs.{with_count, decr_task-IsInvBut, IsTask-cong}
use reblessive.Schedular.Invariant.Finish.{CanFinish, pop_task_all-IsInv}
use reblessive.Schedular.Rounds.{Taken, pop_poll-Taken}
use reblessive.Schedular.Running.{started, unclaim_lem, started-IsInv, Flag-le}
use reblessive.Schedular.Completion.Wakes.{OwnWakes, Woken, own-Woken}

-- A task that ends when it is polled next, and wakes at most itself in that poll
abbrev pub Ready : {F : Type 0} → (F → List (Action F) × Option F) → Schedular F → ℕ → Type 0
Ready {F} run s x =
    (s.done_cell x ≡ running)
    × ((f : F) × (s.future x ≡ some f) × ((run f).1 ≡ none) × OwnWakes x (run f).0)

occurs_le : (x t : ℕ) (xs : List ℕ) → occurs x xs ≤ occurs x (t ∷ xs)
occurs_le x t xs = ground arith

module _ {F : Type 0} where
  -- A heap where one task is off the list and the others are as before
  pub record Shrunk (t : ℕ) (s after : Schedular F) (all left : List ℕ) : Type 0 where
    pub gone : occurs t left ≡ 0
    pub shorter : length all ≡ length left + 1
    pub within : (x : ℕ) → occurs x left ≤ occurs x all
    pub same : (x : ℕ) → x ≢ t → (after.done_cell x ≡ s.done_cell x) × (after.future x ≡ s.future x)

  pop_task_all-Shrunk :
      (t : ℕ) (s : Schedular F) (all queue refs : List ℕ)
      → IsInvBut t s all queue refs
      → CanFinish (s.done_cell t) (s.future t)
      → occurs t queue ≤ 1
      → occurs t all ≡ 1
      → (after : Schedular F) × (left : List ℕ) × (pop_task_all t s ≡ ok tt after)
        × IsInv after left queue refs
        × Shrunk t s after all left
  pop_task_all-Shrunk t s all queue refs v can once listed =
      let (xs, ys, e) = occurs_split t all (omega (arith, listed)) in
      let v' = subst (λ zs. IsInvBut t s zs queue refs) e v in
      let (after, runs, w, _, _, same) = pop_task_all-IsInv t s xs ys queue refs v' can once in
      (
        after,
        xs ++ ys,
        runs,
        w,
        record {
          gone = occurs-middle t xs ys v'.shape.2;
          shorter = omega (arith, ap length e, length-append xs (t ∷ ys), length-append xs ys);
          within = λ x.
              omega (arith, ap (occurs x) e, occurs-insert x t xs ys, occurs_le x t (xs ++ ys));
          same = same;
        },
      )

module _ {F : Type 0} (run : F → List (Action F) × Option F) (cx i y t : ℕ) (s : Schedular F)
    (all queue refs : List ℕ) (v : IsInv s all (t ∷ queue) refs) (r : Ready run s t) where
  k : Taken s t all queue refs
  k = pop_poll-Taken s t all queue refs v

  woken : Woken run t (started t s) all queue (t ∷ refs) (run r.1.0).0
  woken =
      own-Woken run t (started t s) all queue (t ∷ refs) (run r.1.0).0
        (started-IsInv t s all queue refs k r.0) (omega (arith, occurs_self t refs)) r.1.3

  drive_task-woken : drive_task run t (started t s) ≡ ok (ready tt) woken.after
  unfolding drive_task
  drive_task-woken = ground (arith, k.alive, r.1.1, woken.runs, r.1.2)

  -- What the round comes to
  pub record Rounded : Type 0 where
    pub after : Schedular F
    pub left : List ℕ
    pub later : List ℕ
    pub runs : poll_round run cx i y s ≡ ok (again (i + 1) y) after
    pub is : IsInv after left later refs
    pub shrunk : Shrunk t s after all left
    pub few : length later ≤ length queue + 1
    pub holds : (x : ℕ) → occurs x queue ≤ occurs x later

  room_le : length woken.later ≤ length queue + 1
  room_le = let up = woken.shorter in ground arith

  pub ready-Rounded : Rounded
  unfolding poll_round task_round running_round
  ready-Rounded =
      let end = woken.after in
      let done_same : end.done_cell ≡ s.done_cell = woken.kept.0 in
      let still : end.done_cell t ≡ running = ap (λ (d : ℕ → TaskState). d t) done_same ∙ r.0 in
      let has : end.future t ≡ some r.1.0 = ap (λ (d : ℕ → Option F). d t) woken.kept.1 ∙ r.1.1 in
      let alive : 0 < end.count t = omega (arith, woken.is.counted t, occurs_self t refs) in
      let task : IsTask running (end.queued t) (some r.1.0) (occurs t all) (occurs t woken.later) =
        IsTask-cong still refl has refl refl
          (IsInv-task end all woken.later (t ∷ refs) t woken.is alive) in
      let can : CanFinish (end.done_cell t) (end.future t) =
        subst (λ d. CanFinish d (end.future t)) (sym still)
          (subst (λ o. CanFinish running o) (sym has) tt) in
      let (s₁, left, runs, w, shrunk) =
        pop_task_all-Shrunk t end all woken.later (t ∷ refs)
          (IsInv-but end all woken.later (t ∷ refs) t woken.is) can
          (Flag-le (end.queued t) (occurs t woken.later) task.2) task.1 in
      let (runs', w') = decr_task-IsInvBut stub t s₁ left woken.later refs w in
      record {
        after = with_count t (s₁.count t - 1) s₁;
        left = left;
        later = woken.later;
        runs = ground (
          arith,
          k.runs,
          k.alive,
          r.0,
          unclaim_lem t s all queue refs k r.0,
          drive_task-woken,
          runs,
          runs',
        );
        is = w';
        shrunk = record {
          gone = shrunk.gone;
          shorter = shrunk.shorter;
          within = shrunk.within;
          same = λ x ne. (
            (shrunk.same x ne).0 ∙ ap (λ (d : ℕ → TaskState). d x) done_same,
            (shrunk.same x ne).1 ∙ ap (λ (d : ℕ → Option F). d x) woken.kept.1,
          );
        };
        few = room_le;
        holds = woken.holds;
      }
