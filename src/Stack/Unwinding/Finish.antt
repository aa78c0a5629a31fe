-- ===== src/Stack/Unwinding/Finish.antt =====
-- `Runner::finish` on any function, against plain recursion with panics.
use mathlib.Core.Path.{subst}
use reblessive.Base.{
  refl, ap, ◌∙◌, ℕ, suc, ◌+◌, ◌-◌, ◌<◌, ◌≡◌, ◌⊎◌, inl, inr, Bool, Bool-cases, true, false, none,
  some, List, [], ◌∷◌, arith, ok, Outcome, Panic, explicit,
}
use reblessive.Stack.Defs.{
  Fut, ret, run, yield_now, wait, cancelled, running, Coro, start, awaiting, waiting, finished,
  Frame, result_place, Stack, Context,
}
use reblessive.Stack.Frames.{fill}
use reblessive.Stack.Clear.{IsEntered, clear-IsEntered}
use reblessive.Stack.Finish.{
  between, ResumesAs, ResumesAs-yield_now, running-ResumesAs, start-ResumesAs, task_at, box, polled,
}
use reblessive.Stack.Unwinding.{
  step_unwinding, finish_unwinding, enter_finish_unwinding, outcome, rounds,
}
use reblessive.Locals.{Answer, returned, unwound}

Answer-cases :
    {A : Type 0} → (r : Answer A) → ((a : A) × (r ≡ returned a)) ⊎ ((p : Panic) × (r ≡ unwound p))
Answer-cases (returned a) = inl (a, refl)
Answer-cases (unwound p) = inr (p, refl)

module _ {V : Type 0} (throws : V → Bool) (cx : Context) (addr : ℕ) (woken : List ℕ) where
  step-returned :
      (v : V) (c : Coro V)
      → ResumesAs c (ret v)
      → throws v ≡ false
      → (g g' : Frame V) (rest : List (Frame V)) → fill v g ≡ some g'
      → step_unwinding throws cx (between (task_at c rest ∷ g ∷ rest) addr woken)
        ≡ ok (returned none) (between (g' ∷ rest) addr woken)
  unfolding step_unwinding
  step-returned v c resumes t g g' rest filled =
      ground (arith, resumes cx (polled cx addr woken (g ∷ rest)) (box c rest) (g ∷ rest) refl)

  step-thrown :
      (v : V) (c : Coro V)
      → ResumesAs c (ret v)
      → throws v ≡ true
      → (g : Frame V) (rest : List (Frame V))
      → step_unwinding throws cx (between (task_at c rest ∷ g ∷ rest) addr woken)
        ≡ ok (unwound explicit) (between (task_at finished rest ∷ g ∷ rest) cx.addr woken)
  unfolding step_unwinding
  step-thrown v c resumes t g rest =
      ground (arith, resumes cx (polled cx addr woken (g ∷ rest)) (box c rest) (g ∷ rest) refl)

  step-waits :
      (f : Fut V) (c : Coro V)
      → ResumesAs c (wait f)
      → (g : Frame V) (rest : List (Frame V))
      → step_unwinding throws cx (between (task_at c rest ∷ g ∷ rest) addr woken)
        ≡ ok (unwound explicit) (between (task_at (waiting f) rest ∷ g ∷ rest) cx.addr woken)
  unfolding step_unwinding
  step-waits f c resumes g rest =
      ground (arith, resumes cx (polled cx addr woken (g ∷ rest)) (box c rest) (g ∷ rest) refl)

  step-called :
      (child : Fut V) (k : V → Fut V) (c : Coro V)
      → ResumesAs c (run child k)
      → (g : Frame V) (rest : List (Frame V))
      → step_unwinding throws cx (between (task_at c rest ∷ g ∷ rest) addr woken)
        ≡ ok (returned none) (
            between
              (task_at (start child) (g ∷ rest)
                ∷ task_at (awaiting (running none) k) rest
                ∷ g
                ∷ rest)
              addr
              woken)
  unfolding step_unwinding
  step-called child k c resumes g rest =
      ground (arith, resumes cx (polled cx addr woken (g ∷ rest)) (box c rest) (g ∷ rest) refl)

  abbrev finishes : ℕ → List (Frame V) → Outcome (Stack V) (Answer V)
  finishes n fs = finish_unwinding throws n cx (between fs addr woken)

  finish-returned :
      (n : ℕ) (fs gs : List (Frame V))
      → step_unwinding throws cx (between fs addr woken)
        ≡ ok (returned none) (between gs addr woken)
      → finishes (suc n) fs ≡ finishes n gs
  unfolding finish_unwinding
  finish-returned n fs gs e = ground (arith, e)

  finish-result :
      (n : ℕ) (v : V)
      → finishes (suc n) (result_place (some v) ∷ []) ≡ ok (returned v) (between [] addr woken)
  unfolding finish_unwinding step_unwinding
  finish-result n v = ground arith

  -- A panic out of the loop leaves tasks over the place of the result.
  abbrev Panics : Panic → ℕ → List (Frame V) → Type 0
  Panics p n fs =
      (gs : List (Frame V)) × (finishes n fs ≡ ok (unwound p) (between gs cx.addr woken))
      × IsEntered gs

  finish-thrown :
      (n : ℕ) (p : Panic) (fs gs : List (Frame V))
      → step_unwinding throws cx (between fs addr woken) ≡ ok (unwound p) (between gs cx.addr woken)
      → IsEntered gs
      → Panics p (suc n) fs
  unfolding finish_unwinding
  finish-thrown n p fs gs e entered = (gs, ground (arith, e), entered)

  Panics-later :
      (n m : ℕ) (p : Panic) (fs gs : List (Frame V))
      → finishes m fs ≡ finishes n gs
      → Panics p n gs
      → Panics p m fs
  Panics-later n m p fs gs e (hs, runs, entered) = (hs, e ∙ runs, entered)

  -- A function that returns is run to its end, with its value in its place.
  finish-task :
      (f : Fut V) (v : V)
      → outcome throws f ≡ returned v
      → (c : Coro V) → ResumesAs c f
      → (g g' : Frame V) (rest : List (Frame V)) → fill v g ≡ some g'
      → (n m : ℕ) → m ≡ rounds throws f + n
      → finishes m (task_at c rest ∷ g ∷ rest) ≡ finishes n (g' ∷ rest)
  unfolding outcome rounds
  finish-task (ret v) w o c resumes g g' rest filled n m e = elim (Bool-cases (throws v)) [
    | inl t ↦ absurd (ground (arith, o, t))
    | inr t ↦
        let e' : m ≡ suc n = omega arith in
        let same : v ≡ w = ground (arith, o, t) in
        rw e' (
          finish-returned n _ _
            (step-returned v c resumes t g g' rest (ap (λ x. fill x g) same ∙ filled)))
  ]
  finish-task (run child k) w o c resumes g g' rest filled n m e =
      elim (Answer-cases (outcome throws child)) [
        | inl (v, q) ↦
            let later : ℕ = rounds throws (k v) + n in
            let o' : outcome throws (k v) ≡ returned w = ground (arith, o, q) in
            let e' : m ≡ suc (rounds throws child + later) = ground (arith, e, q) in
            rw e' (
              finish-returned (rounds throws child + later) _ _
                (step-called child k c resumes g rest)
              ∙ finish-task child v q (start child) (start-ResumesAs child) _ _ (g ∷ rest) refl
                  later _ refl
              ∙ finish-task (k v) w o' _ (running-ResumesAs v k) g g' rest filled n _ refl)
        | inr (p, q) ↦ absurd (ground (arith, o, q))
      ]
  finish-task (yield_now f) w o c resumes g g' rest filled n m e =
      finish-task f w o c (ResumesAs-yield_now c f resumes) g g' rest filled n m e
  finish-task (wait f) w o c resumes g g' rest filled n m e = absurd (ground (arith, o))

  -- A function that panics ends the loop there.
  finish-Panics :
      (f : Fut V) (p : Panic)
      → outcome throws f ≡ unwound p
      → (c : Coro V) → ResumesAs c f
      → (g : Frame V) (rest : List (Frame V)) → IsEntered (g ∷ rest)
      → (n m : ℕ) → m ≡ rounds throws f + n
      → Panics p m (task_at c rest ∷ g ∷ rest)
  unfolding outcome rounds
  finish-Panics (ret v) p o c resumes g rest entered n m e = elim (Bool-cases (throws v)) [
    | inl t ↦
        let e' : m ≡ suc n = omega arith in
        let same : explicit ≡ p = ground (arith, o, t) in
        subst (λ q. Panics q m (task_at c rest ∷ g ∷ rest)) same
          (rw e' (finish-thrown n explicit _ _ (step-thrown v c resumes t g rest) entered))
    | inr t ↦ absurd (ground (arith, o, t))
  ]
  finish-Panics (run child k) p o c resumes g rest entered n m e =
      elim (Answer-cases (outcome throws child)) [
        | inl (v, q) ↦
            let later : ℕ = rounds throws (k v) + n in
            let o' : outcome throws (k v) ≡ unwound p = ground (arith, o, q) in
            let e' : m ≡ suc (rounds throws child + later) = ground (arith, e, q) in
            Panics-later later m p (task_at c rest ∷ g ∷ rest)
              (task_at (awaiting (running (some v)) k) rest ∷ g ∷ rest)
              (rw e' (
                finish-returned (rounds throws child + later) _ _
                  (step-called child k c resumes g rest)
                ∙ finish-task child v q (start child) (start-ResumesAs child) _ _ (g ∷ rest) refl
                    later _ refl))
              (finish-Panics (k v) p o' _ (running-ResumesAs v k) g rest entered n later refl)
        | inr (p', q) ↦
            let same : p' ≡ p = ground (arith, o, q) in
            let e' : m ≡ suc (rounds throws child + n) = ground (arith, e, q) in
            Panics-later (rounds throws child + n) m p (task_at c rest ∷ g ∷ rest)
              (task_at (start child) (g ∷ rest)
                ∷ task_at (awaiting (running none) k) rest
                ∷ g
                ∷ rest)
              (rw e' (
                finish-returned (rounds throws child + n) _ _
                  (step-called child k c resumes g rest)))
              (finish-Panics child p (q ∙ ap (λ x. unwound x) same) (start child)
                (start-ResumesAs child) _ (g ∷ rest) entered n _ refl)
      ]
  finish-Panics (yield_now f) p o c resumes g rest entered n m e =
      finish-Panics f p o c (ResumesAs-yield_now c f resumes) g rest entered n m e
  finish-Panics (wait f) p o c resumes g rest entered n m e =
      let e' : m ≡ suc n = omega arith in
      let same : explicit ≡ p = ground (arith, o) in
      subst (λ q. Panics q m (task_at c rest ∷ g ∷ rest)) same
        (rw e' (finish-thrown n explicit _ _ (step-waits f c resumes g rest) entered))

module _ {V : Type 0} (throws : V → Bool) where
  -- The context that the stack has when the run is over
  abbrev pub context_after : Answer V → Context → ℕ → ℕ
  context_after (returned v) cx addr = addr
  context_after (unwound p) cx addr = cx.addr

  -- `Runner::finish` on an empty stack ends as plain recursion does, with its value or by its first
  -- panic, whatever function it runs; the stack is empty in both cases. A panic leaves the context
  -- of the stack at that of the last step.
  pub enter_finish_unwinding-outcome :
      (f : Fut V) (cx : Context) (addr : ℕ) (woken : List ℕ) (fuel : ℕ)
      → rounds throws f < fuel
      → enter_finish_unwinding throws fuel cx f (between [] addr woken)
        ≡ ok (outcome throws f) (between [] (context_after (outcome throws f) cx addr) woken)
  unfolding enter_finish_unwinding
  enter_finish_unwinding-outcome f cx addr woken fuel enough =
      let spare : ℕ = fuel - rounds throws f - 1 in
      elim (Answer-cases (outcome throws f)) [
        | inl (v, o) ↦
            let run_all =
              finish-task throws cx addr woken f v o (start f) (start-ResumesAs f)
                (result_place none) _ [] refl (suc spare) fuel (omega arith) in
            rw o (ground (arith, run_all, finish-result throws cx addr woken spare v))
        | inr (p, o) ↦
            let (gs, runs, entered) =
              finish-Panics throws cx addr woken f p o (start f) (start-ResumesAs f)
                (result_place none) [] tt (suc spare) fuel (omega arith) in
            let cleared = clear-IsEntered gs cancelled cx.addr woken entered in
            rw o (ground (arith, runs, cleared))
      ]
