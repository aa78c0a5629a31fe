-- ===== src/Stack/Loops.antt =====
-- src/stack/mod.rs: `drive_top_task` again and again, whoever calls it and whether or not the stack
-- knows the context.
use reblessive.Base.{
  refl, ap, ◌∙◌, false, ℕ, zero, suc, ◌+◌, ◌≡◌, ◌≢◌, Option, none, some, List, [], ◌∷◌, ◌++◌, arith,
  length, ok, ◌==◌, if◌then◌else◌,
}
use reblessive.Stack.Defs.{
  Fut, ret, run, yield_now, wait, running, Coro, start, awaiting, Frame, task, Stack, Context,
  ready,
}
use reblessive.Stack.Frames.{fill}
use reblessive.Stack.Drive.{drive_top_task}
use reblessive.Stack.Eval.{eval, polls, NeverWaits}
use reblessive.Stack.Finish.{
  between, ResumesAs, ResumesAs-yield_now, running-ResumesAs, start-ResumesAs,
}

-- The wakers that were called, with one more
abbrev pub called : Option ℕ → List ℕ → List ℕ
called none woken = woken
called (some w) woken = w ∷ woken

abbrev pub repeat : ℕ → ℕ → List ℕ
repeat zero w = []
repeat (suc n) w = w ∷ repeat n w

repeat-++ : (n m w : ℕ) (ws : List ℕ) → repeat n w ++ (repeat m w ++ ws) ≡ repeat (n + m) w ++ ws
repeat-++ zero m w ws = ap (λ i. repeat i w ++ ws) (omega arith)
repeat-++ (suc n) m w ws =
    let one : suc (n + m) ≡ suc n + m = omega arith in
    ap (λ r. w ∷ r) (repeat-++ n m w ws) ∙ ap (λ i. repeat i w ++ ws) one

repeat-∷ : (n w : ℕ) (ws : List ℕ) → repeat n w ++ (w ∷ ws) ≡ w ∷ (repeat n w ++ ws)
repeat-∷ zero w ws = refl
repeat-∷ (suc n) w ws = ap (λ r. w ∷ r) (repeat-∷ n w ws)

pub repeat-[] : (n w : ℕ) → repeat n w ++ [] ≡ repeat n w
repeat-[] zero w = refl
repeat-[] (suc n) w = ap (λ r. w ∷ r) (repeat-[] n w)

-- The waker of a new task
abbrev pub outer : Context → ℕ → Option ℕ
outer cx addr = if addr == cx.addr then none else some cx.waker

pub outer-known : (cx : Context) → outer cx cx.addr ≡ none
outer-known cx = ground arith

pub outer-foreign : (cx : Context) (addr : ℕ) → addr ≢ cx.addr → outer cx addr ≡ some cx.waker
outer-foreign cx addr other = ground (arith, other)

module _ {V : Type 0} where
  -- How many calls the function makes
  unfoldable pub calls : Fut V → ℕ
  unfolding eval
  calls (ret v) = 0
  calls (run child k) = suc (calls child + calls (k (eval child)))
  calls (yield_now f) = calls f
  calls (wait f) = calls f

  -- The wakers that were called when the function returns, if its calls have the waker `w`
  unfoldable pub log : Option ℕ → Fut V → List ℕ → List ℕ
  unfolding eval
  log w (ret v) woken = woken
  log w (run child k) woken = log w (k (eval child)) (called w (log w child woken))
  log w (yield_now f) woken = log w f woken
  log w (wait f) woken = log w f woken

  pub log-none : (f : Fut V) (woken : List ℕ) → log none f woken ≡ woken
  unfolding log
  log-none (ret v) woken = refl
  log-none (run child k) woken = log-none (k (eval child)) _ ∙ log-none child woken
  log-none (yield_now f) woken = log-none f woken
  log-none (wait f) woken = log-none f woken

  -- A waker is called once for each call.
  pub log-some :
      (w : ℕ) (f : Fut V) (woken : List ℕ) → log (some w) f woken ≡ repeat (calls f) w ++ woken
  unfolding log calls
  log-some w (ret v) woken = refl
  log-some w (run child k) woken =
      let inner = log-some w child woken in
      let n : ℕ = calls (k (eval child)) in
      let order : calls child + n ≡ n + calls child = omega arith in
      log-some w (k (eval child)) _
      ∙ ap (λ r. repeat n w ++ (w ∷ r)) inner
      ∙ repeat-∷ n w _
      ∙ ap (λ r. w ∷ r) (repeat-++ n (calls child) w woken)
      ∙ ap (λ i. w ∷ (repeat i w ++ woken)) (omega arith)
  log-some w (yield_now f) woken = log-some w f woken
  log-some w (wait f) woken = log-some w f woken

  -- A task with a waker
  abbrev pub guest : Option ℕ → Coro V → List (Frame V) → Frame V
  guest w c rest = task (record { future = c; place = length rest; waker = w })

  module _ (cx : Context) (addr : ℕ) where
    pub drive-ret :
        (v : V) (c : Coro V)
        → ResumesAs c (ret v)
        → (w : Option ℕ) (g g' : Frame V) (rest : List (Frame V)) (woken : List ℕ)
        → fill v g ≡ some g'
        → drive_top_task cx (between (guest w c rest ∷ g ∷ rest) addr woken)
          ≡ ok (ready false) (between (g' ∷ rest) addr (called w woken))
    unfolding drive_top_task
    drive-ret v c resumes none g g' rest woken filled = ground (
      arith,
      resumes cx (record (between rest addr woken) { len = suc (suc (length rest)) })
          (record { future = c; place = length rest; waker = none }) (g ∷ rest) refl,
    )
    drive-ret v c resumes (some w) g g' rest woken filled = ground (
      arith,
      resumes cx (record (between rest addr woken) { len = suc (suc (length rest)) })
          (record { future = c; place = length rest; waker = some w }) (g ∷ rest) refl,
    )

    pub drive-run :
        (child : Fut V) (k : V → Fut V) (c : Coro V)
        → ResumesAs c (run child k)
        → (w : Option ℕ) (g : Frame V) (rest : List (Frame V)) (woken : List ℕ)
        → drive_top_task cx (between (guest w c rest ∷ g ∷ rest) addr woken)
          ≡ ok (ready false) (
              between
                (guest (outer cx addr) (start child) (g ∷ rest)
                  ∷ guest w (awaiting (running none) k) rest
                  ∷ g
                  ∷ rest)
                addr
                woken)
    unfolding drive_top_task
    drive-run child k c resumes w g rest woken = ground (
      arith,
      resumes cx (record (between rest addr woken) { len = suc (suc (length rest)) })
          (record { future = c; place = length rest; waker = w }) (g ∷ rest) refl,
    )

    -- A loop that drives the top task in every round, for as long as the stack has more than the
    -- result, runs a task at the top to its end, with its value in its place.
    module _ {X : Type 0} (loop : ℕ → Stack V → X)
        (loop-suc : (n : ℕ) (f g : Frame V) (rest gs : List (Frame V)) (woken woken' : List ℕ)
          → drive_top_task cx (between (f ∷ g ∷ rest) addr woken)
            ≡ ok (ready false) (between gs addr woken')
          → loop (suc n) (between (f ∷ g ∷ rest) addr woken)
            ≡ loop n (between gs addr woken')) where
      pub loop-task :
          (f : Fut V)
          → NeverWaits f
          → (c : Coro V) → ResumesAs c f
          → (w : Option ℕ) (g g' : Frame V) (rest : List (Frame V)) (woken : List ℕ)
          → fill (eval f) g ≡ some g'
          → (n m : ℕ) → m ≡ polls f + n
          → loop m (between (guest w c rest ∷ g ∷ rest) addr woken)
            ≡ loop n (between (g' ∷ rest) addr (called w (log (outer cx addr) f woken)))
      unfolding eval polls log
      loop-task (ret v) plain c resumes w g g' rest woken filled n m e =
          let e' : m ≡ suc n = omega arith in
          rw e' (loop-suc n _ g rest _ woken _ (drive-ret v c resumes w g g' rest woken filled))
      loop-task (run child k) plain c resumes w g g' rest woken filled n m e =
          let later : ℕ = polls (k (eval child)) + n in
          let e' : m ≡ suc (polls child + later) = omega arith in
          rw e' (
            loop-suc (polls child + later) _ g rest _ woken _
              (drive-run child k c resumes w g rest woken)
            ∙ loop-task child plain.0 (start child) (start-ResumesAs child) (outer cx addr) _ _
                (g ∷ rest) woken refl later _ refl
            ∙ loop-task (k (eval child)) (plain.1 (eval child)) _ (running-ResumesAs (eval child) k)
                w g g' rest _ filled n _ refl)
      loop-task (yield_now f) plain c resumes w g g' rest woken filled n m e =
          loop-task f plain c (ResumesAs-yield_now c f resumes) w g g' rest woken filled n m e
      loop-task (wait f) plain c resumes w g g' rest woken filled n m e = absurd plain
