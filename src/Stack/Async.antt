-- ===== src/Stack/Async.antt =====
-- `Runner::finish_async`, polled again and again by an executor, against the recursive meaning of
-- any function, also one that waits for something outside of the crate.
use reblessive.Base.{
  ℕ, zero, suc, ◌+◌, ◌-◌, ◌≤◌, ◌<◌, ◌≡◌, refl, ap, ◌∙◌, none, some, List, [], ◌∷◌, arith, ok,
  Outcome, and_then, out_of_fuel, Cmd, pure, ◌>>=◌, ◌>>◌,
}
use reblessive.Stack.Defs.{
  Fut, ret, run, yield_now, wait, running, Coro, start, awaiting, waiting, Frame, result_place,
  Stack, Context, Poll, ready, pending,
}
use reblessive.Stack.Frames.{fill}
use reblessive.Stack.Future.{poll_coro}
use reblessive.Stack.Drive.{enter_future}
use reblessive.Stack.Runner.{drive_async, poll_finish, drop_runner}
use reblessive.Stack.Eval.{eval, polls, polls_pos, waits}
use reblessive.Stack.Finish.{
  between, box, task_at, ResumesAs, polled, ResumesAs-yield_now, running-ResumesAs, start-ResumesAs,
}

module _ {V : Type 0} where
  -- An executor polls the future of `finish_async` until it is ready. Each poll may run `rounds`
  -- rounds of its loop.
  unfoldable pub block_on : ℕ → ℕ → Context → Cmd (Stack V) V
  unfolding poll_finish
  block_on zero rounds cx s = out_of_fuel
  block_on (suc n) rounds cx s =
      (do p ← poll_finish rounds cx; elim p [ ready v ↦ pure v | pending ↦ block_on n rounds cx ]) s

  -- What the executor does with the outcome of a poll
  then_block_on : ℕ → ℕ → Context → Outcome (Stack V) (Poll V) → Outcome (Stack V) V
  then_block_on n rounds cx r =
      and_then r (λ p s. elim p [ ready v ↦ ok v s | pending ↦ block_on n rounds cx s ])

  block_on-suc :
      (n rounds : ℕ) (cx : Context) (s : Stack V)
      → block_on (suc n) rounds cx s ≡ then_block_on n rounds cx (poll_finish rounds cx s)
  unfolding block_on then_block_on
  block_on-suc n rounds cx s = ground arith

  then_block_on-pending :
      (n rounds : ℕ) (cx : Context) (s : Stack V)
      → then_block_on (suc n) rounds cx (ok pending s)
        ≡ then_block_on n rounds cx (poll_finish rounds cx s)
  unfolding then_block_on
  then_block_on-pending n rounds cx s = block_on-suc n rounds cx s

  waiting-ResumesAs : (f : Fut V) → ResumesAs (waiting f) f
  unfolding poll_coro
  waiting-ResumesAs f cx s t rest e = refl

  module _ (cx : Context) (addr : ℕ) (woken : List ℕ) where
    drive-ret :
        (v : V) (c : Coro V)
        → ResumesAs c (ret v)
        → (g g' : Frame V) (rest : List (Frame V)) → fill v g ≡ some g'
        → drive_async cx (between (task_at c rest ∷ g ∷ rest) addr woken)
          ≡ ok (ready tt) (between (g' ∷ rest) addr woken)
    unfolding drive_async
    drive-ret v c resumes g g' rest filled =
        ground (arith, resumes cx (polled cx addr woken (g ∷ rest)) (box c rest) (g ∷ rest) refl)

    drive-run :
        (child : Fut V) (k : V → Fut V) (c : Coro V)
        → ResumesAs c (run child k)
        → (g : Frame V) (rest : List (Frame V))
        → drive_async cx (between (task_at c rest ∷ g ∷ rest) addr woken)
          ≡ ok (ready tt) (
              between
                (task_at (start child) (g ∷ rest)
                  ∷ task_at (awaiting (running none) k) rest
                  ∷ g
                  ∷ rest)
                addr
                woken)
    unfolding drive_async
    drive-run child k c resumes g rest =
        ground (arith, resumes cx (polled cx addr woken (g ∷ rest)) (box c rest) (g ∷ rest) refl)

    drive-wait :
        (f : Fut V) (c : Coro V)
        → ResumesAs c (wait f)
        → (g : Frame V) (rest : List (Frame V))
        → drive_async cx (between (task_at c rest ∷ g ∷ rest) addr woken)
          ≡ ok pending (between (task_at (waiting f) rest ∷ g ∷ rest) addr woken)
    unfolding drive_async
    drive-wait f c resumes g rest =
        ground (arith, resumes cx (polled cx addr woken (g ∷ rest)) (box c rest) (g ∷ rest) refl)

    poll_finish-ready :
        (n : ℕ) (f g : Frame V) (rest : List (Frame V)) (t : Stack V)
        → drive_async cx (between (f ∷ g ∷ rest) addr woken) ≡ ok (ready tt) t
        → poll_finish (suc n) cx (between (f ∷ g ∷ rest) addr woken) ≡ poll_finish n cx t
    unfolding poll_finish
    poll_finish-ready n f g rest t e = ground (arith, e)

    poll_finish-pending :
        (n : ℕ) (f g : Frame V) (rest : List (Frame V)) (t : Stack V)
        → drive_async cx (between (f ∷ g ∷ rest) addr woken) ≡ ok pending t
        → poll_finish (suc n) cx (between (f ∷ g ∷ rest) addr woken) ≡ ok pending t
    unfolding poll_finish
    poll_finish-pending n f g rest t e = ground (arith, e)

    block_on-task :
        (f : Fut V) (c : Coro V)
        → ResumesAs c f
        → (g g' : Frame V) (rest : List (Frame V)) → fill (eval f) g ≡ some g'
        → (rounds left spare n m : ℕ) → polls f + spare ≤ left
        → polls f + spare ≤ rounds
        → m ≡ waits f + n
        → (left' : ℕ) × (spare ≤ left')
          × (then_block_on m rounds cx
                (poll_finish left cx (between (task_at c rest ∷ g ∷ rest) addr woken))
              ≡ then_block_on n rounds cx (poll_finish left' cx (between (g' ∷ rest) addr woken)))
    unfolding eval polls waits
    block_on-task f c resumes g g' rest filled rounds zero spare n m enough most e =
        absurd (omega (arith, polls_pos f))
    block_on-task (ret v) c resumes g g' rest filled rounds (suc left) spare n m enough most e = (
      left,
      omega arith,
      let e' : m ≡ n = omega arith in
          rw e' (
            ap (then_block_on n rounds cx)
              (poll_finish-ready left _ _ rest _ (drive-ret v c resumes g g' rest filled))),
    )
    block_on-task (run child k) c resumes g g' rest filled rounds (suc left) spare n m enough most
          e =
        let (left₁, h₁, p₁) =
          block_on-task child (start child) (start-ResumesAs child)
            (task_at (awaiting (running none) k) rest) _ (g ∷ rest) refl rounds left
            (polls (k (eval child)) + spare) (waits (k (eval child)) + n) m (omega arith)
            (omega arith) (omega arith) in
        let (left₂, h₂, p₂) =
          block_on-task (k (eval child)) _ (running-ResumesAs (eval child) k) g g' rest filled
            rounds left₁ spare n _ h₁ (omega arith) refl in
        (
          left₂,
          h₂,
          ap (then_block_on m rounds cx)
                (poll_finish-ready left _ _ rest _ (drive-run child k c resumes g rest))
              ∙ p₁
              ∙ p₂,
        )
    block_on-task (yield_now f) c resumes g g' rest filled rounds (suc left) spare n m enough most
          e =
        block_on-task f c (ResumesAs-yield_now c f resumes) g g' rest filled rounds (suc left) spare
          n m enough most e
    block_on-task (wait f) c resumes g g' rest filled rounds (suc left) spare n m enough most e =
        let (left₁, h₁, p₁) =
          block_on-task f (waiting f) (waiting-ResumesAs f) g g' rest filled rounds rounds spare n
            (waits f + n) (omega arith) (omega arith) refl in
        let e' : m ≡ suc (waits f + n) = omega arith in
        (
          left₁,
          h₁,
          rw e' (
              ap (then_block_on _ rounds cx)
                (poll_finish-pending left _ _ rest _ (drive-wait f c resumes g rest))
              ∙ then_block_on-pending (waits f + n) rounds cx _
              ∙ p₁),
        )

  -- `Stack::enter` and `Runner::finish_async` in an executor
  unfoldable pub enter_block_on : ℕ → ℕ → Context → Fut V → Cmd (Stack V) V
  unfolding enter_future drop_runner
  enter_block_on n rounds cx fut = do
    enter_future fut
    v ← block_on n rounds cx
    drop_runner
    pure v

  poll_finish-result :
      (left : ℕ) (cx : Context) (v : V) (addr : ℕ) (woken : List ℕ)
      → 0 < left
      → poll_finish left cx (between (result_place (some v) ∷ []) addr woken)
        ≡ ok (ready v) (between [] addr woken)
  unfolding poll_finish
  poll_finish-result zero cx v addr woken h = elim h [ ]
  poll_finish-result (suc left) cx v addr woken h = ground arith

  entered-eval :
      (f : Fut V) (cx : Context) (addr : ℕ) (woken : List ℕ) (n rounds : ℕ)
      → waits f < n
      → polls f < rounds
      → block_on n rounds cx (between (task_at (start f) [] ∷ result_place none ∷ []) addr woken)
        ≡ ok (eval f) (between [] addr woken)
  unfolding then_block_on
  entered-eval f cx addr woken zero rounds more enough = absurd (omega arith)
  entered-eval f cx addr woken (suc n) rounds more enough =
      let (left, h, p) =
        block_on-task cx addr woken f (start f) (start-ResumesAs f) (result_place none) _ [] refl
          rounds rounds 1 (n - waits f) n (omega arith) (omega arith) (omega arith) in
      block_on-suc n rounds cx _
      ∙ p
      ∙ ap (then_block_on (n - waits f) rounds cx)
          (poll_finish-result left cx (eval f) addr woken (omega arith))

  -- Whatever the function awaits, an executor that polls often enough gets its recursive value, and
  -- the stack is as it was before it was entered.
  pub enter_block_on-eval :
      (f : Fut V) (cx : Context) (addr : ℕ) (woken : List ℕ) (n rounds : ℕ)
      → waits f < n
      → polls f < rounds
      → enter_block_on n rounds cx f (between [] addr woken) ≡ ok (eval f) (between [] addr woken)
  unfolding enter_block_on
  enter_block_on-eval f cx addr woken n rounds more enough =
      ground (arith, entered-eval f cx addr woken n rounds more enough)
