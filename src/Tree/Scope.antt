-- ===== src/Tree/Scope.antt =====
-- src/tree/future.rs: `ScopeFuture`, which runs its future as a task of the scheduler. What the
-- compiler makes of that async block, with a waker or without, is a parameter.
use reblessive.Base.{
  refl, ℕ, ◌≡◌, ◌≢◌, true, Option, none, some, List, [], ◌∷◌, ◌++◌, arith, ok, Cmd, pure, ◌>>=◌,
  ◌>>◌, if◌then◌else◌, ◌==◌,
}
use reblessive.Stack.Defs.{new_task, Context, Poll, ready, pending}
use reblessive.Stack.Frames.{set_state}
use reblessive.Schedular.Queue.{stub}
use reblessive.Schedular.Ops.{push_cancellable, cancel}
use reblessive.Schedular.Uses.{Good}
use reblessive.Schedular.Invariant.Spawn.{push_cancellable-IsInv, push_cancellable-future}
use reblessive.Schedular.Invariant.Cancel.{cancel-IsInv}
use reblessive.Tree.Runner.{TreeStack, on_root, on_schedular, with_context, get}

-- `C` is the closure of the scope, which gives its future.
pub data ScopeFutureState (C V : Type 0) : Type 0 where
  initial : C → ScopeFutureState C V
  running : Option V → Option ℕ → ScopeFutureState C V
  finished : ScopeFutureState C V

-- The references that cancel tokens in the state have
abbrev pub tokens : {C V : Type 0} → ScopeFutureState C V → List ℕ
tokens (initial c) = []
tokens (running place none) = []
tokens (running place (some t)) = t ∷ []
tokens finished = []

module _ {C V F : Type 0} (block : C → Option ℕ → F) where
  -- The drop of the cell with the cancel token
  unfoldable pub drop_token : Option ℕ → Cmd (TreeStack V F) (Unit {0})
  drop_token none = pure tt
  drop_token (some t) = on_schedular (cancel t)

  -- The task of the scope: it wakes the waker of the context if another scheduler polls the scope.
  abbrev pub scope_task : Context → C → TreeStack V F → F
  scope_task cx c s =
      if s.root.async_context == cx.addr then block c none else block c (some cx.waker)

  -- `ScopeFuture::poll`; `t` is the address that a new task gets.
  unfoldable pub poll_scope :
      Context → ℕ → ScopeFutureState C V → Cmd (TreeStack V F) (Poll V × ScopeFutureState C V)
  unfolding drop_token
  poll_scope cx t (initial c) = do
    on_root (set_state new_task)
    s ← get
    token ← with_context (on_schedular (push_cancellable t (scope_task cx c s)))
    pure (pending, running none (some token))
  poll_scope cx t (running (some x) token) = do drop_token token; pure (ready x, finished)
  poll_scope cx t (running none token) = pure (pending, running none token)
  poll_scope cx t finished = pure (pending, finished)

  -- `impl Drop for ScopeFuture`
  unfoldable pub drop_scope : ScopeFutureState C V → Cmd (TreeStack V F) (Unit {0})
  unfolding drop_token
  drop_scope (initial c) = pure tt
  drop_scope (running place token) = drop_token token
  drop_scope finished = pure tt

  drop_token-Good :
      (token : Option ℕ) (place : Option V) (s : TreeStack V F) (refs : List ℕ)
      → Good (tokens {C = C} (running place token) ++ refs) s.schedular
      → (after : TreeStack V F) × (drop_token token s ≡ ok tt after)
        × Good refs after.schedular
        × (after.root ≡ s.root)
  unfolding drop_token
  drop_token-Good none place s refs g = (s, refl, g, refl)
  drop_token-Good (some t) place s refs g =
      let (after, later, runs, w) = cancel-IsInv t s.schedular g.all g.queue refs g.is in
      (
        record s { schedular = after },
        ground (arith, runs),
        record { all = g.all; queue = later; is = w },
        refl,
      )

  -- What a poll of the scope in each state answers
  abbrev pub answer : ScopeFutureState C V → Poll V
  answer (initial c) = pending
  answer (running (some x) token) = ready x
  answer (running none token) = pending
  answer finished = pending

  -- The state behind it: a scope that starts has a cancel token for its new task, and keeps it until
  -- it is ready.
  abbrev pub state_after : ℕ → ScopeFutureState C V → ScopeFutureState C V
  state_after t (initial c) = running none (some t)
  state_after t (running (some x) token) = finished
  state_after t (running none token) = running none token
  state_after t finished = finished

  -- What it does to the runtime, besides the references: the start leaves the stack to wait for a
  -- new task, which runs the block of the scope.
  abbrev pub Effect : Context → ℕ → ScopeFutureState C V → TreeStack V F → TreeStack V F → Type 0
  Effect cx t (initial c) s after =
      (after.root ≡ record s.root { state = new_task })
      × (after.schedular.future t ≡ some (scope_task cx c s))
  Effect cx t (running (some x) token) s after = after.root ≡ s.root
  Effect cx t (running none token) s after = after ≡ s
  Effect cx t finished s after = after ≡ s

  -- What a poll of the scope comes to
  pub record Polled (cx : Context) (t : ℕ) (st : ScopeFutureState C V) (s : TreeStack V F)
      (refs : List ℕ) : Type 0 where
    pub after : TreeStack V F
    pub runs : poll_scope cx t st s ≡ ok (answer st, state_after t st) after
    pub good : Good (tokens (state_after t st) ++ refs) after.schedular
    pub effect : Effect cx t st s after

  -- A poll of a scope inside of the tree runtime, with free memory for a task, succeeds in every
  -- state. The first one makes the task of the scope and has a cancel token for it; later ones are
  -- pending and change nothing until the value is there; then the poll is ready with the value and
  -- gives the token up. The references of the scheduler are in order behind each.
  pub poll_scope-Polled :
      (cx : Context) (t : ℕ) (st : ScopeFutureState C V) (s : TreeStack V F) (refs : List ℕ)
      → Good (tokens st ++ refs) s.schedular
      → s.tree_ptr ≡ true
      → s.schedular.count t ≡ 0
      → t ≢ stub
      → Polled cx t st s refs
  unfolding poll_scope
  poll_scope-Polled cx t (initial c) s refs g ptr free real =
      let s₁ : TreeStack V F = record s { root = record s.root { state = new_task } } in
      let task = scope_task cx c s₁ in
      let (after, runs, w) =
        push_cancellable-IsInv t task s.schedular g.all g.queue refs g.is free real in
      record {
        after = record s₁ { schedular = after };
        runs = ground (arith, ptr, runs);
        good = record { all = t ∷ g.all; queue = g.queue ++ t ∷ []; is = w };
        effect = (
          refl,
          push_cancellable-future t task s.schedular g.all g.queue refs g.is free real after runs,
        );
      }
  poll_scope-Polled cx t (running (some x) token) s refs g ptr free real =
      let (after, runs, good, root) = drop_token-Good token (some x) s refs g in
      record { after = after; runs = ground (arith, runs); good = good; effect = root }
  poll_scope-Polled cx t (running none token) s refs g ptr free real = record {
    after = s;
    runs = refl;
    good = g;
    effect = refl;
  }
  poll_scope-Polled cx t finished s refs g ptr free real = record {
    after = s;
    runs = refl;
    good = g;
    effect = refl;
  }

  -- A scope that is dropped in any state gives up its cancel token, if it has one.
  pub drop_scope-Good :
      (st : ScopeFutureState C V) (s : TreeStack V F) (refs : List ℕ)
      → Good (tokens st ++ refs) s.schedular
      → (after : TreeStack V F) × (drop_scope st s ≡ ok tt after)
        × Good refs after.schedular
        × (after.root ≡ s.root)
  unfolding drop_scope
  drop_scope-Good (initial c) s refs g = (s, refl, g, refl)
  drop_scope-Good (running place token) s refs g = drop_token-Good token place s refs g
  drop_scope-Good finished s refs g = (s, refl, g, refl)
