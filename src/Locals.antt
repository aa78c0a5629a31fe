-- ===== src/Locals.antt =====
-- src/defer.rs, and the thread local pointers of src/stack/mod.rs and src/tree/mod.rs that futures
-- find their runtime by. Code here returns or panics, and a panic unwinds through the drops.
use reblessive.Base.{
  refl, ap, ◌∙◌, ℕ, ◌≡◌, Option, none, some, Option-cases, inl, inr, arith, Panic, unwrap_none,
}

-- How a call ends
pub data Answer (A : Type 0) : Type 0 where
  returned : A → Answer A
  unwound : Panic → Answer A

abbrev pub Run : Type 0 → Type 0 → Type 0
Run S A = S → Answer A × S

-- `Defer`, where the closure changes a state `S`
pub record Defer (S T : Type 0) : Type 0 where
  pub value : T
  pub f : Option (T → S → S)

module _ {S T : Type 0} where
  -- `Defer::new`
  abbrev pub defer : T → (T → S → S) → Defer S T
  defer value func = record { value = value; f = some func }

  -- `Defer::take`, which gives the value back and drops the rest
  abbrev pub take : Defer S T → T × Defer S T
  take d = (d.value, record { value = d.value; f = none })

  -- `impl Drop for Defer`
  unfoldable pub drop_defer : Defer S T → S → S
  drop_defer d s = elim d.f [ none ↦ s | some g ↦ g d.value s ]

  -- The rest of a function behind a `let _defer`, with the drop at its end
  unfoldable pub guarded : {A : Type 0} → Defer S T → Run S A → Run S A
  unfolding drop_defer
  guarded d body s = let (r, t) = body s in (r, drop_defer d t)

-- What comes behind a call, unless it panicked
abbrev pub after : {S A B : Type 0} → Answer A × S → (A → Run S B) → Answer B × S
after (returned a, s) k = k a s
after (unwound p, s) k = (unwound p, s)

-- `STACK_PTR` and `TREE_PTR`
pub record Locals : Type 0 where
  pub stack_ptr : Option ℕ
  pub tree_ptr : Option ℕ

abbrev pub set_stack : Option ℕ → Locals → Locals
set_stack p s = record s { stack_ptr = p }

abbrev pub set_tree : Option ℕ → Locals → Locals
set_tree p s = record s { tree_ptr = p }

module _ {A : Type 0} where
  -- `Stack::enter_context`
  unfoldable pub enter_stack : ℕ → Run Locals A → Run Locals A
  unfolding guarded
  enter_stack self f s = guarded (defer s.stack_ptr set_stack) f (set_stack (some self) s)

  -- `Stack::with_context`
  unfoldable pub with_stack : (ℕ → Run Locals A) → Run Locals A
  with_stack f s = elim s.stack_ptr [ none ↦ (unwound unwrap_none, s) | some p ↦ f p s ]

  -- `TreeStack::enter_context`
  unfoldable pub enter_tree : ℕ → Run Locals A → Run Locals A
  unfolding guarded
  enter_tree self f s = guarded (defer s.tree_ptr set_tree) f (set_tree (some self) s)

  -- `TreeStack::with_context`
  unfoldable pub with_tree : (ℕ → Run Locals A) → Run Locals A
  with_tree f s = elim s.tree_ptr [ none ↦ (unwound unwrap_none, s) | some p ↦ f p s ]

-- `Stk::enter_run` and `Stk::enter_scope` of the tree runtime, which only look for the runtime and make
-- a future; `Stk::enter_run` of the stack runtime does not look.
unfoldable pub enter_run : {F : Type 0} → F → Run Locals F
enter_run f s = after (with_tree (λ _ t. (returned tt, t)) s) (λ (_ : Unit {0}) t. (returned f, t))

unfoldable pub enter_scope : {F : Type 0} → F → Run Locals F
enter_scope f s =
    after (with_tree (λ _ t. (returned tt, t)) s) (λ (_ : Unit {0}) t. (returned f, t))

-- Code that uses these in any way; what it computes is a number, and so is a future.
pub data Code : Type 0 where
  finish : ℕ → Code
  fail : Panic → Code
  in_stack : ℕ → Code → (ℕ → Code) → Code  -- `enter_context`, and what comes behind it
  of_stack : (ℕ → Code) → Code  -- `with_context`
  in_tree : ℕ → Code → (ℕ → Code) → Code
  of_tree : (ℕ → Code) → Code
  make_run : ℕ → (ℕ → Code) → Code  -- `enter_run`, and what comes behind it
  make_scope : ℕ → (ℕ → Code) → Code

unfoldable pub run : Code → Run Locals ℕ
unfolding enter_stack with_stack enter_tree with_tree enter_run enter_scope
run (finish n) s = (returned n, s)
run (fail p) s = (unwound p, s)
run (in_stack self body k) s = after (enter_stack self (run body) s) (λ n. run (k n))
run (of_stack k) s = with_stack (λ p. run (k p)) s
run (in_tree self body k) s = after (enter_tree self (run body) s) (λ n. run (k n))
run (of_tree k) s = with_tree (λ p. run (k p)) s
run (make_run f k) s = after (enter_run f s) (λ n. run (k n))
run (make_scope f k) s = after (enter_scope f s) (λ n. run (k n))

-- The same code where the runtimes around it are known, with no thread local
abbrev pub answer_of : Answer ℕ → (ℕ → Answer ℕ) → Answer ℕ
answer_of (returned n) k = k n
answer_of (unwound p) k = unwound p

abbrev pub of_some : Option ℕ → (ℕ → Answer ℕ) → Answer ℕ
of_some none k = unwound unwrap_none
of_some (some p) k = k p

unfoldable pub meaning : Code → Option ℕ → Option ℕ → Answer ℕ
meaning (finish n) stack tree = returned n
meaning (fail p) stack tree = unwound p
meaning (in_stack self body k) stack tree =
    answer_of (meaning body (some self) tree) (λ n. meaning (k n) stack tree)
meaning (of_stack k) stack tree = of_some stack (λ p. meaning (k p) stack tree)
meaning (in_tree self body k) stack tree =
    answer_of (meaning body stack (some self)) (λ n. meaning (k n) stack tree)
meaning (of_tree k) stack tree = of_some tree (λ p. meaning (k p) stack tree)
meaning (make_run f k) stack tree = of_some tree (λ _. meaning (k f) stack tree)
meaning (make_scope f k) stack tree = of_some tree (λ _. meaning (k f) stack tree)

-- What comes behind a call that changed no pointer
after-answer_of :
    (r : Answer ℕ) (k : ℕ → Code) (s : Locals)
    → ((n : ℕ) → run (k n) s ≡ (meaning (k n) s.stack_ptr s.tree_ptr, s))
    → after (r, s) (λ n. run (k n)) ≡ (answer_of r (λ n. meaning (k n) s.stack_ptr s.tree_ptr), s)
after-answer_of (returned n) k s later = later n
after-answer_of (unwound p) k s later = refl

-- Every part of the code finds the innermost runtime around it, and none elsewhere; both pointers are
-- as they were when it ends, also if it panics.
pub run-meaning : (c : Code) (s : Locals) → run c s ≡ (meaning c s.stack_ptr s.tree_ptr, s)
unfolding run meaning enter_stack with_stack enter_tree with_tree enter_run enter_scope guarded
    drop_defer
run-meaning (finish n) s = refl
run-meaning (fail p) s = refl
run-meaning (in_stack self body k) s =
    ap (λ r. after (r.0, set_stack s.stack_ptr r.1) (λ n. run (k n)))
      (run-meaning body (set_stack (some self) s))
    ∙ after-answer_of (meaning body (some self) s.tree_ptr) k s (λ n. run-meaning (k n) s)
run-meaning (in_tree self body k) s =
    ap (λ r. after (r.0, set_tree s.tree_ptr r.1) (λ n. run (k n)))
      (run-meaning body (set_tree (some self) s))
    ∙ after-answer_of (meaning body s.stack_ptr (some self)) k s (λ n. run-meaning (k n) s)
run-meaning (of_stack k) s = elim (Option-cases s.stack_ptr) [
  | inl e ↦ ground (arith, e)
  | inr (p, e) ↦ ground (arith, e, run-meaning (k p) s)
]
run-meaning (of_tree k) s = elim (Option-cases s.tree_ptr) [
  | inl e ↦ ground (arith, e)
  | inr (p, e) ↦ ground (arith, e, run-meaning (k p) s)
]
run-meaning (make_run f k) s = elim (Option-cases s.tree_ptr) [
  | inl e ↦ ground (arith, e)
  | inr (p, e) ↦ ground (arith, e, run-meaning (k f) s)
]
run-meaning (make_scope f k) s = elim (Option-cases s.tree_ptr) [
  | inl e ↦ ground (arith, e)
  | inr (p, e) ↦ ground (arith, e, run-meaning (k f) s)
]
