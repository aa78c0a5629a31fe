-- ===== src/Tests/LocalsRuns.antt =====
-- Nested runtimes, a panic within one of them, and code that looks for its runtime.
use reblessive.Base.{◌+◌, ◌≡◌, none, some, unwrap_none}
use reblessive.Locals.{
  Locals, Code, finish, fail, unwound, in_stack, of_stack, in_tree, of_tree, make_run, make_scope,
  run, meaning, run-meaning,
}

abbrev outside : Locals
outside = record { stack_ptr = some 1; tree_ptr = none }

-- A tree in a stack, and a stack in a tree that panics
abbrev nested : Code
nested =
    in_stack 5 (in_tree 6 (of_tree (λ t. make_run t (λ f. of_stack (λ s. finish (f + s))))) finish)
      (λ n. in_tree 7 (in_stack 8 (fail unwrap_none) finish) finish)

run-meaning_example : run nested outside ≡ (meaning nested (some 1) none, outside)
run-meaning_example = run-meaning nested outside

-- A scope outside of the tree it would be for
abbrev late : Code
late = in_tree 6 (of_tree finish) (λ n. make_scope n finish)

late_lem : run late outside ≡ (unwound unwrap_none, outside)
unfolding meaning
late_lem = run-meaning late outside
