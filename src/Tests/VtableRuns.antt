-- ===== src/Tests/VtableRuns.antt =====
-- Tasks of two types behind their tables.
use reblessive.Base.{ℕ, zero, suc, ◌≡◌, Bool, true, false, none, List, [], ◌∷◌}
use reblessive.Stack.Defs.{Context, Poll, ready, pending}
use reblessive.Vtable.Memory.{within, forget}
use reblessive.Vtable.Boxes.{Use, alloc, drive, drop, dealloc, use_all, know_all, use_all-know_all}
use reblessive.Vtable.Arcs.{create, incr, decr, use_arcs, know_arcs, use_arcs-know_arcs}
use reblessive.Vtable.Arcs
use reblessive.Tests.StackRuns.{cx}

-- A flag, or a number of polls to come
abbrev Flagged : ℕ → Type 0
Flagged zero = Bool
Flagged (suc k) = ℕ

abbrev poll_flagged : (k : ℕ) → Flagged k → Context → Poll (Unit {0}) × Flagged k
poll_flagged zero true c = (ready tt, true)
poll_flagged zero false c = (pending, true)
poll_flagged (suc k) zero c = (ready tt, zero)
poll_flagged (suc k) (suc n) c = (pending, n)

abbrev uses : List (Use Flagged poll_flagged)
uses = alloc 100 0 false ∷ alloc 200 1 3 ∷ drive 200 cx ∷ drive 100 cx ∷ drop 200 ∷ dealloc 200 ∷ []

use_all-know_all_example :
    within (forget Flagged) (use_all Flagged poll_flagged uses (λ _. none))
    ≡ know_all Flagged poll_flagged uses (λ _. none)
use_all-know_all_example = use_all-know_all Flagged poll_flagged uses

abbrev arcs : List (Arcs.Use Flagged poll_flagged)
arcs = create 100 0 true ∷ incr 100 ∷ Arcs.drive 100 cx ∷ decr 100 ∷ Arcs.drop 100 ∷ decr 100 ∷ []

use_arcs-know_arcs_example :
    within (forget Flagged) (use_arcs Flagged poll_flagged arcs (λ _. none))
    ≡ know_arcs Flagged poll_flagged arcs (λ _. none)
use_arcs-know_arcs_example = use_arcs-know_arcs Flagged poll_flagged arcs
