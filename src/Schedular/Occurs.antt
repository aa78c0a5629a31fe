-- ===== src/Schedular/Occurs.antt =====
-- How often a task is in a list.
use reblessive.Base.{
  refl, ap, ℕ, ◌+◌, ◌<◌, ◌≡◌, ◌≢◌, List, [], ◌∷◌, ◌++◌, arith, ◌==◌, if◌then◌else◌,
}
use native.Mathlib.Decide.{ℕ_discrete}
use reblessive.Schedular.Queue.{Missing, IsDistinct}

abbrev pub occurs : ℕ → List ℕ → ℕ
occurs t [] = 0
occurs t (x ∷ xs) = (if x == t then 1 else 0) + occurs t xs

pub occurs-append : (t : ℕ) (xs ys : List ℕ) → occurs t (xs ++ ys) ≡ occurs t xs + occurs t ys
occurs-append t [] ys = omega arith
occurs-append t (x ∷ xs) ys = omega (arith, occurs-append t xs ys)

pub occurs_self : (t : ℕ) (xs : List ℕ) → occurs t (t ∷ xs) ≡ occurs t xs + 1
occurs_self t xs = ground arith

pub occurs_other : (t x : ℕ) (xs : List ℕ) → x ≢ t → occurs x (t ∷ xs) ≡ occurs x xs
occurs_other t x xs ne = ground arith

pub occurs-Missing : (t : ℕ) (xs : List ℕ) → occurs t xs ≡ 0 → Missing t xs
occurs-Missing t [] h = tt
occurs-Missing t (x ∷ xs) h = (λ e. absurd (ground arith), occurs-Missing t xs (ground arith))

pub Missing-occurs : (t : ℕ) (xs : List ℕ) → Missing t xs → occurs t xs ≡ 0
Missing-occurs t [] m = refl
Missing-occurs t (x ∷ xs) m = let ne : t ≢ x = m.0 in ground (arith, Missing-occurs t xs m.1)

pub occurs-middle : (t : ℕ) (xs ys : List ℕ) → IsDistinct (xs ++ t ∷ ys) → occurs t (xs ++ ys) ≡ 0
occurs-middle t [] ys d = Missing-occurs t ys d.0
occurs-middle t (x ∷ xs) ys d =
    let ne : x ≢ t = λ e. away x t xs ys d.0 e in ground (arith, occurs-middle t xs ys d.1)
  where
    away : (x t : ℕ) (xs ys : List ℕ) → Missing x (xs ++ t ∷ ys) → x ≢ t
    away x t [] ys m = m.0
    away x t (z ∷ xs) ys m = away x t xs ys m.1

pub Missing-remove : (x t : ℕ) (xs ys : List ℕ) → Missing x (xs ++ t ∷ ys) → Missing x (xs ++ ys)
Missing-remove x t [] ys m = m.1
Missing-remove x t (z ∷ xs) ys m = (m.0, Missing-remove x t xs ys m.1)

pub IsDistinct-remove : (t : ℕ) (xs ys : List ℕ) → IsDistinct (xs ++ t ∷ ys) → IsDistinct (xs ++ ys)
IsDistinct-remove t [] ys d = d.1
IsDistinct-remove t (x ∷ xs) ys d = (Missing-remove x t xs ys d.0, IsDistinct-remove t xs ys d.1)

pub occurs-insert : (x t : ℕ) (xs ys : List ℕ) → occurs x (xs ++ t ∷ ys) ≡ occurs x (t ∷ xs ++ ys)
occurs-insert x t [] ys = refl
occurs-insert x t (z ∷ xs) ys = omega (arith, occurs-insert x t xs ys)

-- A task that is in the list
pub occurs_split :
    (t : ℕ) (xs : List ℕ) → 0 < occurs t xs → (as' : List ℕ) × (bs : List ℕ) × (xs ≡ as' ++ t ∷ bs)
occurs_split t [] h = absurd (omega arith)
occurs_split t (x ∷ xs) h = elim (ℕ_discrete x t) [
  | yes e ↦ ([], xs, ap (λ z. z ∷ xs) e)
  | no ne ↦
      let (as', bs, e) = occurs_split t xs (ground arith) in (x ∷ as', bs, ap (λ zs. x ∷ zs) e)
]

pub occurs-enqueue :
    (x t : ℕ) (queue : List ℕ) → x ≢ t → occurs x (queue ++ t ∷ []) ≡ occurs x queue
occurs-enqueue x t queue ne = ground (arith, occurs-append x queue (t ∷ []))
