-- ===== src/Schedular/AllList.antt =====
-- src/tree/schedular/mod.rs: the doubly linked list of all tasks, as a list of their addresses.
use reblessive.Base.{refl, sym, ◌∙◌, ℕ, ◌≡◌, ◌≢◌, Option, none, some, List, [], ◌∷◌, ◌++◌, arith}
use reblessive.Schedular.Queue.{Missing, IsDistinct}
use reblessive.Schedular.Tasks.{assign}

abbrev pub Links : Type 0
Links = ℕ → Option ℕ

abbrev pub first : List ℕ → Option ℕ
first [] = none
first (x ∷ xs) = some x

-- The last one of a list, or else what stands before it
abbrev pub last_or : Option ℕ → List ℕ → Option ℕ
last_or before [] = before
last_or before (x ∷ xs) = last_or (some x) xs

-- The links of the tasks in a list, behind the task `before` and up to the task `last`
abbrev pub Linked : Links → Links → Option ℕ → List ℕ → Option ℕ → Type 0
Linked next prev before [] last = last ≡ before
Linked next prev before (x ∷ xs) last =
    (prev x ≡ before) × (next x ≡ first xs) × Linked next prev (some x) xs last

pub assign_same {ℓ} : {A : Type ℓ} → (t : ℕ) (v : A) (f : ℕ → A) → assign t v f t ≡ v
unfolding assign
assign_same t v f = ground arith

pub assign_other {ℓ} : {A : Type ℓ} → (t x : ℕ) (v : A) (f : ℕ → A) → x ≢ t → assign t v f x ≡ f x
unfolding assign
assign_other t x v f ne = ground arith

-- The task is not one that may be there.
abbrev pub Apart : Option ℕ → List ℕ → Type 0
Apart none xs = Unit
Apart (some p) xs = Missing p xs

-- A link to a task that may be there is set.
abbrev pub relink : Option ℕ → Option ℕ → Links → Links
relink none v f = f
relink (some p) v f = assign p v f

pub relink_other : (o v : Option ℕ) (f : Links) (x : ℕ) → Apart o (x ∷ []) → relink o v f x ≡ f x
relink_other none v f x h = refl
relink_other (some p) v f x h = assign_other p x v f (λ e. h.0 (sym e))

Apart-first : (o : Option ℕ) (x : ℕ) (xs : List ℕ) → Apart o (x ∷ xs) → Apart o (x ∷ [])
Apart-first none x xs h = tt
Apart-first (some p) x xs h = (h.0, tt)

Apart-rest : (o : Option ℕ) (x : ℕ) (xs : List ℕ) → Apart o (x ∷ xs) → Apart o xs
Apart-rest none x xs h = tt
Apart-rest (some p) x xs h = h.1

-- The links of other tasks are of no concern.
pub Linked-relink :
    (next prev : Links) (before last o v p w : Option ℕ) (xs : List ℕ)
    → Apart o xs
    → Apart p xs
    → Linked next prev before xs last
    → Linked (relink o v next) (relink p w prev) before xs last
Linked-relink next prev before last o v p w [] a b l = l
Linked-relink next prev before last o v p w (x ∷ xs) a b l = (
  relink_other p w prev x (Apart-first p x xs b) ∙ l.0,
  relink_other o v next x (Apart-first o x xs a) ∙ l.1,
  Linked-relink next prev (some x) last o v p w xs (Apart-rest o x xs a) (Apart-rest p x xs b) l.2,
)

pub Linked-ends : (next prev : Links) (b : ℕ) (xs : List ℕ) → Linked next prev (some b) xs none → ⊥
Linked-ends next prev b [] l = cc
Linked-ends next prev b (x ∷ xs) l = Linked-ends next prev x xs l.2

-- A new task in front of the list
pub Linked-push :
    (next prev : Links) (t : ℕ) (xs : List ℕ) (last : Option ℕ)
    → Linked next prev none xs last
    → Missing t xs
    → IsDistinct xs
    → prev t ≡ none
    → Linked
        (assign t (first xs) next)
        (relink (first xs) (some t) prev)
        none
        (t ∷ xs)
        (elim last [ none ↦ some t | some x ↦ some x ])
Linked-push next prev t [] last l m d p = (p, assign_same t none next, rw l refl)
Linked-push next prev t (x ∷ xs) none l m d p = absurd (Linked-ends next prev x xs l.2)
Linked-push next prev t (x ∷ xs) (some z) l m d p = (
  assign_other x t (some t) prev m.0 ∙ p,
  assign_same t (some x) next,
  (
    assign_same x (some t) prev,
    assign_other t x (some x) next (λ e. m.0 (sym e)) ∙ l.1,
    Linked-relink next prev (some x) (some z) (some t) (some x) (some x) (some t) xs m.1 d.0 l.2,
  ),
)

module _ (next prev : Links) (t : ℕ) where
  -- The links that a task has in its list
  pub Linked-prev :
      (before last : Option ℕ) (xs ys : List ℕ)
      → Linked next prev before (xs ++ t ∷ ys) last
      → prev t ≡ last_or before xs
  Linked-prev before last [] ys l = l.0
  Linked-prev before last (x ∷ xs) ys l = Linked-prev (some x) last xs ys l.2

  pub Linked-next :
      (before last : Option ℕ) (xs ys : List ℕ)
      → Linked next prev before (xs ++ t ∷ ys) last
      → next t ≡ first ys
  Linked-next before last [] ys l = l.1
  Linked-next before last (x ∷ xs) ys l = Linked-next (some x) last xs ys l.2

-- Where the list ends when the task in front of `ys` is taken out
abbrev pub end_of : Option ℕ → List ℕ → Option ℕ → Option ℕ
end_of before [] last = before
end_of before (y ∷ ys) last = last

last_or-ne : (x y : ℕ) (ys : List ℕ) → Missing x (y ∷ ys) → Apart (last_or (some y) ys) (x ∷ [])
last_or-ne x y [] m = ((λ e. m.0 (sym e)), tt)
last_or-ne x y (z ∷ zs) m = last_or-ne x z zs m.1

Missing-middle : (x t : ℕ) (xs ys : List ℕ) → Missing x (xs ++ t ∷ ys) → Missing x ys
Missing-middle x t [] ys m = m.1
Missing-middle x t (z ∷ xs) ys m = Missing-middle x t xs ys m.1

Missing-front : (x t : ℕ) (xs ys : List ℕ) → Missing x (xs ++ t ∷ ys) → Missing x xs
Missing-front x t [] ys m = tt
Missing-front x t (z ∷ xs) ys m = (m.0, Missing-front x t xs ys m.1)

pub first-Apart : (x : ℕ) (ys : List ℕ) → Missing x ys → Apart (first ys) (x ∷ [])
first-Apart x [] m = tt
first-Apart x (y ∷ ys) m = ((λ e. m.0 (sym e)), tt)

-- A task is taken out of the list.
pub Linked-remove :
    (next prev : Links) (t : ℕ) (before last : Option ℕ) (xs ys : List ℕ)
    → Linked next prev before (xs ++ t ∷ ys) last
    → IsDistinct (xs ++ t ∷ ys)
    → Apart before (xs ++ t ∷ ys)
    → Linked
        (relink (last_or before xs) (first ys) next)
        (relink (first ys) (last_or before xs) prev)
        before
        (xs ++ ys)
        (end_of (last_or before xs) ys last)
Linked-remove next prev t before last [] [] l d a = refl
Linked-remove next prev t before last [] (y ∷ ys) l d a =
    let away = Apart-rest before t (y ∷ ys) a in
    (
      assign_same y before prev,
      relink_other before (some y) next y (Apart-first before y ys away) ∙ l.2.1,
      Linked-relink next prev (some y) last before (some y) (some y) before ys
          (Apart-rest before y ys away) d.1.0 l.2.2,
    )
Linked-remove next prev t before last (x ∷ []) ys l d a = (
  relink_other (first ys) (some x) prev x (first-Apart x ys (Missing-middle x t [] ys d.0)) ∙ l.0,
  assign_same x (first ys) next,
  Linked-remove next prev t (some x) last [] ys l.2 d.1 d.0,
)
Linked-remove next prev t before last (x ∷ y ∷ xs) ys l d a = (
  relink_other (first ys) (last_or (some y) xs) prev x
        (first-Apart x ys (Missing-middle x t (y ∷ xs) ys d.0))
      ∙ l.0,
  relink_other (last_or (some y) xs) (first ys) next x
        (last_or-ne x y xs (d.0.0, Missing-front x t xs ys d.0.1))
      ∙ l.1,
  Linked-remove next prev t (some x) last (y ∷ xs) ys l.2 d.1 d.0,
)
