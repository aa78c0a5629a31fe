-- ===== src/Vtable/Memory.antt =====
-- Memory that holds futures of different types, and a pointer that is cast to one of them. A type is
-- a number here; to take the bytes for another type than the one that was written is undefined
-- behaviour.
use mathlib.Core.Path.{subst, subst_refl}
use native.Mathlib.Decide.{ℕ_discrete}
use native.Mathlib.Nat.{ℕ_set}
use reblessive.Base.{
  refl, ap, ◌∙◌, ℕ, ◌≡◌, Option, none, some, Outcome, ok, panicked, undefined, out_of_fuel, Cmd,
  ◌==◌, if◌then◌else◌,
}

-- A call on a part of the state
abbrev pub within : {S T A : Type 0} → (S → T) → Outcome S A → Outcome T A
within f (ok a s) = ok a (f s)
within f (panicked p) = panicked p
within f undefined = undefined
within f out_of_fuel = out_of_fuel

abbrev pub map_some : {A B : Type 0} → (A → B) → Option A → Option B
map_some f none = none
map_some f (some a) = some (f a)

abbrev pub put : {B : Type 0} → ℕ → Option B → (ℕ → Option B) → ℕ → Option B
put a o m x = if x == a then o else m x

module _ (Future : ℕ → Type 0) where
  -- A future that was written at its type, with the strong count of its `Arc` if it has one; it is
  -- none after its drop.
  pub record Typed : Type 0 where
    pub kind : ℕ
    pub count : ℕ
    pub future : Option (Future kind)

  -- The same behind a table
  pub record Block (T : Type 0) : Type 0 where
    pub table : T
    pub typed : Typed

  -- The bytes of `t` for another type, which is the same
  abbrev moved : (t : Typed) (k : ℕ) → t.kind ≡ k → Typed
  moved t k e = record {
    kind = k;
    count = t.count;
    future = subst (λ j. Option (Future j)) e t.future;
  }

  -- `cast::<F>()`
  unfoldable pub cast : ℕ → Typed → Option Typed
  cast k t = elim (ℕ_discrete t.kind k) [ yes e ↦ some (moved t k e) | no _ ↦ none ]

  cast_self : (t : Typed) → cast t.kind t ≡ some t
  unfolding cast
  cast_self t =
      elim (ℕ_discrete t.kind t.kind)
        as (λ d.
          elim d as (λ _. Option Typed) [ yes e ↦ some (moved t t.kind e) | no _ ↦ none ]
          ≡ some t) [
            | yes e ↦
                ap (λ f. some (record { kind = t.kind; count = t.count; future = f }))
                  (ap (λ p. subst (λ j. Option (Future j)) p t.future) (ℕ_set t.kind t.kind e refl)
                    ∙ subst_refl (λ j. Option (Future j)) t.future)
            | no ne ↦ absurd (ne refl)
          ]

  -- A cast to the type that was written
  pub cast-own : (k : ℕ) (t : Typed) → t.kind ≡ k → cast k t ≡ some t
  cast-own k t same = subst (λ j. cast j t ≡ some t) same (cast_self t)

  -- Without tables
  abbrev pub Ideal : Type 0
  Ideal = ℕ → Option Typed

  abbrev pub Memory : Type 0 → Type 0
  Memory T = ℕ → Option (Block T)

  module _ {T A : Type 0} where
    -- The rest of an access, which leaves a value, or nothing where the memory is given back
    abbrev pub write_back : ℕ → Block T → Memory T → Outcome (Option Typed) A → Outcome (Memory T) A
    write_back a b m r = within (λ o. put a (map_some (λ t. record b { typed = t }) o) m) r

    -- What a function for the type `k` does behind its cast
    unfoldable pub access : ℕ → ℕ → (Typed → Outcome (Option Typed) A) → Cmd (Memory T) A
    unfolding cast
    access k a g m = elim (m a) [
      | none ↦ undefined
      | some b ↦ elim (cast k b.typed) [ none ↦ undefined | some t ↦ write_back a b m (g t) ]
    ]

  -- The same where every type is known
  unfoldable pub ideal_access : {A : Type 0} → ℕ → (Typed → Outcome (Option Typed) A) → Cmd Ideal A
  ideal_access a g i = elim (i a) [ none ↦ undefined | some t ↦ within (λ o. put a o i) (g t) ]

  abbrev pub forget : {T : Type 0} → Memory T → Ideal
  forget m a = map_some (λ b. b.typed) (m a)

  -- Every table is that of the type behind it.
  abbrev pub Fits : {T : Type 0} → (ℕ → T) → Option (Block T) → Type 0
  Fits get none = Unit
  Fits get (some b) = b.table ≡ get b.typed.kind

  abbrev pub IsTyped : {T : Type 0} → (ℕ → T) → Memory T → Type 0
  IsTyped get m = (a : ℕ) → Fits get (m a)

  -- The call through a table: `entry` does what the function in the table does at an address.
  unfoldable pub call : {T A : Type 0} → (T → ℕ → Cmd (Memory T) A) → ℕ → Cmd (Memory T) A
  call entry a m = elim (m a) [ none ↦ undefined | some b ↦ entry b.table a m ]

  -- An access does not change the type.
  abbrev pub Keeps : {A : Type 0} → (Typed → Outcome (Option Typed) A) → Type 0
  Keeps {A} g = (t t' : Typed) (r : A) → g t ≡ ok r (some t') → t'.kind ≡ t.kind
