-- ===== src/Base/Effects.antt =====
-- What a call of the crate does: it returns a value and a state, or it panics. Reading memory that
-- does not hold what the code takes it for is undefined behaviour, and is kept apart.
use mathlib.Core.Option.{Option, none, some}

pub data Panic : Type 0 where
  unwrap_none : Panic  -- `Option::unwrap` or `expect` on `None`
  assertion : Panic  -- a failed `assert!` or `assert_eq!`
  explicit : Panic  -- `panic!`
  overflow : Panic  -- an arithmetic overflow

pub data Outcome {ℓ κ} (S : Type ℓ) (A : Type κ) : Type (ℓ ⊔ κ) where
  ok : A → S → Outcome S A
  panicked : Panic → Outcome S A
  undefined : Outcome S A  -- undefined behaviour
  out_of_fuel : Outcome S A

abbrev pub and_then {ℓ κ μ} :
    {S : Type ℓ} {A : Type κ} {B : Type μ} → Outcome S A → (A → S → Outcome S B) → Outcome S B
and_then (ok a s) k = k a s
and_then (panicked p) k = panicked p
and_then undefined k = undefined
and_then out_of_fuel k = out_of_fuel

-- `Option::unwrap`
abbrev pub unwrap {ℓ κ} : {S : Type ℓ} {A : Type κ} → Option A → S → Outcome S A
unwrap none s = panicked unwrap_none
unwrap (some a) s = ok a s

-- A read of memory that must be initialised.
abbrev pub deref {ℓ κ} : {S : Type ℓ} {A : Type κ} → Option A → S → Outcome S A
deref none s = undefined
deref (some a) s = ok a s

-- Code that changes a state.
abbrev pub Cmd {ℓ κ} : Type ℓ → Type κ → Type (ℓ ⊔ κ)
Cmd S A = S → Outcome S A

abbrev pub pure {ℓ κ} : {S : Type ℓ} {A : Type κ} → A → Cmd S A
pure = ok

infixl 5 ◌>>=◌ ◌>>◌
abbrev pub ◌>>=◌ {ℓ κ μ} :
    {S : Type ℓ} {A : Type κ} {B : Type μ} → Cmd S A → (A → Cmd S B) → Cmd S B
m >>= k = λ s. and_then (m s) k

abbrev pub ◌>>◌ {ℓ κ} : {S : Type ℓ} {B : Type κ} → Cmd S (Unit {0}) → Cmd S B → Cmd S B
m >> n = m >>= λ _. n
