-- ===== src/Schedular/Threads/Chain.antt =====
-- src/tree/schedular/queue.rs: the nodes of the queue from the last to the first one, where some
-- are not linked yet.
use mathlib.Core.Path.{subst}
use reblessive.Base.{
  refl, sym, ap, ◌∙◌, ℕ, ◌≡◌, ◌≢◌, ◌⊎◌, inl, inr, Bool, true, false, Option, none, some, List, [],
  ◌∷◌, ◌++◌, arith, ◌==◌, if◌then◌else◌,
}
use reblessive.Schedular.Queue.{stub, Missing, IsDistinct}

-- The field of `a` leads to `b`, or is still empty while a push is going to set it.
abbrev pub Link : (ℕ → Option ℕ) → (ℕ → ℕ → Type 0) → ℕ → ℕ → Type 0
Link next Waits a b = (next a ≡ some b) ⊎ ((next a ≡ none) × Waits a b)

abbrev pub Chain : (ℕ → Option ℕ) → (ℕ → ℕ → Type 0) → ℕ → List ℕ → ℕ → Type 0
Chain next Waits a [] last = (a ≡ last) × (next a ≡ none)
Chain next Waits a (b ∷ bs) last = Link next Waits a b × Chain next Waits b bs last

-- `b` stands right behind `p`.
abbrev pub Adjacent : ℕ → ℕ → ℕ → List ℕ → Type 0
Adjacent p n a [] = ⊥
Adjacent p n a (b ∷ bs) = ((p ≡ a) × (n ≡ b)) ⊎ Adjacent p n b bs

-- The nodes but the stub
abbrev pub real : List ℕ → List ℕ
real [] = []
real (x ∷ xs) = if x == stub then real xs else x ∷ real xs

pub real-append : (xs ys : List ℕ) → real (xs ++ ys) ≡ real xs ++ real ys
real-append [] ys = refl
real-append (x ∷ xs) ys = ground (arith, real-append xs ys)

pub real-Missing : (n : ℕ) (xs : List ℕ) → n ≢ stub → Missing n (real xs) → Missing n xs
real-Missing n [] away m = tt
real-Missing n (x ∷ xs) away m = split (real-Missing n xs away) (x == stub) refl m
  where
    split :
        (Missing n (real xs) → Missing n xs)
        → (b : Bool) → (x == stub) ≡ b
        → Missing n (if b then real xs else x ∷ real xs)
        → Missing n (x ∷ xs)
    split later true e m = (λ h. away (h ∙ ground (arith, e)), later m)
    split later false e m = (m.0, later m.1)

pub Adjacent-mem : (p n a z : ℕ) (xs : List ℕ) → Adjacent p n a xs → Missing z (a ∷ xs) → z ≢ p
Adjacent-mem p n a z [] e m = absurd e
Adjacent-mem p n a z (b ∷ bs) (inl e) m = λ h. m.0 (h ∙ e.0)
Adjacent-mem p n a z (b ∷ bs) (inr e) m = Adjacent-mem p n b z bs e m.1

pub Adjacent-next : (p n a z : ℕ) (xs : List ℕ) → Adjacent p n a xs → Missing z xs → z ≢ n
Adjacent-next p n a z [] e m = absurd e
Adjacent-next p n a z (b ∷ bs) (inl e) m = λ h. m.0 (h ∙ e.1)
Adjacent-next p n a z (b ∷ bs) (inr e) m = Adjacent-next p n b z bs e m.1

pub Adjacent-append :
    (p n z a : ℕ) (xs : List ℕ) → Adjacent p n a xs → Adjacent p n a (xs ++ z ∷ [])
Adjacent-append p n z a [] e = absurd e
Adjacent-append p n z a (b ∷ bs) (inl e) = inl e
Adjacent-append p n z a (b ∷ bs) (inr e) = inr (Adjacent-append p n z b bs e)

-- A node has one successor.
pub Adjacent-unique :
    (p n m a : ℕ) (xs : List ℕ)
    → IsDistinct (a ∷ xs)
    → Adjacent p n a xs
    → Adjacent p m a xs
    → n ≡ m
Adjacent-unique p n m a [] d e f = absurd e
Adjacent-unique p n m a (b ∷ bs) d (inl e) (inl f) = e.1 ∙ sym f.1
Adjacent-unique p n m a (b ∷ bs) d (inl e) (inr f) =
    absurd (Adjacent-mem p m b a bs f d.0 (sym e.0))
Adjacent-unique p n m a (b ∷ bs) d (inr e) (inl f) =
    absurd (Adjacent-mem p n b a bs e d.0 (sym f.0))
Adjacent-unique p n m a (b ∷ bs) d (inr e) (inr f) = Adjacent-unique p n m b bs d.1 e f

-- A chain in another state of the queue, where the links still hold
pub Chain-map :
    (next next' : ℕ → Option ℕ) (Waits Waits' : ℕ → ℕ → Type 0) (a last : ℕ) (xs : List ℕ)
    → ((x y : ℕ) → Adjacent x y a xs → Link next Waits x y → Link next' Waits' x y)
    → (next last ≡ none → next' last ≡ none)
    → Chain next Waits a xs last
    → Chain next' Waits' a xs last
Chain-map next next' Waits Waits' a last [] link end c =
    (c.0, ap next' c.0 ∙ end (ap next (sym c.0) ∙ c.1))
Chain-map next next' Waits Waits' a last (b ∷ bs) link end c = (
  link a b (inl (refl, refl)) c.0,
  Chain-map next next' Waits Waits' b last bs (λ x y h l. link x y (inr h) l) end c.1,
)

pub Chain-last :
    (next : ℕ → Option ℕ) (Waits : ℕ → ℕ → Type 0) (a last : ℕ) (xs : List ℕ)
    → Chain next Waits a xs last
    → next last ≡ none
Chain-last next Waits a last [] c = ap next (sym c.0) ∙ c.1
Chain-last next Waits a last (b ∷ bs) c = Chain-last next Waits b last bs c.1

-- A node that is not in a chain is not its last one.
Chain-away :
    (next : ℕ → Option ℕ) (Waits : ℕ → ℕ → Type 0) (z b last : ℕ) (bs : List ℕ)
    → Chain next Waits b bs last
    → Missing z (b ∷ bs)
    → z ≢ last
Chain-away next Waits z b last [] c m = λ e. m.0 (e ∙ sym c.0)
Chain-away next Waits z b last (x ∷ xs) c m = Chain-away next Waits z x last xs c.1 m.1

-- A chain of which the first node is the last one
pub Chain-single :
    (next : ℕ → Option ℕ) (Waits : ℕ → ℕ → Type 0) (a last : ℕ) (xs : List ℕ)
    → Chain next Waits a xs last
    → IsDistinct (a ∷ xs)
    → last ≡ a
    → xs ≡ []
Chain-single next Waits a last [] c d e = refl
Chain-single next Waits a last (b ∷ bs) c d e =
    absurd (Chain-away next Waits a b last bs c.1 d.0 (sym e))

-- A new node behind the last one
pub Chain-swap :
    (next : ℕ → Option ℕ) (Waits : ℕ → ℕ → Type 0) (a last n : ℕ) (xs : List ℕ)
    → Chain next Waits a xs last
    → Waits last n
    → next n ≡ none
    → Chain next Waits a (xs ++ n ∷ []) n
Chain-swap next Waits a last n [] c w e = (inr (c.1, subst (λ x. Waits x n) (sym c.0) w), (refl, e))
Chain-swap next Waits a last n (b ∷ bs) c w e = (c.0, Chain-swap next Waits b last n bs c.1 w e)

pub Adjacent-swap :
    (next : ℕ → Option ℕ) (Waits : ℕ → ℕ → Type 0) (a last n : ℕ) (xs : List ℕ)
    → Chain next Waits a xs last
    → Adjacent last n a (xs ++ n ∷ [])
Adjacent-swap next Waits a last n [] c = inl (sym c.0, refl)
Adjacent-swap next Waits a last n (b ∷ bs) c = inr (Adjacent-swap next Waits b last n bs c.1)

-- The last node has no successor.
pub Adjacent-last :
    (next : ℕ → Option ℕ) (Waits : ℕ → ℕ → Type 0) (p n a last : ℕ) (xs : List ℕ)
    → Chain next Waits a xs last
    → IsDistinct (a ∷ xs)
    → Adjacent p n a xs
    → last ≢ p
Adjacent-last next Waits p n a last [] c d e = absurd e
Adjacent-last next Waits p n a last (b ∷ bs) c d (inl e) =
    λ h. Chain-away next Waits a b last bs c.1 d.0 (sym e.0 ∙ sym h)
Adjacent-last next Waits p n a last (b ∷ bs) c d (inr e) =
    Adjacent-last next Waits p n b last bs c.1 d.1 e
