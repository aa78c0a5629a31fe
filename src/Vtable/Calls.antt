-- ===== src/Vtable/Calls.antt =====
-- The calls through tables, against the accesses where every type is known.
use mathlib.Core.Path.{subst, fun_ext}
use reblessive.Base.{
  refl, sym, ap, ◌∙◌, ℕ, ◌≡◌, inl, inr, Bool, true, false, Option, none, some, Option-cases, arith,
  Outcome, ok, panicked, undefined, out_of_fuel, Cmd, and_then, ◌>>=◌, ◌==◌, if◌then◌else◌,
}
use reblessive.Vtable.Memory.{
  within, map_some, Typed, Block, cast-own, Ideal, Memory, put, write_back, access, ideal_access,
  forget, Fits, IsTyped, call, Keeps,
}

-- The end of a call that returns
abbrev pub Lands : {S A : Type 0} → (S → Type 0) → Outcome S A → Type 0
Lands P (ok r s) = P s
Lands P (panicked p) = Unit
Lands P undefined = Unit
Lands P out_of_fuel = Unit

module _ (Future : ℕ → Type 0) where
  module _ {T : Type 0} where
    forget-put :
        (a : ℕ) (o : Option (Block Future T)) (m : Memory Future T)
        → forget Future (put a o m) ≡ put a (map_some (λ b. b.typed) o) (forget Future m)
    forget-put a o m = fun_ext (λ x. at x (x == a))
      where
        at :
            (x : ℕ) (b : Bool)
            → map_some (λ b. b.typed) (if b then o else m x)
              ≡ (if b then map_some (λ b. b.typed) o else forget Future m x)
        at x true = refl
        at x false = refl

    -- A block that is new, or of which the table stays
    pub put-IsTyped :
        (get : ℕ → T) (a : ℕ) (o : Option (Block Future T)) (m : Memory Future T)
        → Fits Future get o
        → IsTyped Future get m
        → IsTyped Future get (put a o m)
    put-IsTyped get a o m fit typed x = at (x == a)
      where
        at : (b : Bool) → Fits Future get (if b then o else m x)
        at true = fit
        at false = typed x

    pub put-forget :
        (a : ℕ) (b : Block Future T) (m : Memory Future T)
        → forget Future (put a (some b) m) ≡ put a (some b.typed) (forget Future m)
    put-forget a b m = forget-put a (some b) m

    Fits-at :
        (get : ℕ → T) (m : Memory Future T) (a : ℕ) (b : Block Future T)
        → IsTyped Future get m
        → m a ≡ some b
        → Fits Future get (some b)
    Fits-at get m a b typed here = subst (Fits Future get) here (typed a)

    -- In the table of a type, the entry is a function that does `g` behind a cast to this type.
    module _ {A : Type 0} (get : ℕ → T) (entry : T → ℕ → Cmd (Memory Future T) A)
        (g : Typed Future → Outcome (Option (Typed Future)) A)
        (made : (k a : ℕ) (m : Memory Future T) → entry (get k) a m ≡ access Future k a g m) where
      forget-write_back :
          (a : ℕ) (b : Block Future T) (m : Memory Future T) (r : Outcome (Option (Typed Future)) A)
          → within (forget Future) (write_back Future a b m r)
            ≡ within (λ o. put a o (forget Future m)) r
      forget-write_back a b m (ok r none) = ap (ok r) (forget-put a none m)
      forget-write_back a b m (ok r (some t)) =
          ap (ok r) (forget-put a (some (record b { typed = t })) m)
      forget-write_back a b m (panicked p) = refl
      forget-write_back a b m undefined = refl
      forget-write_back a b m out_of_fuel = refl

      write_back-IsTyped :
          (a : ℕ) (b : Block Future T) (m : Memory Future T) (r : Outcome (Option (Typed Future)) A)
          → ((t : Typed Future) (x : A) → r ≡ ok x (some t) → t.kind ≡ b.typed.kind)
          → Fits Future get (some b)
          → IsTyped Future get m
          → Lands (IsTyped Future get) (write_back Future a b m r)
      write_back-IsTyped a b m (ok x none) keeps fit typed = put-IsTyped get a none m tt typed
      write_back-IsTyped a b m (ok x (some t)) keeps fit typed =
          put-IsTyped get a (some (record b { typed = t })) m (fit ∙ ap get (sym (keeps t x refl)))
            typed
      write_back-IsTyped a b m (panicked p) keeps fit typed = tt
      write_back-IsTyped a b m undefined keeps fit typed = tt
      write_back-IsTyped a b m out_of_fuel keeps fit typed = tt

      access-own :
          (a : ℕ) (m : Memory Future T) (b : Block Future T)
          → m a ≡ some b
          → access Future b.typed.kind a g m ≡ write_back Future a b m (g b.typed)
      unfolding access
      access-own a m b here =
          let own = cast-own Future b.typed.kind b.typed refl in ground (arith, here, own)

      -- A call through the right table gets to the future that was written.
      call-own :
          (a : ℕ) (m : Memory Future T) (b : Block Future T)
          → m a ≡ some b
          → Fits Future get (some b)
          → call Future entry a m ≡ write_back Future a b m (g b.typed)
      unfolding call
      call-own a m b here fit =
          let found : call Future entry a m ≡ entry b.table a m = ground (arith, here) in
          found ∙ ap (λ t. entry t a m) fit ∙ made b.typed.kind a m ∙ access-own a m b here

      call-missing : (a : ℕ) (m : Memory Future T) → m a ≡ none → call Future entry a m ≡ undefined
      unfolding call
      call-missing a m here = ground (arith, here)

      pub call-ideal_access :
          (a : ℕ) (m : Memory Future T)
          → IsTyped Future get m
          → within (forget Future) (call Future entry a m)
            ≡ ideal_access Future a g (forget Future m)
      unfolding ideal_access
      call-ideal_access a m typed = elim (Option-cases (m a)) [
        | inl here ↦ ap (within (forget Future)) (call-missing a m here) ∙ ground (arith, here)
        | inr (b, here) ↦
            ap (within (forget Future)) (call-own a m b here (Fits-at get m a b typed here))
            ∙ forget-write_back a b m (g b.typed)
            ∙ ground (arith, here)
      ]

      pub call-IsTyped :
          (a : ℕ) (m : Memory Future T)
          → Keeps Future g
          → IsTyped Future get m
          → Lands (IsTyped Future get) (call Future entry a m)
      call-IsTyped a m keeps typed = elim (Option-cases (m a)) [
        | inl here ↦ subst (Lands (IsTyped Future get)) (sym (call-missing a m here)) tt
        | inr (b, here) ↦
            let fit = Fits-at get m a b typed here in
            subst (Lands (IsTyped Future get)) (sym (call-own a m b here fit))
              (write_back-IsTyped a b m (g b.typed) (λ t x e. keeps b.typed t x e) fit typed)
      ]

  -- A command on the memory does what the other one does where every type is known, and leaves
  -- tables of the right types.
  abbrev pub Agrees :
      {T A : Type 0} → (ℕ → T) → Cmd (Memory Future T) A → Cmd (Ideal Future) A → Type 0
  Agrees {T} get c i =
      (m : Memory Future T)
      → IsTyped Future get m
      → (within (forget Future) (c m) ≡ i (forget Future m)) × Lands (IsTyped Future get) (c m)

  module _ {T : Type 0} (get : ℕ → T) where
    pub pure-Agrees : {A : Type 0} (a : A) → Agrees get (λ m. ok a m) (λ i. ok a i)
    pure-Agrees a m typed = (refl, typed)

    pub put-Agrees :
        {A : Type 0} (r : A) (a k : ℕ) (t : Typed Future)
        → t.kind ≡ k
        → Agrees get
            (λ m. ok r (put a (some (record { table = get k; typed = t })) m))
            (λ i. ok r (put a (some t) i))
    put-Agrees r a k t same m typed = (
      ap (ok r) (put-forget a (record { table = get k; typed = t }) m),
      put-IsTyped get a (some (record { table = get k; typed = t })) m (ap get (sym same)) typed,
    )

    pub bind-Agrees :
        {A B : Type 0} (c : Cmd (Memory Future T) A) (i : Cmd (Ideal Future) A)
        (k : A → Cmd (Memory Future T) B) (l : A → Cmd (Ideal Future) B)
        → Agrees get c i
        → ((a : A) → Agrees get (k a) (l a))
        → Agrees get (c >>= k) (i >>= l)
    bind-Agrees {A = A} c i k l first later m typed =
        let (same, lands) = first m typed in
        let (same', lands') = follow (c m) lands in (same' ∙ ap (λ r. and_then r l) same, lands')
      where
        follow :
            (r : Outcome (Memory Future T) A)
            → Lands (IsTyped Future get) r
            → (within (forget Future) (and_then r k) ≡ and_then (within (forget Future) r) l)
              × Lands (IsTyped Future get) (and_then r k)
        follow (ok a s) w = later a s w
        follow (panicked p) w = (refl, tt)
        follow undefined w = (refl, tt)
        follow out_of_fuel w = (refl, tt)

    pub free-Agrees :
        {A : Type 0} (r : A) (a : ℕ)
        → Agrees get (λ m. ok r (put a none m)) (λ i. ok r (put a none i))
    free-Agrees r a m typed = (ap (ok r) (forget-put a none m), put-IsTyped get a none m tt typed)

    -- A call through a table with the right functions
    pub call-Agrees :
        {A : Type 0} (entry : T → ℕ → Cmd (Memory Future T) A) (a : ℕ)
        (g : Typed Future → Outcome (Option (Typed Future)) A)
        → ((k a : ℕ) (m : Memory Future T) → entry (get k) a m ≡ access Future k a g m)
        → Keeps Future g
        → Agrees get (call Future entry a) (ideal_access Future a g)
    call-Agrees entry a g made keeps m typed = (
      call-ideal_access get entry g made a m typed,
      call-IsTyped get entry g made a m keeps typed,
    )
