-- ===== src/Schedular/Threads/Takes.antt =====
-- src/tree/schedular/queue.rs: the accesses of `Queue::pop`.
use mathlib.Core.Path.{subst}
use mathlib.Core.List.{append_assoc}
use native.Mathlib.Decide.{ℕ_discrete}
use reblessive.Base.{
  refl, sym, ap, ◌∙◌, ℕ, ◌≡◌, ◌≢◌, inl, inr, Option, some, Option-cases, List, [], ◌∷◌, ◌++◌, arith,
}
use reblessive.Schedular.Queue.{stub}
use reblessive.Schedular.Threads.{
  Push, idle, clear, swap, attach, Take, read_next, read_head, read_last, System, set_push,
  after_taken, IsOf, take_step, take_stub, take_node, after_take,
}
use reblessive.Schedular.Threads.Chain.{Chain, real, Chain-single}
use reblessive.Schedular.Threads.Invariant.{Waits, Knows, IsInv, Stands, push-IsInv}

real-∷ : (x : ℕ) (xs : List ℕ) → x ≢ stub → real (x ∷ xs) ≡ x ∷ real xs
real-∷ x xs e = ground (arith, e)

real-stub : (xs : List ℕ) → real (stub ∷ xs) ≡ real xs
real-stub xs = ground arith

-- A node that leads to another one is not the last one.
next-Chain :
    (next : ℕ → Option ℕ) (W : ℕ → ℕ → Type 0) (a n last : ℕ) (xs : List ℕ)
    → Chain next W a xs last
    → next a ≡ some n
    → (bs : List ℕ) × (xs ≡ n ∷ bs)
next-Chain next W a n last [] c e = absurd (ground (arith, c.1, e))
next-Chain next W a n last (b ∷ bs) (inl l, c) e = (bs, ap (λ x. x ∷ bs) (ground (arith, l, e)))
next-Chain next W a n last (b ∷ bs) (inr l, c) e = absurd (ground (arith, l.0, e))

module _ (s : System) where
  -- The state when the tail went on to the node `b`
  abbrev on_to : ℕ → Take → List ℕ → System
  on_to b t out = record s { queue = record s.queue { tail = b }; take = t; popped = out }

  on-Knows :
      (a b i : ℕ) (bs : List ℕ) (p : Push)
      → s.queue.next a ≡ some b
      → Knows s.queue.next a (b ∷ bs) i p
      → Knows s.queue.next b bs i p
  on-Knows a b i bs idle e k = tt
  on-Knows a b i bs (clear n) e k = (k.0, k.1.1)
  on-Knows a b i bs (swap n) e k = (k.0, k.1.1, k.2)
  on-Knows a b i bs (attach p n) e (own, inl h, none_at) =
      absurd (ground (arith, ap s.queue.next h.0, none_at, e))
  on-Knows a b i bs (attach p n) e (own, inr h, none_at) = (own, h, none_at)

  on_to-IsInv :
      (a b : ℕ) (bs : List ℕ) (t : Take) (out : List ℕ)
      → IsInv s a (b ∷ bs)
      → s.queue.next a ≡ some b
      → Stands b (s.push 0) t
      → out ++ real (b ∷ bs) ≡ s.pushed
      → IsInv (on_to b t out) b bs
  on_to-IsInv a b bs t out v e stands order = record {
    tail = refl;
    chain = v.chain.1;
    distinct = v.distinct.1;
    knows = λ i. on-Knows a b i bs (s.push i) e (v.knows i);
    apart = v.apart;
    stands = stands;
    order = order;
  }

  -- The state when only the place in `pop` changes
  stay-IsInv :
      (a : ℕ) (xs : List ℕ) (t : Take)
      → IsInv s a xs
      → Stands a (s.push 0) t
      → IsInv (record s { take = t; popped = s.popped ++ [] }) a xs
  stay-IsInv a xs t v h = record {
    tail = v.tail;
    chain = v.chain;
    distinct = v.distinct;
    knows = v.knows;
    apart = v.apart;
    stands = h;
    order = append_assoc s.popped [] (real (a ∷ xs)) ∙ v.order;
  }

  -- What is known of the queue, wherever it begins
  abbrev pub Inv : System → Type 0
  Inv t = (a : ℕ) × (xs : List ℕ) × IsInv t a xs

  -- The node `a` is taken, which leads to another one.
  value-Inv :
      (a n : ℕ) (xs : List ℕ)
      → IsInv s a xs
      → a ≢ stub
      → s.push 0 ≡ idle
      → s.queue.next a ≡ some n
      → Inv (on_to n idle (s.popped ++ a ∷ []))
  value-Inv a n xs v away rest e =
      let (bs, shape) = next-Chain s.queue.next (Waits s.push) a n s.queue.head xs v.chain e in
      let w = subst (IsInv s a) shape v in
      (
        n,
        bs,
        on_to-IsInv a n bs idle (s.popped ++ a ∷ []) w e rest (
            append_assoc s.popped (a ∷ []) (real (n ∷ bs))
            ∙ ap (λ r. s.popped ++ r) (sym (real-∷ a (n ∷ bs) away))
            ∙ w.order),
      )

  -- The stub is passed, which leads to another node.
  skip-Inv :
      (a n : ℕ) (xs : List ℕ)
      → IsInv s a xs
      → a ≡ stub
      → s.push 0 ≡ idle
      → s.queue.next a ≡ some n
      → Inv (on_to n (read_next n) (s.popped ++ []))
  skip-Inv a n xs v at rest e =
      let (bs, shape) = next-Chain s.queue.next (Waits s.push) a n s.queue.head xs v.chain e in
      let w = subst (IsInv s a) shape v in
      (
        n,
        bs,
        on_to-IsInv a n bs (read_next n) (s.popped ++ []) w e
            (refl, (λ h. w.distinct.0.0 (at ∙ sym h)), rest)
            (append_assoc s.popped [] (real (n ∷ bs))
              ∙ ap (λ r. s.popped ++ r) (sym (ap (λ x. real (x ∷ n ∷ bs)) at ∙ real-stub (n ∷ bs)))
              ∙ w.order),
      )

  -- The stub is to be pushed behind the only node.
  last-Inv :
      (a : ℕ) (xs : List ℕ)
      → IsInv s a xs
      → a ≢ stub
      → s.push 0 ≡ idle
      → s.queue.head ≡ a
      → Inv (record s {
        push = set_push 0 (clear stub) s.push;
        take = read_last a;
        popped = s.popped ++ [];
      })
  last-Inv a xs v away rest at =
      let alone =
        Chain-single s.queue.next (Waits s.push) a s.queue.head xs v.chain v.distinct at in
      let w = subst (IsInv s a) alone v in
      let waiting : IsInv (record s { take = read_last a; popped = s.popped ++ [] }) a [] =
        stay-IsInv a [] (read_last a) w (refl, away) in
      (
        a,
        [],
        push-IsInv (record s { take = read_last a; popped = s.popped ++ [] }) a [] [] 0 (clear stub)
            s.queue s.pushed waiting refl waiting.chain waiting.distinct
            (((λ _. refl), (λ ne. absurd (ne refl))), ((λ e. away (sym e)), tt)) (λ j e k. k)
            (λ j n e h g. foreign j e (s.push j) (v.knows j) (subst (IsOf (s.push j)) (sym h) g))
            (refl, away) waiting.order,
      )
    where
      foreign : (j : ℕ) → j ≢ 0 → (p : Push) → Knows s.queue.next a xs j p → IsOf p stub → ⊥
      foreign j e idle k g = g
      foreign j e (clear m) k g = k.0.1 e g
      foreign j e (swap m) k g = k.0.1 e g
      foreign j e (attach q m) k g = k.0.1 e g

  node-Inv :
      (t a : ℕ) (xs : List ℕ)
      → IsInv s a xs
      → t ≡ a
      → t ≢ stub
      → s.push 0 ≡ idle
      → Inv (after_taken (take_node t s.queue) s)
  unfolding take_node
  node-Inv t a xs v at away rest = elim (Option-cases (s.queue.next t)) [
    | inl shut ↦
        let same : after_taken (take_node t s.queue) s
            ≡ record s { take = read_head t; popped = s.popped ++ [] } =
          ground (arith, shut) in
        subst Inv (sym same) (a, xs, stay-IsInv a xs (read_head t) v (at, away, rest))
    | inr (n, leads) ↦
        let same : after_taken (take_node t s.queue) s ≡ on_to n idle (s.popped ++ t ∷ []) =
          ground (arith, leads) in
        let w = subst (λ x. IsInv s x xs) (sym at) v in
        subst Inv (sym same) (value-Inv t n xs w away rest leads)
  ]

  stub-Inv :
      (a : ℕ) (xs : List ℕ)
      → IsInv s a xs
      → a ≡ stub
      → s.push 0 ≡ idle
      → Inv (after_taken (take_stub s.queue) s)
  unfolding take_stub
  stub-Inv a xs v at rest = elim (Option-cases (s.queue.next stub)) [
    | inl shut ↦
        let same : after_taken (take_stub s.queue) s
            ≡ record s { take = idle; popped = s.popped ++ [] } =
          ground (arith, shut) in
        subst Inv (sym same) (a, xs, stay-IsInv a xs idle v rest)
    | inr (n, leads) ↦
        let same : after_taken (take_stub s.queue) s ≡ on_to n (read_next n) (s.popped ++ []) =
          ground (arith, leads) in
        subst Inv (sym same) (skip-Inv a n xs v at rest (ap s.queue.next at ∙ leads))
  ]

  pub take-Inv :
      (t : Take) (a : ℕ) (xs : List ℕ)
      → IsInv s a xs
      → Stands a (s.push 0) t
      → s.push 0 ≡ idle
      → Inv (after_take t s)
  unfolding take_step
  take-Inv idle a xs v h rest = elim (ℕ_discrete s.queue.tail stub) [
    | yes e ↦
        let same : take_step idle s.queue ≡ take_stub s.queue = ground (arith, e) in
        subst (λ r. Inv (after_taken r s)) (sym same) (stub-Inv a xs v (sym v.tail ∙ e) rest)
    | no ne ↦
        let same : take_step idle s.queue ≡ take_node s.queue.tail s.queue = ground (arith, ne) in
        subst (λ r. Inv (after_taken r s)) (sym same) (node-Inv s.queue.tail a xs v v.tail ne rest)
  ]
  take-Inv (read_next t) a xs v h rest = node-Inv t a xs v h.0 h.1 rest
  take-Inv (read_head t) a xs v h rest = elim (ℕ_discrete s.queue.head t) [
    | yes e ↦
        let same : after_take (read_head t) s ≡ record s {
          push = set_push 0 (clear stub) s.push;
          take = read_last t;
          popped = s.popped ++ [];
        } =
          ground (arith, e) in
        let w = subst (λ x. IsInv s x xs) (sym h.0) v in
        subst Inv (sym same) (last-Inv t xs w h.1 rest e)
    | no ne ↦
        let same : after_take (read_head t) s ≡ record s { take = idle; popped = s.popped ++ [] } =
          ground (arith, ne) in
        subst Inv (sym same) (a, xs, stay-IsInv a xs idle v rest)
  ]
  take-Inv (read_last t) a xs v h rest = elim (Option-cases (s.queue.next t)) [
    | inl shut ↦
        let same : after_take (read_last t) s ≡ record s { take = idle; popped = s.popped ++ [] } =
          ground (arith, shut) in
        subst Inv (sym same) (a, xs, stay-IsInv a xs idle v rest)
    | inr (n, leads) ↦
        let same : after_take (read_last t) s ≡ on_to n idle (s.popped ++ t ∷ []) =
          ground (arith, leads) in
        let w = subst (λ x. IsInv s x xs) (sym h.0) v in
        subst Inv (sym same) (value-Inv t n xs w h.1 rest leads)
  ]
