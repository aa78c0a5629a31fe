-- ===== src/Schedular/Threads/Steps.antt =====
-- src/tree/schedular/queue.rs: the accesses of `Queue::push`, and the calls of it.
use mathlib.Core.Path.{subst}
use mathlib.Core.List.{append_assoc, append-nil, append_cancel_left}
use native.Mathlib.Decide.{ℕ_discrete}
use reblessive.Base.{
  refl, sym, ap, ◌∙◌, ℕ, ◌≡◌, ◌≢◌, inl, inr, Option, none, some, List, [], ◌∷◌, ◌++◌, arith,
}
use reblessive.Schedular.Queue.{Missing, set_next, link, Missing-append, IsDistinct-append}
use reblessive.Schedular.Threads.{
  Push, idle, clear, swap, attach, System, set_push, IsOf, IsAttach, IsOutside, push_step,
  after_push, swapped,
}
use reblessive.Schedular.Threads.Chain.{
  Link, Chain, Adjacent, real, real-append, real-Missing, Adjacent-mem, Adjacent-append,
  Adjacent-unique, Chain-map, Chain-last, Chain-swap, Adjacent-swap, Adjacent-last,
}
use reblessive.Schedular.Threads.Invariant.{
  Waits, Knows, IsInv, set_push_self, Waits-other, push-IsInv, Stands, Stands-push,
}

set_next-none : (n x : ℕ) (next : ℕ → Option ℕ) → next x ≡ none → set_next n none next x ≡ none
unfolding set_next
set_next-none n x next e = ground (arith, e)

set_next_other :
    (n x : ℕ) (o : Option ℕ) (next : ℕ → Option ℕ) → x ≢ n → set_next n o next x ≡ next x
unfolding set_next
set_next_other n x o next e = ground (arith, e)

set_next_self : (n : ℕ) (o : Option ℕ) (next : ℕ → Option ℕ) → set_next n o next n ≡ o
unfolding set_next
set_next_self n o next = ground arith

module _ (s : System) (a : ℕ) (xs : List ℕ) (v : IsInv s a xs) where
  -- A link, where thread `i` is not the one that will set it
  Link-other :
      (next' : ℕ → Option ℕ) (i x y : ℕ) (p : Push)
      → next' x ≡ s.queue.next x
      → (IsAttach (s.push i) x y → ⊥)
      → Link s.queue.next (Waits s.push) x y
      → Link next' (Waits (set_push i p s.push)) x y
  Link-other next' i x y p same away (inl e) = inl (same ∙ e)
  Link-other next' i x y p same away (inr (e, w)) =
      inr (same ∙ e, Waits-other i x y p s.push away w)

  -- No other thread pushes the node of this one.
  others-apart :
      (i : ℕ) (p : Push) → s.push i ≡ p → (j n : ℕ) → j ≢ i → IsOf p n → IsOf (s.push j) n → ⊥
  others-apart i p e j n ne h g = ne (v.apart j i n g (subst (λ q. IsOf q n) (sym e) h))

  busy : (i : ℕ) (p : Push) → s.push i ≡ p → p ≢ idle → (i ≡ 0) → s.push 0 ≢ idle
  busy i p e ne z h = ne (sym e ∙ ap s.push z ∙ h)

  Stands-on :
      (i : ℕ) (p r : Push) → s.push i ≡ p → p ≢ idle → Stands a (set_push i r s.push 0) s.take
  Stands-on i p r at ne = Stands-push i a r s.push s.take (busy i p at ne) v.stands

  Knows-at : (i : ℕ) (p : Push) → s.push i ≡ p → Knows s.queue.next a xs i p
  Knows-at i p e = subst (Knows s.queue.next a xs i) e (v.knows i)

  -- A thread that is at another place waits for no link.
  not-attach :
      (i x y : ℕ) (p : Push) → s.push i ≡ p → (IsAttach p x y → ⊥) → IsAttach (s.push i) x y → ⊥
  not-attach i x y p e away at = away (subst (λ q. IsAttach q x y) e at)

  -- The node is prepared.
  clear-Knows :
      (n : ℕ) (j : ℕ) (p : Push)
      → Knows s.queue.next a xs j p
      → Knows (set_next n none s.queue.next) a xs j p
  clear-Knows n j idle k = tt
  clear-Knows n j (clear m) k = k
  clear-Knows n j (swap m) k = (k.0, k.1, set_next-none n m s.queue.next k.2)
  clear-Knows n j (attach p m) k = (k.0, k.1, set_next-none n p s.queue.next k.2)

  clear-links :
      (i n : ℕ) (p : Push)
      → Missing n (a ∷ xs)
      → s.push i ≡ clear n
      → Chain (set_next n none s.queue.next) (Waits (set_push i p s.push)) a xs s.queue.head
  clear-links i n p m at =
      Chain-map s.queue.next _ (Waits s.push) _ a s.queue.head xs
        (λ x y adj l.
          Link-other (set_next n none s.queue.next) i x y p
            (set_next_other n x none s.queue.next (λ h. Adjacent-mem x y a n xs adj m (sym h)))
            (not-attach i x y (clear n) at (λ h. h)) l)
        (set_next-none n s.queue.head s.queue.next) v.chain

  clear-IsInv : (i n : ℕ) → s.push i ≡ clear n → IsInv (after_push i (clear n) s) a xs
  unfolding push_step
  clear-IsInv i n at =
      let k = Knows-at i (clear n) at in
      push-IsInv s a xs xs i (swap n) _ _ v refl (clear-links i n (swap n) k.1 at) v.distinct
        (k.0, k.1, set_next_self n none s.queue.next) (λ j e h. clear-Knows n j (s.push j) h)
        (λ j m e h g. others-apart i (clear n) at j m e h g)
        (Stands-on i (clear n) (swap n) at (λ e. cc)) (v.order ∙ sym (append-nil s.pushed))

  -- The node is put behind the first one, which is to be linked to it.
  swap-Knows :
      (n j : ℕ) (p : Push)
      → ((m : ℕ) → IsOf p m → m ≢ n)
      → Knows s.queue.next a xs j p
      → Knows s.queue.next a (xs ++ n ∷ []) j p
  swap-Knows n j idle other k = tt
  swap-Knows n j (clear m) other k = (k.0, Missing-append m n (a ∷ xs) k.1 (other m refl))
  swap-Knows n j (swap m) other k = (k.0, Missing-append m n (a ∷ xs) k.1 (other m refl), k.2)
  swap-Knows n j (attach p m) other k = (k.0, Adjacent-append p m n a xs k.1, k.2)

  swap-order : (n : ℕ) → s.popped ++ real (a ∷ xs ++ n ∷ []) ≡ s.pushed ++ swapped (swap n)
  swap-order n =
      ap (λ r. s.popped ++ r) (real-append (a ∷ xs) (n ∷ []))
      ∙ sym (append_assoc s.popped (real (a ∷ xs)) (real (n ∷ [])))
      ∙ ap (λ r. r ++ real (n ∷ [])) v.order
      ∙ ap (λ r. s.pushed ++ r) (ground arith)

  swap-IsInv : (i n : ℕ) → s.push i ≡ swap n → IsInv (after_push i (swap n) s) a (xs ++ n ∷ [])
  unfolding push_step
  swap-IsInv i n at =
      let k = Knows-at i (swap n) at in
      let p : Push = attach s.queue.head n in
      let waits : Waits (set_push i p s.push) s.queue.head n =
        (i, subst (λ q. IsAttach q s.queue.head n) (sym (set_push_self i p s.push)) (refl, refl)) in
      let kept =
        Chain-map s.queue.next s.queue.next (Waits s.push) (Waits (set_push i p s.push)) a
          s.queue.head xs
          (λ x y adj l.
            Link-other s.queue.next i x y p refl (not-attach i x y (swap n) at (λ h. h)) l)
          (λ e. e) v.chain in
      push-IsInv s a xs (xs ++ n ∷ []) i p _ _ v refl
        (Chain-swap s.queue.next _ a s.queue.head n xs kept waits k.2)
        (IsDistinct-append n (a ∷ xs) v.distinct k.1)
        (
          k.0,
          Adjacent-swap s.queue.next _ a s.queue.head n xs v.chain,
          Chain-last s.queue.next _ a s.queue.head xs v.chain,
        )
        (λ j e h.
          swap-Knows n j (s.push j)
            (λ m g z. others-apart i (swap n) at j n e refl (subst (IsOf (s.push j)) z g)) h)
        (λ j m e h g. others-apart i (swap n) at j m e h g) (Stands-on i (swap n) p at (λ e. cc))
        (swap-order n)

  -- The old first node is linked.
  attach-Knows :
      (p n j : ℕ) (r : Push)
      → Adjacent p n a xs
      → (IsOf r n → ⊥)
      → Knows s.queue.next a xs j r
      → Knows (set_next p (some n) s.queue.next) a xs j r
  attach-Knows p n j idle adj other k = tt
  attach-Knows p n j (clear m) adj other k = k
  attach-Knows p n j (swap m) adj other k =
      (k.0, k.1, set_next_other p m (some n) s.queue.next (Adjacent-mem p n a m xs adj k.1) ∙ k.2)
  attach-Knows p n j (attach x m) adj other k = (
    k.0,
    k.1,
    set_next_other p x (some n) s.queue.next (λ e.
          other (Adjacent-unique p m n a xs v.distinct (subst (λ z. Adjacent z m a xs) e k.1) adj))
        ∙ k.2,
  )

  attach-links :
      (i p n : ℕ)
      → Adjacent p n a xs
      → s.push i ≡ attach p n
      → Chain (set_next p (some n) s.queue.next) (Waits (set_push i idle s.push)) a xs s.queue.head
  attach-links i p n adj at =
      Chain-map s.queue.next _ (Waits s.push) _ a s.queue.head xs
        (λ x y other l. elim (ℕ_discrete x p) [
          | yes e ↦ inl (
              ap (set_next p (some n) s.queue.next) e
              ∙ set_next_self p (some n) s.queue.next
              ∙ ap (λ z. some z)
                  (Adjacent-unique p n y a xs v.distinct adj
                    (subst (λ z. Adjacent z y a xs) e other)))
          | no ne ↦
              Link-other (set_next p (some n) s.queue.next) i x y idle
                (set_next_other p x (some n) s.queue.next ne)
                (not-attach i x y (attach p n) at (λ h. ne (sym h.0))) l
        ])
        (λ e.
          set_next_other p s.queue.head (some n) s.queue.next
            (Adjacent-last s.queue.next _ p n a s.queue.head xs v.chain v.distinct adj)
          ∙ e)
        v.chain

  attach-IsInv : (i p n : ℕ) → s.push i ≡ attach p n → IsInv (after_push i (attach p n) s) a xs
  unfolding push_step link
  attach-IsInv i p n at =
      let k = Knows-at i (attach p n) at in
      push-IsInv s a xs xs i idle _ _ v refl (attach-links i p n k.1 at) v.distinct tt
        (λ j e h.
          attach-Knows p n j (s.push j) k.1 (λ g. others-apart i (attach p n) at j n e refl g) h)
        (λ j m e h g. absurd h) (Stands-on i (attach p n) idle at (λ e. cc))
        (v.order ∙ sym (append-nil s.pushed))

  pub after_push-IsInv :
      (i : ℕ) (p : Push) → s.push i ≡ p → p ≢ idle → (ys : List ℕ) × IsInv (after_push i p s) a ys
  after_push-IsInv i idle at ne = absurd (ne refl)
  after_push-IsInv i (clear n) at ne = (xs, clear-IsInv i n at)
  after_push-IsInv i (swap n) at ne = (xs ++ n ∷ [], swap-IsInv i n at)
  after_push-IsInv i (attach p n) at ne = (xs, attach-IsInv i p n at)

  outside-Missing : (n : ℕ) → IsOutside s n → Missing n (a ∷ xs)
  outside-Missing n out = real-Missing n (a ∷ xs) out.real (
      subst (Missing n)
        (append_cancel_left s.popped out.rest (real (a ∷ xs)) (out.order ∙ sym v.order))
        out.unqueued)

  pub call-IsInv :
      (i n : ℕ)
      → i ≢ 0
      → s.push i ≡ idle
      → IsOutside s n
      → IsInv (record s { push = set_push i (clear n) s.push }) a xs
  call-IsInv i n ne at out =
      push-IsInv s a xs xs i (clear n) s.queue s.pushed v refl
        (Chain-map s.queue.next s.queue.next (Waits s.push) _ a s.queue.head xs
          (λ x y adj l.
            Link-other s.queue.next i x y (clear n) refl (not-attach i x y idle at (λ h. h)) l)
          (λ e. e) v.chain)
        v.distinct (((λ z. absurd (ne z)), (λ _. out.real)), outside-Missing n out) (λ j e h. h)
        (λ j m e h g. out.unpushed j (subst (IsOf (s.push j)) (sym h) g))
        (Stands-push i a (clear n) s.push s.take (λ z. absurd (ne z)) v.stands) v.order
