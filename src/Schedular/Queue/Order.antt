-- ===== src/Schedular/Queue/Order.antt =====
-- The queue as a list of nodes.
use reblessive.Base.{
  refl, sym, ◌∙◌, ℕ, ◌≡◌, ◌≢◌, ◌⊎◌, inl, inr, Option, none, some, List, [], ◌∷◌, ◌++◌, arith,
}
use reblessive.Schedular.Queue.Links.{
  stub, Queue, empty, value, set_next, swap_head, link, push, pop_linked, pop_last, pop_node,
  pop_stub, pop, Pop,
}

-- The node is none of those in the list.
abbrev pub Missing : ℕ → List ℕ → Type 0
Missing n [] = Unit
Missing n (x ∷ xs) = (n ≢ x) × Missing n xs

abbrev pub IsDistinct : List ℕ → Type 0
IsDistinct [] = Unit
IsDistinct (x ∷ xs) = Missing x xs × IsDistinct xs

-- The fields `next` lead from a node through the others, to the last one.
abbrev pub Leads : (ℕ → Option ℕ) → ℕ → List ℕ → ℕ → Type 0
Leads next a [] last = (a ≡ last) × (next a ≡ none)
Leads next a (x ∷ xs) last = (next a ≡ some x) × Leads next x xs last

abbrev pub IsFrom : Queue → ℕ → List ℕ → Type 0
IsFrom q a xs = Leads q.next a xs q.head × IsDistinct (a ∷ xs)

abbrev pub IsFirst : Queue → List ℕ → Type 0
IsFirst q [] = ⊥
IsFirst q (x ∷ xs) = (q.tail ≡ x) × Missing stub (x ∷ xs) × IsFrom q x xs

-- The queue holds the nodes, behind the stub or without it, and no push is in flight.
abbrev pub Holds : Queue → List ℕ → Type 0
Holds q xs = ((q.tail ≡ stub) × IsFrom q stub xs) ⊎ IsFirst q xs

Leads-ne :
    (next : ℕ → Option ℕ) (z a last : ℕ) (xs : List ℕ)
    → Leads next a xs last
    → Missing z (a ∷ xs)
    → z ≢ last
Leads-ne next z a last [] l m = λ e. m.0 (e ∙ sym l.0)
Leads-ne next z a last (x ∷ xs) l m = Leads-ne next z x last xs l.1 m.1

pub Missing-append : (z n : ℕ) (xs : List ℕ) → Missing z xs → z ≢ n → Missing z (xs ++ n ∷ [])
Missing-append z n [] m e = (e, tt)
Missing-append z n (x ∷ xs) m e = (m.0, Missing-append z n xs m.1 e)

pub IsDistinct-append :
    (n : ℕ) (xs : List ℕ) → IsDistinct xs → Missing n xs → IsDistinct (xs ++ n ∷ [])
IsDistinct-append n [] d m = (tt, tt)
IsDistinct-append n (x ∷ xs) d m =
    (Missing-append x n xs d.0 (λ e. m.0 (sym e)), IsDistinct-append n xs d.1 m.1)

-- The stores of a push
abbrev linked : (ℕ → Option ℕ) → ℕ → ℕ → ℕ → Option ℕ
linked next last n = set_next last (some n) (set_next n none next)

linked-same :
    (next : ℕ → Option ℕ) (last n a : ℕ) → a ≢ last → a ≢ n → linked next last n a ≡ next a
unfolding set_next
linked-same next last n a p q = ground arith

linked-last : (next : ℕ → Option ℕ) (last n a : ℕ) → a ≡ last → linked next last n a ≡ some n
unfolding set_next
linked-last next last n a p = ground arith

linked-new : (next : ℕ → Option ℕ) (last n : ℕ) → n ≢ last → linked next last n n ≡ none
unfolding set_next
linked-new next last n p = ground arith

Leads-linked :
    (next : ℕ → Option ℕ) (a last n : ℕ) (xs : List ℕ)
    → Leads next a xs last
    → IsDistinct (a ∷ xs)
    → Missing n (a ∷ xs)
    → Leads (linked next last n) a (xs ++ n ∷ []) n
Leads-linked next a last n [] l d m =
    (linked-last next last n a l.0, (refl, linked-new next last n (λ e. m.0 (e ∙ sym l.0))))
Leads-linked next a last n (x ∷ xs) l d m = (
  linked-same next last n a (Leads-ne next a x last xs l.1 d.0) (λ e. m.0 (sym e)) ∙ l.0,
  Leads-linked next x last n xs l.1 d.1 m.1,
)

push-IsFrom :
    (q : Queue) (a n : ℕ) (xs : List ℕ)
    → IsFrom q a xs
    → Missing n (a ∷ xs)
    → IsFrom (push n q) a (xs ++ n ∷ [])
unfolding push swap_head link
push-IsFrom q a n xs (l, d) m =
    (Leads-linked q.next a q.head n xs l d m, IsDistinct-append n (a ∷ xs) d m)

-- A node that is not in the queue is put at its end.
pub push-Holds :
    (q : Queue) (n : ℕ) (xs : List ℕ)
    → Holds q xs
    → Missing n (stub ∷ xs)
    → Holds (push n q) (xs ++ n ∷ [])
unfolding push swap_head link
push-Holds q n xs (inl (e, f)) m = inl (e, push-IsFrom q stub n xs f m)
push-Holds q n [] (inr f) m = absurd f
push-Holds q n (x ∷ xs) (inr (e, away, f)) m =
    inr (e, Missing-append stub n (x ∷ xs) away (λ z. m.0 (sym z)), push-IsFrom q x n xs f m.1)

-- A pop that takes the node behind it
abbrev Takes : (Pop × Queue) → ℕ → List ℕ → Type 0
Takes r x xs = (after : Queue) × (r ≡ (value x, after)) × Holds after xs

pop_last-Takes :
    (q : Queue) (x : ℕ) → Missing stub (x ∷ []) → IsFrom q x [] → Takes (pop_last x q) x []
unfolding pop_last pop_linked push swap_head link
pop_last-Takes q x away f =
    let moved = push-IsFrom q x stub [] f (away.0, tt) in
    (
      record (push stub q) { tail = stub },
      ground (arith, f.0.0, moved.0.0),
      inl (refl, (moved.0.1, moved.1.1)),
    )

pop_node-Takes :
    (q : Queue) (x : ℕ) (xs : List ℕ)
    → Missing stub (x ∷ xs)
    → IsFrom q x xs
    → Takes (pop_node x q) x xs
unfolding pop_node
pop_node-Takes q x [] away f =
    let (after, runs, holds) = pop_last-Takes q x away f in
    (after, ground (arith, f.0.1, runs), holds)
pop_node-Takes q x (y ∷ ys) away f =
    (record q { tail = y }, ground (arith, f.0.0), inr (refl, away.1, (f.0.1, f.1.1)))

pop-first : (q : Queue) (x : ℕ) (xs : List ℕ) → Holds q (x ∷ xs) → Takes (pop q) x xs
unfolding pop pop_stub
pop-first q x xs (inl (e, f)) =
    let (after, runs, holds) = pop_node-Takes (record q { tail = x }) x xs f.1.0 (f.0.1, f.1.1) in
    (after, ground (arith, e, f.0.0, runs), holds)
pop-first q x xs (inr (e, away, f)) =
    let (after, runs, holds) = pop_node-Takes q x xs away f in
    let other : q.tail ≢ stub = λ z. away.0 (sym z ∙ e) in
    (after, ground (arith, e, other, runs), holds)

pop-empty : (q : Queue) → Holds q [] → pop q ≡ (empty, q)
unfolding pop pop_stub
pop-empty q (inl (e, f)) = ground (arith, e, f.0.1)
pop-empty q (inr f) = absurd f

-- What a pop of a queue with these nodes does
abbrev pub IsPopped : Queue → List ℕ → Type 0
IsPopped q [] = pop q ≡ (empty, q)
IsPopped q (x ∷ xs) = (after : Queue) × (pop q ≡ (value x, after)) × Holds after xs

-- A pop with no push in flight takes the first node and keeps the others in order, and reports an
-- empty queue exactly if there is none.
pub pop-Holds : (q : Queue) (xs : List ℕ) → Holds q xs → IsPopped q xs
pop-Holds q [] h = pop-empty q h
pop-Holds q (x ∷ xs) h = pop-first q x xs h
