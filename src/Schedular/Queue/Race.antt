-- ===== src/Schedular/Queue/Race.antt =====
-- A push that comes in between while a queue of one node is popped.
use reblessive.Base.{refl, sym, ◌∙◌, ℕ, ◌≡◌, ◌≢◌, none, [], ◌∷◌, arith}
use reblessive.Schedular.Queue.Links.{
  stub, Queue, empty, set_next, swap_head, link, push, pop, pop_node, pop_last, pop_linked,
}
use reblessive.Schedular.Queue.Order.{Missing, IsFirst, IsFrom}

module _ (q : Queue) (x n : ℕ) (first : IsFirst q (x ∷ []))
    (fresh : Missing n (stub ∷ x ∷ [])) where
  -- The queue when the head was swapped before the push of the stub
  abbrev raced : Queue
  raced = push stub (swap_head n q)

  pop-linked : pop q ≡ pop_linked x (push stub q)
  unfolding pop pop_node pop_last
  pop-linked =
      let other : q.tail ≢ stub = λ z. first.1.0 (sym z ∙ first.0) in
      ground (arith, first.0, other, first.2.0.0, first.2.0.1)

  raced-next : raced.next x ≡ none
  unfolding push swap_head link set_next
  raced-next =
      let away : stub ≢ x = first.1.0 in
      let new : n ≢ x = fresh.1.0 in ground (arith, first.2.0.1, away, new)

  raced-IsFrom : IsFrom (link x n raced) x (n ∷ stub ∷ [])
  unfolding push swap_head link set_next
  raced-IsFrom =
      let away : stub ≢ x = first.1.0 in
      let new : n ≢ x = fresh.1.0 in
      let real : n ≢ stub = fresh.0 in
      (
        (ground arith, (ground arith, (refl, ground arith))),
        ((λ e. new (sym e), (λ e. away (sym e), tt)), ((real, tt), (tt, tt))),
      )

  -- A pop of a queue of one node pushes the stub and reads the field `next` again. If another push
  -- has swapped the head in between, the pop reports an empty queue, although the node and the new
  -- one are both in it when that push is finished.
  pub pop_linked-race :
      (pop q ≡ pop_linked x (push stub q))
      × (pop_linked x raced ≡ (empty, raced))
      × (raced.tail ≡ x)
      × IsFrom (link x n raced) x (n ∷ stub ∷ [])
  unfolding pop_linked push swap_head link
  pop_linked-race =
      let shut = raced-next in (pop-linked, ground (arith, shut), first.0, raced-IsFrom)
