-- ===== src/Matching/BidAsk/Cancel.antt =====
-- `CancelOrder` of bid_ask.hpp: the ways in which it ends.
use naoto_exchange.Common.{ℕ, ◌≡◌, inl, inr, some, arith, Bool-cases, Option-cases, ◌==◌}
use naoto_exchange.Wire.{Order, OrderSide, opposite}
use naoto_exchange.Matching.Level.{OrderNode}
use naoto_exchange.Matching.BidAsk.{BidAsk}
use naoto_exchange.HashMap.{get_val}
use naoto_exchange.Matching.BidAsk.Handlers.{
  Outcome, done, corrupted, book_of, find_node, reject_cancel, cancel_node, cancel_order,
}

-- The node that a cancel names rests on a side and belongs to the client.
abbrev pub Owns : OrderSide → Order → BidAsk → OrderNode → Type 0
Owns s o e n =
    (a : ℕ) × (get_val o.amount e.order_map ≡ some a)
    × (find_node a (book_of s e) ≡ some n)
    × (n.order.client_id ≡ o.client_id)

pub cancel_order_cases {κ} :
    (P : Outcome → Type κ) (s : OrderSide) (o : Order) (e : BidAsk)
    → P (done (reject_cancel o e))
    → P corrupted
    → ((n : OrderNode) → Owns s o e n → P (done (cancel_node s n e)))
    → P (cancel_order s o e)
unfolding cancel_order
cancel_order_cases P s o e rejected broken canceled =
    elim (Option-cases (get_val o.amount e.order_map)) [
      | inl t ↦ rw (t, cancel_order) rejected
      | inr (a, t) ↦ elim (Option-cases (find_node a (book_of s e))) [
        | inr (n, u) ↦ elim (Bool-cases (n.order.client_id == o.client_id)) [
          | inl c ↦ rw (t, cancel_order, u, c) (canceled n (a, t, u, ground arith))
          | inr c ↦ rw (t, cancel_order, u, c) rejected
        ]
        | inl u ↦ elim (Option-cases (find_node a (book_of (opposite s) e))) [
          | inl w ↦ rw (t, cancel_order, u, w) broken
          | inr (n, w) ↦ elim (Bool-cases (n.order.client_id == o.client_id)) [
            | inl c ↦ rw (t, cancel_order, u, w, c) broken
            | inr c ↦ rw (t, cancel_order, u, w, c) rejected
          ]
        ]
      ]
    ]
