-- ===== src/Matching/BidAsk/Uncrossed.antt =====
-- The invariant of the engine: both sides sorted, no level empty, the cached best prices never behind
-- the book, and every bid strictly below every ask. Every handler keeps it.
use naoto_exchange.Common.{
  ◌||◌, zero, suc, ℤ, eqb_ℤ, ℕ, ◌<◌, List, [], ◌∷◌, false, ◌≡◌, refl, sym, subst, inl, inr, arith,
  All, Bool-cases, Option-cases, ltb, ℤ,
}
use naoto_exchange.Wire.{
  Order, OrderType, limit, market, OrderSide, buy, sell, opposite, OrderAction, execute,
}
use naoto_exchange.Matching.Level.{OrderNode}
use naoto_exchange.Matching.Book
use naoto_exchange.Matching.Book.{Book, Added}
use naoto_exchange.Matching.Book.Sorted.{
  IsBetter, AddedTo, add_limit_order-AddedTo, delete_limit_order-DeletedFrom,
}
use naoto_exchange.Matching.BidAsk.{BidAsk, is_marketable, new_bid_ask}
use naoto_exchange.Matching.BidAsk.Fill.{Filling, fill_levels}
use naoto_exchange.Matching.BidAsk.Handlers.{
  Outcome, done, terminated, corrupted, book_of, set_book, add_limit_order, acquire_and_add, place,
  add_node_order, cancel_rest, finish, fill_order, start_filling, execute_order, cancel_order,
  cancel_node, reject_cancel, handle, run, ◌>>=◌, alive, no_level,
}
use naoto_exchange.Matching.BidAsk.Cancel.{cancel_order_cases}
use naoto_exchange.Matching.BidAsk.Sweep.{IsBetter-Bounds, fill_levels-clear}
use naoto_exchange.Matching.BidAsk.Hold.{fill_levels-Holds}
use naoto_exchange.Matching.BidAsk.Sides.{
  IsValid, Sees, IsValid-Sees, Sees-IsValid, Sees-add, Sees-delete, Sees-sweep,
}

-- The invariant of a handler's result, where it returns.
abbrev pub KeepsValid : Outcome → Type 0
KeepsValid (done e) = IsValid e
KeepsValid terminated = Unit {0}
KeepsValid corrupted = Unit {0}

place-IsValid :
    (s : OrderSide) (n : OrderNode) (r : Added) (e : BidAsk)
    → AddedTo s n (book_of s e) r
    → All (λ k. IsBetter (opposite s) n.order.price k.price) (book_of (opposite s) e)
    → IsValid e
    → IsValid (place s n r e)
unfolding place
place-IsValid buy n r e added clear v = Sees-IsValid buy _ (
    Sees-add buy n e.best_bid_price e.best_ask_price e.bid e.ask r added clear
      (IsValid-Sees buy e v))
place-IsValid sell n r e added clear v = Sees-IsValid sell _ (
    Sees-add sell n e.best_ask_price e.best_bid_price e.ask e.bid r added clear
      (IsValid-Sees sell e v))

no_level-KeepsValid : (s : OrderSide) (p : ℤ) (free : ℕ) → KeepsValid (no_level s p free)
unfolding no_level
no_level-KeepsValid s p zero = tt
no_level-KeepsValid s p (suc free) = elim (Bool-cases (eqb_ℤ p (Book.head_key s))) [
  | inl t ↦ rw (t, no_level) tt
  | inr t ↦ rw (t, no_level) tt
]

add_node_order-IsValid :
    (s : OrderSide) (n : OrderNode) (e : BidAsk)
    → All (λ k. IsBetter (opposite s) n.order.price k.price) (book_of (opposite s) e)
    → IsValid e
    → KeepsValid (add_node_order s n e)
unfolding add_node_order
add_node_order-IsValid s n e clear v =
    elim (Option-cases (Book.add_limit_order s n e.level_pool (book_of s e))) [
      | inl t ↦ rw (t, add_node_order) (no_level-KeepsValid s n.order.price e.level_pool)
      | inr (r, t) ↦
          rw (t, add_node_order)
            (place-IsValid s n r e (add_limit_order-AddedTo s n e.level_pool (book_of s e) r t)
              clear v)
    ]

with_pool-IsValid :
    (e : BidAsk) (free : List ℕ) → IsValid e → IsValid (record e { node_pool = free })
with_pool-IsValid e free v = record { bids = v.bids; asks = v.asks; uncrossed = v.uncrossed }

book_of-with_pool :
    (s : OrderSide) (e : BidAsk) (free : List ℕ)
    → book_of s (record e { node_pool = free }) ≡ book_of s e
book_of-with_pool buy e free = refl
book_of-with_pool sell e free = refl

acquire_and_add-IsValid :
    (free : List ℕ) (s : OrderSide) (o : Order) (e : BidAsk)
    → All (λ k. IsBetter (opposite s) o.price k.price) (book_of (opposite s) e)
    → IsValid e
    → KeepsValid (acquire_and_add free s o e)
unfolding acquire_and_add
acquire_and_add-IsValid [] s o e clear v = v
acquire_and_add-IsValid (a ∷ free) s o e clear v =
    add_node_order-IsValid s _ _
      (subst (All (λ k. IsBetter (opposite s) o.price k.price))
        (sym (book_of-with_pool (opposite s) e free)) clear)
      (with_pool-IsValid e free v)

add_limit_order-IsValid :
    (s : OrderSide) (o : Order) (e : BidAsk)
    → All (λ k. IsBetter (opposite s) o.price k.price) (book_of (opposite s) e)
    → IsValid e
    → KeepsValid (add_limit_order s o e)
unfolding add_limit_order
add_limit_order-IsValid s o e clear v = acquire_and_add-IsValid e.node_pool s o e clear v

cancel_rest-IsValid :
    (s : OrderSide) (f : Filling) (e : BidAsk) → IsValid e → IsValid (cancel_rest s f e)
unfolding cancel_rest
cancel_rest-IsValid s f e v = record { bids = v.bids; asks = v.asks; uncrossed = v.uncrossed }

finish-IsValid :
    (s : OrderSide) (f : Filling) (e : BidAsk)
    → (0 < f.order.amount
        → f.order.order_type ≡ limit
        → All (λ k. IsBetter (opposite s) f.order.price k.price) (book_of (opposite s) e))
    → IsValid e
    → KeepsValid (finish s f e)
unfolding finish
finish-IsValid s f e clear v = elim (Bool-cases (ltb 0 f.order.amount)) [
  | inr t ↦ rw (t, finish) v
  | inl t ↦ rw (t, finish) (go f.order.order_type refl (ground arith))
]
  where
    go :
        (k : OrderType)
        → f.order.order_type ≡ k
        → 0 < f.order.amount
        → KeepsValid
            (elim k [ limit ↦ add_limit_order s f.order e | market ↦ done (cancel_rest s f e) ])
    go limit k left = add_limit_order-IsValid s f.order e (clear left k) v
    go market k left = cancel_rest-IsValid s f e v

swept-IsValid :
    (s : OrderSide) (o : Order) (e : BidAsk)
    → IsValid e
    → let r = fill_levels s (book_of (opposite s) e) (start_filling s o e) in
      IsValid (set_book (opposite s) r.0 r.1.engine)
swept-IsValid buy o e v =
    let f = start_filling buy o e in
    let kept = fill_levels-Holds buy e.ask f in
    let r = fill_levels buy e.ask f in
    let seen = Sees-sweep buy f e.best_bid_price e.bid e.ask (IsValid-Sees buy e v) in
    Sees-IsValid buy _ (
      subst (λ p. Sees buy p r.1.engine.best_ask_price r.1.engine.bid r.0) (sym kept.own)
        (subst (λ b. Sees buy e.best_bid_price r.1.engine.best_ask_price b r.0) (sym kept.bid)
          seen))
swept-IsValid sell o e v =
    let f = start_filling sell o e in
    let kept = fill_levels-Holds sell e.bid f in
    let r = fill_levels sell e.bid f in
    let seen = Sees-sweep sell f e.best_ask_price e.ask e.bid (IsValid-Sees sell e v) in
    Sees-IsValid sell _ (
      subst (λ p. Sees sell p r.1.engine.best_bid_price r.1.engine.ask r.0) (sym kept.own)
        (subst (λ b. Sees sell e.best_ask_price r.1.engine.best_bid_price b r.0) (sym kept.ask)
          seen))

book_of-set_book : (s : OrderSide) (b : Book) (e : BidAsk) → book_of s (set_book s b e) ≡ b
book_of-set_book buy b e = refl
book_of-set_book sell b e = refl

fill_order-IsValid :
    (s : OrderSide) (o : Order) (e : BidAsk)
    → o.side ≡ s
    → IsValid e
    → KeepsValid (fill_order s o e)
unfolding fill_order
fill_order-IsValid s o e side v =
    let seen = IsValid-Sees s e v in
    let f = start_filling s o e in
    let r = fill_levels s (book_of (opposite s) e) f in
    finish-IsValid s r.1 (set_book (opposite s) r.0 r.1.engine)
      (λ left type.
        subst (All (λ k. IsBetter (opposite s) r.1.order.price k.price))
          (sym (book_of-set_book (opposite s) r.0 r.1.engine))
          (fill_levels-clear s (book_of (opposite s) e) f side seen.other.sorted seen.other.live
            seen.other.bounded left type))
      (swept-IsValid s o e v)

-- An order that is not marketable is strictly worse than the whole other side, whatever its type.
not_marketable-clear :
    (s : OrderSide) (o : Order) (e : BidAsk)
    → o.side ≡ s
    → IsValid e
    → is_marketable e o ≡ false
    → All (λ k. IsBetter (opposite s) o.price k.price) (book_of (opposite s) e)
unfolding is_marketable
not_marketable-clear buy o e side v m =
    IsBetter-Bounds sell o.price e.best_ask_price e.ask (ground arith) v.asks.bounded
not_marketable-clear sell o e side v m =
    IsBetter-Bounds buy o.price e.best_bid_price e.bid (ground arith) v.bids.bounded

execute_order-IsValid : (o : Order) (e : BidAsk) → IsValid e → KeepsValid (execute_order o e)
unfolding execute_order
execute_order-IsValid o e v = elim (Bool-cases (is_marketable e o)) [
  | inl t ↦ rw (t, execute_order) (fill_order-IsValid o.side o e refl v)
  | inr t ↦
      rw (t, execute_order)
        (add_limit_order-IsValid o.side o e (not_marketable-clear o.side o e refl v t) v)
]

cancel_node-IsValid :
    (s : OrderSide) (n : OrderNode) (e : BidAsk) → IsValid e → IsValid (cancel_node s n e)
unfolding cancel_node
cancel_node-IsValid buy n e v = Sees-IsValid buy _ (
    Sees-delete buy n e.best_bid_price e.best_ask_price e.bid _ e.ask
      (delete_limit_order-DeletedFrom n e.level_pool e.bid) (IsValid-Sees buy e v))
cancel_node-IsValid sell n e v = Sees-IsValid sell _ (
    Sees-delete sell n e.best_ask_price e.best_bid_price e.ask _ e.bid
      (delete_limit_order-DeletedFrom n e.level_pool e.ask) (IsValid-Sees sell e v))

reject_cancel-IsValid : (o : Order) (e : BidAsk) → IsValid e → IsValid (reject_cancel o e)
unfolding reject_cancel
reject_cancel-IsValid o e v = record { bids = v.bids; asks = v.asks; uncrossed = v.uncrossed }

cancel_order-IsValid :
    (s : OrderSide) (o : Order) (e : BidAsk) → IsValid e → KeepsValid (cancel_order s o e)
cancel_order-IsValid s o e v =
    cancel_order_cases KeepsValid s o e (reject_cancel-IsValid o e v) tt
      (λ n _. cancel_node-IsValid s n e v)

handle-IsValid : (o : Order) (e : BidAsk) → IsValid e → KeepsValid (handle o e)
unfolding handle
handle-IsValid o e v = go o.action refl
  where
    go : (a : OrderAction) → o.action ≡ a → KeepsValid (handle o e)
    go execute t = rw (t, handle) (execute_order-IsValid o e v)
    go OrderAction.cancel t = rw (t, handle) (cancel_order-IsValid o.side o e v)

bind-IsValid :
    (x : Outcome) (next : BidAsk → Outcome) (e' : BidAsk)
    → KeepsValid x
    → (x >>= next) ≡ done e'
    → ((e : BidAsk) → IsValid e → next e ≡ done e' → IsValid e')
    → IsValid e'
bind-IsValid (done e) next e' v r k = k e v r
bind-IsValid terminated next e' v r k = cc
bind-IsValid corrupted next e' v r k = cc

alive-IsValid : (e : BidAsk) → IsValid e → KeepsValid (alive e)
unfolding alive
alive-IsValid e v = elim (Bool-cases (e.outgoing_orders.crashed || e.outgoing_book.crashed)) [
  | inl t ↦ rw (t, alive) tt
  | inr t ↦ rw (t, alive) v
]

alive_after : (x : Outcome) → KeepsValid x → KeepsValid (x >>= alive)
alive_after (done e) v = alive-IsValid e v
alive_after terminated v = tt
alive_after corrupted v = tt

pub run-IsValid : (os : List Order) (e e' : BidAsk) → IsValid e → run os e ≡ done e' → IsValid e'
unfolding run
run-IsValid [] e e' v r = subst IsValid (ground arith) v
run-IsValid (o ∷ os) e e' v r =
    bind-IsValid (handle o e >>= alive) (run os) e'
      (alive_after (handle o e) (handle-IsValid o e v)) r (λ e₁ v₁ r₁. run-IsValid os e₁ e' v₁ r₁)

pub new_bid_ask-IsValid :
    (asset : ℕ) (price : ℤ) (reports updates : ℕ) (nodes : List ℕ) (levels : ℕ)
    → IsValid (new_bid_ask asset price reports updates nodes levels)
unfolding new_bid_ask
new_bid_ask-IsValid asset price reports updates nodes levels = record {
  bids = record { sorted = tt; live = tt; bounded = tt };
  asks = record { sorted = tt; live = tt; bounded = tt };
  uncrossed = tt;
}
