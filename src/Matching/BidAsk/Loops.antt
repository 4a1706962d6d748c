-- ===== src/Matching/BidAsk/Loops.antt =====
-- Induction along the two loops of the fill functions, over the ways in which they go on or end.
use naoto_exchange.Common.{
  ℕ, ◌-◌, List, [], ◌∷◌, Bool, true, false, ◌≡◌, ◌≢◌, inl, inr, arith, Bool-cases, ◌==◌, ◌&&◌, ltb,
}
use naoto_exchange.Wire.{OrderSide}
use naoto_exchange.Matching.Level.{OrderNode, PriceLevel, is_empty, set_amount, dec_total_amount}
use naoto_exchange.Matching.Book.{Book}
use naoto_exchange.Matching.BidAsk.{is_marketable}
use naoto_exchange.Matching.BidAsk.Fill.{
  Filling, trade, delete_offer, fill_level, fill_levels, traded_amount, is_worse, set_best_price,
  free_level,
}

-- The test of both loops, and the amounts of the next trade.
abbrev pub goes_on : Filling → Bool
goes_on f = ltb 0 f.order.amount && is_marketable f.engine f.order

abbrev pub taken : OrderNode → Filling → ℕ
taken n f = traded_amount f.order.amount n.order.amount

abbrev pub left_over : OrderNode → Filling → ℕ
left_over n f = n.order.amount - taken n f

-- Induction along the inner loop: over its four ways to go on.
pub fill_level_ind {κ} :
    (s : OrderSide) (P : List OrderNode → PriceLevel → Filling → PriceLevel × Filling → Type κ)
    → ((l : PriceLevel) (f : Filling) → P [] l f (record l { orders = [] }, f))
    → ((n : OrderNode) (ns : List OrderNode) (l : PriceLevel) (f : Filling)
        → goes_on f ≡ false
        → P (n ∷ ns) l f (record l { orders = n ∷ ns }, f))
    → ((n : OrderNode) (ns : List OrderNode) (l : PriceLevel) (f : Filling)
        → goes_on f ≡ true
        → left_over n f ≢ 0
        → P (n ∷ ns) l f (
          record (dec_total_amount (taken n f) l) { orders = set_amount (left_over n f) n ∷ ns },
          trade s n l f,
        ))
    → ((n : OrderNode) (ns : List OrderNode) (l : PriceLevel) (f : Filling)
          (r : PriceLevel × Filling)
        → goes_on f ≡ true
        → left_over n f ≡ 0
        → P ns (dec_total_amount (taken n f) l) (delete_offer n (trade s n l f)) r
        → P (n ∷ ns) l f r)
    → (ns : List OrderNode) (l : PriceLevel) (f : Filling) → P ns l f (fill_level s ns l f)
unfolding fill_level
fill_level_ind s P empty stop part used [] l f = empty l f
fill_level_ind s P empty stop part used (n ∷ ns) l f = elim (Bool-cases (goes_on f)) [
  | inl go ↦ elim (Bool-cases (left_over n f == 0)) [
    | inl none_left ↦
        rw (go, none_left)
          (used n ns l f _ go (ground arith) (
            fill_level_ind s P empty stop part used ns (dec_total_amount (taken n f) l)
              (delete_offer n (trade s n l f))))
    | inr some_left ↦ rw (go, some_left) (part n ns l f go (ground arith))
  ]
  | inr halt ↦ rw halt (stop n ns l f halt)
]

-- The locals with which the inner loop starts at a level.
abbrev pub at_level : OrderSide → PriceLevel → Filling → Filling
at_level s l f = record f { engine = set_best_price s l.price f.engine }

-- Induction along the outer loop: over its six ways to go on.
pub fill_levels_ind {κ} :
    (s : OrderSide) (P : Book → Filling → Book × Filling → Type κ)
    → ((f : Filling) → P [] f ([], f))
    → ((l : PriceLevel) (ls : Book) (f : Filling) → goes_on f ≡ false → P (l ∷ ls) f (l ∷ ls, f))
    → ((l : PriceLevel) (ls : Book) (f : Filling)
        → goes_on f ≡ true
        → is_empty l ≡ true
        → P (l ∷ ls) f (l ∷ ls, f))
    → ((l : PriceLevel) (ls : Book) (f : Filling)
        → goes_on f ≡ true
        → is_empty l ≡ false
        → is_worse s l.price f.order.price ≡ true
        → P (l ∷ ls) f (l ∷ ls, at_level s l f))
    → ((l : PriceLevel) (ls : Book) (f : Filling)
        → goes_on f ≡ true
        → is_worse s l.price f.order.price ≡ false
        → let r = fill_level s l.orders l (at_level s l f) in
          is_empty r.0 ≡ false → P (l ∷ ls) f (r.0 ∷ ls, r.1))
    → ((l : PriceLevel) (ls : Book) (f : Filling) (q : Book × Filling)
        → goes_on f ≡ true
        → is_worse s l.price f.order.price ≡ false
        → let r = fill_level s l.orders l (at_level s l f) in
          is_empty r.0 ≡ true → P ls (free_level r.1) q → P (l ∷ ls) f q)
    → (b : Book) (f : Filling) → P b f (fill_levels s b f)
unfolding fill_levels
fill_levels_ind s P none_left stop empty worse part used [] f = none_left f
fill_levels_ind s P none_left stop empty worse part used (l ∷ ls) f =
    elim (Bool-cases (goes_on f)) [
      | inr halt ↦ rw halt (stop l ls f halt)
      | inl go ↦ elim (Bool-cases (is_empty l)) [
        | inl e ↦ rw (go, e) (empty l ls f go e)
        | inr e ↦ elim (Bool-cases (is_worse s l.price f.order.price)) [
          | inl w ↦ rw (go, e, w) (worse l ls f go e w)
          | inr w ↦ elim (Bool-cases (is_empty (fill_level s l.orders l (at_level s l f)).0)) [
            | inl u ↦
                rw (go, e, w, u)
                  (used l ls f _ go w u
                    (fill_levels_ind s P none_left stop empty worse part used ls _))
            | inr u ↦ rw (go, e, w, u) (part l ls f go w u)
          ]
        ]
      ]
    ]
