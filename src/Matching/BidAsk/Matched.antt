-- ===== src/Matching/BidAsk/Matched.antt =====
-- How the fill loops come to a match, case by case.
use naoto_exchange.Common.{
  ◌-◌, List, [], ◌∷◌, ◌++◌, append_assoc, ◌≡◌, refl, sym, ap, ◌∙◌, subst, true, false, Bool-cases,
  inl, inr, arith, ◌==◌, ℤ,
}
use naoto_exchange.Wire.{OrderSide, buy, sell, opposite, limit}
use naoto_exchange.Matching.Level.{OrderNode, PriceLevel, is_empty}
use naoto_exchange.Matching.Book.{Book}
use naoto_exchange.Matching.Book.Sorted.{IsBetter}
use naoto_exchange.Matching.BidAsk.{is_marketable}
use naoto_exchange.Matching.BidAsk.Fill.{Filling, is_worse, fill_level, trade, delete_offer}
use naoto_exchange.Matching.BidAsk.Loops.{goes_on, taken, fill_level_ind}
use naoto_exchange.Matching.BidAsk.Frame.{
  Keeps-trans, is_marketable-Keeps, trade-Keeps, delete_offer-Keeps,
}
use naoto_exchange.Matching.BidAsk.Sweep.{not_marketable}
use naoto_exchange.Matching.BidAsk.Hold.{Bounds, best_price, AtLeast}
use naoto_exchange.Matching.Resting.{
  resting, within, beyond, after_taking, total_of, total_of-append, after_taking-used,
  after_taking-zero, after_taking-append, within-beyond,
}

pub amount-trade :
    (s : OrderSide) (n : OrderNode) (l : PriceLevel) (f : Filling)
    → (trade s n l f).order.amount ≡ f.order.amount - taken n f
unfolding trade
amount-trade s n l f = refl

pub amount-delete_offer :
    (n : OrderNode) (f : Filling) → (delete_offer n f).order.amount ≡ f.order.amount
unfolding delete_offer
amount-delete_offer n f = refl

pub is_marketable-trade :
    (s : OrderSide) (n : OrderNode) (l : PriceLevel) (f : Filling)
    → let g = delete_offer n (trade s n l f) in
      is_marketable g.engine g.order ≡ is_marketable f.engine f.order
is_marketable-trade s n l f =
    is_marketable-Keeps f (delete_offer n (trade s n l f))
      (Keeps-trans f _ _ (trade-Keeps s n l f) (delete_offer-Keeps n (trade s n l f)))

-- The inner loop takes the order's amount from the front of the level.
pub fill_level-orders :
    (s : OrderSide) (ns : List OrderNode) (l : PriceLevel) (f : Filling)
    → is_marketable f.engine f.order ≡ true
    → let r = fill_level s ns l f in
      (r.0.orders ≡ after_taking f.order.amount ns)
      × (r.1.order.amount ≡ f.order.amount - total_of ns)
fill_level-orders s =
    fill_level_ind s
      (λ ns l f r.
        is_marketable f.engine f.order ≡ true
        → (r.0.orders ≡ after_taking f.order.amount ns)
          × (r.1.order.amount ≡ f.order.amount - total_of ns))
      (λ l f m. (refl, omega arith)) (λ n ns l f halt m. (ground arith, ground arith))
      (λ n ns l f go left m.
        (ground (arith, amount-trade s n l f), ground (arith, amount-trade s n l f)))
      (λ n ns l f r go none_left ih m.
        let next = ih (is_marketable-trade s n l f ∙ m) in
        let left : (delete_offer n (trade s n l f)).order.amount ≡ f.order.amount - n.order.amount =
          ground (arith, amount-trade s n l f, amount-delete_offer n (trade s n l f)) in
        (
          next.0
              ∙ ap (λ a. after_taking a ns) left
              ∙ sym (after_taking-used f.order.amount n ns (ground arith) (ground arith)),
          omega (arith, next.1, left),
        ))

-- What the loops leave to rest, and of the order.
pub record Matched (s : OrderSide) (b : Book) (f : Filling) (r : Book × Filling) : Type 0 where
  pub rest :
      resting r.0
      ≡ after_taking f.order.amount (within s f.order.price b) ++ beyond s f.order.price b
  pub left : r.1.order.amount ≡ f.order.amount - total_of (within s f.order.price b)

-- Where the price is worse than the best level, nothing is traded.
pub worse-Matched :
    (s : OrderSide) (l : PriceLevel) (ls : Book) (f g : Filling)
    → is_worse s l.price f.order.price ≡ true
    → g.order.amount ≡ f.order.amount
    → Matched s (l ∷ ls) f (l ∷ ls, g)
worse-Matched s l ls f g w e = record { rest = rw w refl; left = rw w (omega (arith, e)) }

pub filled-Matched :
    (s : OrderSide) (b : Book) (f : Filling) → f.order.amount ≡ 0 → Matched s b f (b, f)
filled-Matched s b f e = record {
  rest =
      sym (within-beyond s f.order.price b)
      ∙ ap (λ x. x ++ beyond s f.order.price b)
          (sym (after_taking-zero (within s f.order.price b))
            ∙ ap (λ a. after_taking a (within s f.order.price b)) (sym e));
  left = omega (arith, e);
}

-- A level that is left over holds what the order did not take.
pub part-Matched :
    (s : OrderSide) (l k : PriceLevel) (ls : Book) (f g : Filling)
    → is_worse s l.price f.order.price ≡ false
    → k.orders ≡ after_taking f.order.amount l.orders
    → g.order.amount ≡ f.order.amount - total_of l.orders
    → g.order.amount ≡ 0
    → Matched s (l ∷ ls) f (k ∷ ls, g)
part-Matched s l k ls f g w orders amount none_left =
    let behind = within s f.order.price ls in
    record {
      rest = rw (
        w,
        orders,
        after_taking-append f.order.amount l.orders behind,
        ← amount,
        none_left,
        after_taking-zero,
        append_assoc,
        within-beyond,
      );
      left = rw (w, total_of-append l.orders behind) (omega (arith, amount, none_left));
    }

pub used-Matched :
    (s : OrderSide) (l : PriceLevel) (ls : Book) (f g : Filling) (q : Book × Filling)
    → is_worse s l.price f.order.price ≡ false
    → [] ≡ after_taking f.order.amount l.orders
    → g.order.amount ≡ f.order.amount - total_of l.orders
    → g.order.price ≡ f.order.price
    → Matched s ls g q
    → Matched s (l ∷ ls) f q
used-Matched s l ls f g q w orders amount price m =
    let behind = within s f.order.price ls in
    record {
      rest =
          rw (w, after_taking-append f.order.amount l.orders behind, ← orders, ← amount)
            (subst (λ p. resting q.0 ≡ after_taking g.order.amount (within s p ls) ++ beyond s p ls)
              price m.rest);
      left =
          rw (w, total_of-append l.orders behind)
            (omega (
              arith,
              amount,
              subst (λ p. q.1.order.amount ≡ g.order.amount - total_of (within s p ls)) price
                  m.left,
            ));
    }

pub is_empty→nil : (l : PriceLevel) → is_empty l ≡ true → l.orders ≡ []
is_empty→nil l e = ground arith

pub worse-than-bound :
    (s : OrderSide) (l : PriceLevel) (p q : ℤ)
    → IsBetter (opposite s) p q
    → AtLeast (opposite s) q l.price
    → is_worse s l.price p ≡ true
worse-than-bound buy l p q h a = ground arith
worse-than-bound sell l p q h a = ground arith

pub limit_of_not_marketable :
    (f : Filling) → is_marketable f.engine f.order ≡ false → f.order.order_type ≡ limit
unfolding is_marketable
limit_of_not_marketable f m = ground arith

-- Where the test of the outer loop fails, nothing may be traded.
pub stop-Matched :
    (s : OrderSide) (l : PriceLevel) (ls : Book) (f : Filling)
    → goes_on f ≡ false
    → f.order.side ≡ s
    → Bounds (opposite s) (best_price (opposite s) f.engine) (l ∷ ls)
    → Matched s (l ∷ ls) f (l ∷ ls, f)
stop-Matched s l ls f halt side a = elim (Bool-cases (f.order.amount == 0)) [
  | inl z ↦ filled-Matched s (l ∷ ls) f (ground arith)
  | inr z ↦
      let m : is_marketable f.engine f.order ≡ false = ground arith in
      worse-Matched s l ls f f
        (worse-than-bound s l f.order.price (best_price (opposite s) f.engine)
          (not_marketable s f side (limit_of_not_marketable f m) m) a.0)
        refl
]
