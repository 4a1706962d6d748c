-- ===== src/Matching/BidAsk/Sweep.antt =====
-- What the outer loop of the fill functions leaves of the other side of the book, and how it ends.
use naoto_exchange.Common.{◌<◌, [], ◌∷◌, true, false, ◌≡◌, refl, sym, subst, ◌∙◌, arith, All, ℤ}
use naoto_exchange.Wire.{limit, OrderSide, buy, sell, opposite}
use naoto_exchange.Matching.Level.{PriceLevel}
use naoto_exchange.Matching.Book.{Book}
use naoto_exchange.Matching.Book.Sorted.{IsBetter, IsSorted, IsLive, IsBetter-trans}
use naoto_exchange.Matching.BidAsk.{is_marketable}
use naoto_exchange.Matching.BidAsk.Fill.{
  Filling, fill_level, fill_levels, is_worse, set_best_price, free_level,
}
use naoto_exchange.Matching.BidAsk.Loops.{at_level, fill_levels_ind}
use naoto_exchange.Matching.BidAsk.Frame.{Keeps, fill_level-Keeps, price-fill_level, fill_level_end}
use naoto_exchange.Matching.BidAsk.Hold.{best_price, AtLeast, Bounds, level-Holds}

pub AtLeast-IsBetter :
    (s : OrderSide) (p : ℤ) (b : Book) → All (λ k. IsBetter s p k.price) b → Bounds s p b
AtLeast-IsBetter s p [] h = tt
AtLeast-IsBetter buy p (k ∷ ls) h = (omega arith, AtLeast-IsBetter buy p ls h.1)
AtLeast-IsBetter sell p (k ∷ ls) h = (omega arith, AtLeast-IsBetter sell p ls h.1)

pub AtLeast-refl : (s : OrderSide) (p : ℤ) → AtLeast s p p
AtLeast-refl buy p = omega arith
AtLeast-refl sell p = omega arith

best_price-at_level :
    (s : OrderSide) (l : PriceLevel) (f : Filling)
    → best_price (opposite s) (at_level s l f).engine ≡ l.price
unfolding set_best_price
best_price-at_level buy l f = refl
best_price-at_level sell l f = refl

best_price-Keeps :
    (s : OrderSide) (f g : Filling) → Keeps f g → best_price s g.engine ≡ best_price s f.engine
best_price-Keeps buy f g k = k.best_bid
best_price-Keeps sell f g k = k.best_ask

best_price-fill_level :
    (s : OrderSide) (l : PriceLevel) (f : Filling)
    → best_price (opposite s) (fill_level s l.orders l (at_level s l f)).1.engine ≡ l.price
best_price-fill_level s l f =
    best_price-Keeps (opposite s) _ _ (fill_level-Keeps s l.orders l (at_level s l f))
    ∙ best_price-at_level s l f

best_price-free_level :
    (s : OrderSide) (f : Filling) → best_price s (free_level f).engine ≡ best_price s f.engine
best_price-free_level buy f = refl
best_price-free_level sell f = refl

pub best_price-freed :
    (s : OrderSide) (l : PriceLevel) (f : Filling)
    → best_price (opposite s) (free_level (fill_level s l.orders l (at_level s l f)).1).engine
      ≡ l.price
best_price-freed s l f =
    best_price-free_level (opposite s) (fill_level s l.orders l (at_level s l f)).1
    ∙ best_price-fill_level s l f

sorted-Bounds :
    (s : OrderSide) (l : PriceLevel) (ls : Book) → IsSorted s (l ∷ ls) → Bounds s l.price (l ∷ ls)
sorted-Bounds s l ls h = (AtLeast-refl s l.price, AtLeast-IsBetter s l.price ls h.0)

pub fill_levels-Bounds :
    (s : OrderSide) (b : Book) (f : Filling)
    → IsSorted (opposite s) b
    → Bounds (opposite s) (best_price (opposite s) f.engine) b
    → let r = fill_levels s b f in Bounds (opposite s) (best_price (opposite s) r.1.engine) r.0
fill_levels-Bounds s =
    fill_levels_ind s
      (λ b f r.
        IsSorted (opposite s) b
        → Bounds (opposite s) (best_price (opposite s) f.engine) b
        → Bounds (opposite s) (best_price (opposite s) r.1.engine) r.0)
      (λ f h a. a) (λ l ls f _ h a. a) (λ l ls f _ _ h a. a)
      (λ l ls f _ _ _ h a.
        subst (λ p. Bounds (opposite s) p (l ∷ ls)) (sym (best_price-at_level s l f))
          (sorted-Bounds (opposite s) l ls h))
      (λ l ls f _ _ _ h a.
        subst (λ p. Bounds (opposite s) p ((fill_level s l.orders l (at_level s l f)).0 ∷ ls))
          (sym (best_price-fill_level s l f))
          (
            subst (AtLeast (opposite s) l.price)
                (sym (price-fill_level s l.orders l (at_level s l f)))
                (AtLeast-refl (opposite s) l.price),
            AtLeast-IsBetter (opposite s) l.price ls h.0,
          ))
      (λ l ls f q _ _ _ ih h a. ih h.1 (
        subst (λ p. Bounds (opposite s) p ls) (sym (best_price-freed s l f))
          (AtLeast-IsBetter (opposite s) l.price ls h.0)))

-- A limit order that is not marketable is strictly worse than all of the other side.
pub not_marketable :
    (s : OrderSide) (f : Filling)
    → f.order.side ≡ s
    → f.order.order_type ≡ limit
    → is_marketable f.engine f.order ≡ false
    → IsBetter (opposite s) f.order.price (best_price (opposite s) f.engine)
unfolding is_marketable
not_marketable buy f side type m = ground arith
not_marketable sell f side type m = ground arith

pub marketable-at_level :
    (s : OrderSide) (l : PriceLevel) (f : Filling)
    → f.order.side ≡ s
    → is_worse s l.price f.order.price ≡ false
    → is_marketable (at_level s l f).engine (at_level s l f).order ≡ true
unfolding is_marketable set_best_price
marketable-at_level buy l f side w = ground arith
marketable-at_level sell l f side w = ground arith

pub IsBetter-Bounds :
    (s : OrderSide) (p q : ℤ) (b : Book)
    → IsBetter s p q
    → Bounds s q b
    → All (λ k. IsBetter s p k.price) b
IsBetter-Bounds s p q [] h a = tt
IsBetter-Bounds buy p q (k ∷ ls) h a = (omega arith, IsBetter-Bounds buy p q ls h a.1)
IsBetter-Bounds sell p q (k ∷ ls) h a = (omega arith, IsBetter-Bounds sell p q ls h a.1)

worse-IsBetter :
    (s : OrderSide) (best price : ℤ)
    → is_worse s best price ≡ true
    → IsBetter (opposite s) price best
worse-IsBetter buy best price w = ground arith
worse-IsBetter sell best price w = ground arith

-- After the loops, a limit order with something left is strictly worse than every level that stays.
pub fill_levels-clear :
    (s : OrderSide) (b : Book) (f : Filling)
    → f.order.side ≡ s
    → IsSorted (opposite s) b
    → IsLive b
    → Bounds (opposite s) (best_price (opposite s) f.engine) b
    → let r = fill_levels s b f in
      0 < r.1.order.amount
      → r.1.order.order_type ≡ limit
      → All (λ l. IsBetter (opposite s) r.1.order.price l.price) r.0
fill_levels-clear s =
    fill_levels_ind s
      (λ b f r.
        f.order.side ≡ s
        → IsSorted (opposite s) b
        → IsLive b
        → Bounds (opposite s) (best_price (opposite s) f.engine) b
        → 0 < r.1.order.amount
        → r.1.order.order_type ≡ limit
        → All (λ l. IsBetter (opposite s) r.1.order.price l.price) r.0)
      (λ f side h live a some_left type. tt)
      (λ l ls f halt side h live a some_left type.
        IsBetter-Bounds (opposite s) f.order.price (best_price (opposite s) f.engine) (l ∷ ls)
          (not_marketable s f side type (ground arith)) a)
      (λ l ls f _ e side h live a some_left type. absurd (ground arith))
      (λ l ls f _ _ w side h live a some_left type.
        let better : IsBetter (opposite s) f.order.price l.price =
          worse-IsBetter s l.price f.order.price w in
        (better, IsBetter-trans (opposite s) f.order.price l.price ls better h.0))
      (λ l ls f _ w more side h live a some_left type. absurd (
        omega (
          arith,
          fill_level_end s l.orders l (at_level s l f) (marketable-at_level s l f side w) more,
        )))
      (λ l ls f q _ w _ ih side h live a some_left type.
        ih ((level-Holds s l f).side ∙ side) h.1 live.1
          (subst (λ p. Bounds (opposite s) p ls) (sym (best_price-freed s l f))
            (AtLeast-IsBetter (opposite s) l.price ls h.0))
          some_left type)
