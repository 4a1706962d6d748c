-- ===== src/Matching/BidAsk/Hold.antt =====
-- What the fill loops keep: what held of the levels and of the addresses holds still.
use naoto_exchange.Common.{◌≡◌, refl, sym, subst, ◌∙◌, All, ℤ, ◌≤ℤ◌}
use naoto_exchange.Wire.{OrderSide, buy, sell}
use naoto_exchange.Matching.Level.{PriceLevel}
use naoto_exchange.Matching.Book.{Book}
use naoto_exchange.Matching.Book.Sorted.{IsBetter, IsSorted, IsLive}
use naoto_exchange.Matching.BidAsk.{BidAsk}
use naoto_exchange.Matching.BidAsk.Fill.{
  Filling, fill_level, fill_levels, set_best_price, free_level,
}
use naoto_exchange.Matching.BidAsk.Loops.{at_level, fill_levels_ind}
use naoto_exchange.Matching.BidAsk.Frame.{Keeps, fill_level-Keeps, price-fill_level}

-- `best_price s`: the cached best price of side `s`, `BestBidPrice` or `BestAskPrice`.
abbrev pub best_price : OrderSide → BidAsk → ℤ
best_price buy e = e.best_bid_price
best_price sell e = e.best_ask_price

-- On side `s` the price `a` is served no later than the price `b`.
abbrev pub AtLeast : OrderSide → ℤ → ℤ → Type 0
AtLeast buy a b = b ≤ℤ a
AtLeast sell a b = a ≤ℤ b

-- A cached best price is never behind the best price of the book.
abbrev pub Bounds : OrderSide → ℤ → Book → Type 0
Bounds s p b = All (λ l. AtLeast s p l.price) b

-- What the outer loop of the taker's side `s` leaves alone.
pub record Holds (s : OrderSide) (f g : Filling) : Type 0 where
  pub price : g.order.price ≡ f.order.price
  pub order_type : g.order.order_type ≡ f.order.order_type
  pub side : g.order.side ≡ f.order.side
  pub bid : g.engine.bid ≡ f.engine.bid
  pub ask : g.engine.ask ≡ f.engine.ask
  pub own : best_price s g.engine ≡ best_price s f.engine

pub Holds-refl : (s : OrderSide) (f : Filling) → Holds s f f
Holds-refl s f = record {
  price = refl;
  order_type = refl;
  side = refl;
  bid = refl;
  ask = refl;
  own = refl;
}

pub Holds-trans : (s : OrderSide) (f g h : Filling) → Holds s f g → Holds s g h → Holds s f h
Holds-trans s f g h a b = record {
  price = b.price ∙ a.price;
  order_type = b.order_type ∙ a.order_type;
  side = b.side ∙ a.side;
  bid = b.bid ∙ a.bid;
  ask = b.ask ∙ a.ask;
  own = b.own ∙ a.own;
}

pub at_level-Holds : (s : OrderSide) (l : PriceLevel) (f : Filling) → Holds s f (at_level s l f)
unfolding set_best_price
at_level-Holds buy l f = record {
  price = refl;
  order_type = refl;
  side = refl;
  bid = refl;
  ask = refl;
  own = refl;
}
at_level-Holds sell l f = record {
  price = refl;
  order_type = refl;
  side = refl;
  bid = refl;
  ask = refl;
  own = refl;
}

pub Keeps-Holds : (s : OrderSide) (f g : Filling) → Keeps f g → Holds s f g
Keeps-Holds buy f g k = record {
  price = k.price;
  order_type = k.order_type;
  side = k.side;
  bid = k.bid;
  ask = k.ask;
  own = k.best_bid;
}
Keeps-Holds sell f g k = record {
  price = k.price;
  order_type = k.order_type;
  side = k.side;
  bid = k.bid;
  ask = k.ask;
  own = k.best_ask;
}

pub level-Holds :
    (s : OrderSide) (l : PriceLevel) (f : Filling)
    → Holds s f (fill_level s l.orders l (at_level s l f)).1
level-Holds s l f =
    Holds-trans s f _ _ (at_level-Holds s l f)
      (Keeps-Holds s _ _ (fill_level-Keeps s l.orders l (at_level s l f)))

pub free-Holds : (s : OrderSide) (f : Filling) → Holds s f (free_level f)
free-Holds buy f = record {
  price = refl;
  order_type = refl;
  side = refl;
  bid = refl;
  ask = refl;
  own = refl;
}
free-Holds sell f = record {
  price = refl;
  order_type = refl;
  side = refl;
  bid = refl;
  ask = refl;
  own = refl;
}

pub fill_levels-Holds : (s : OrderSide) (b : Book) (f : Filling) → Holds s f (fill_levels s b f).1
fill_levels-Holds s =
    fill_levels_ind s (λ b f r. Holds s f r.1) (Holds-refl s) (λ l ls f _. Holds-refl s f)
      (λ l ls f _ _. Holds-refl s f) (λ l ls f _ _ _. at_level-Holds s l f)
      (λ l ls f _ _ _. level-Holds s l f)
      (λ l ls f q _ _ _ ih.
        Holds-trans s f _ _ (level-Holds s l f) (Holds-trans s _ _ _ (free-Holds s _) ih))

-- A property of prices that all levels have is kept.
pub fill_levels-All {κ} :
    (Q : ℤ → Type κ) (s : OrderSide) (b : Book) (f : Filling)
    → All (λ l. Q l.price) b
    → All (λ l. Q l.price) (fill_levels s b f).0
fill_levels-All Q s =
    fill_levels_ind s (λ b f r. All (λ l. Q l.price) b → All (λ l. Q l.price) r.0) (λ f a. a)
      (λ l ls f _ a. a) (λ l ls f _ _ a. a) (λ l ls f _ _ _ a. a)
      (λ l ls f _ _ _ a. (subst Q (sym (price-fill_level s l.orders l (at_level s l f))) a.0, a.1))
      (λ l ls f q _ _ _ ih a. ih a.1)

pub fill_levels-IsSorted :
    (o s : OrderSide) (b : Book) (f : Filling) → IsSorted o b → IsSorted o (fill_levels s b f).0
fill_levels-IsSorted o s =
    fill_levels_ind s (λ b f r. IsSorted o b → IsSorted o r.0) (λ f a. a) (λ l ls f _ a. a)
      (λ l ls f _ _ a. a) (λ l ls f _ _ _ a. a)
      (λ l ls f _ _ _ a. (
        subst (λ p. All (λ k. IsBetter o p k.price) ls)
            (sym (price-fill_level s l.orders l (at_level s l f))) a.0,
        a.1,
      ))
      (λ l ls f q _ _ _ ih a. ih a.1)

pub fill_levels-IsLive :
    (s : OrderSide) (b : Book) (f : Filling) → IsLive b → IsLive (fill_levels s b f).0
fill_levels-IsLive s =
    fill_levels_ind s (λ b f r. IsLive b → IsLive r.0) (λ f a. a) (λ l ls f _ a. a)
      (λ l ls f _ _ a. a) (λ l ls f _ _ _ a. a) (λ l ls f _ _ more a. (more, a.1))
      (λ l ls f q _ _ _ ih a. ih a.1)

-- The cached best price of the other side stays a bound, though the loop moves it.
