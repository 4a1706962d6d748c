-- ===== src/Matching/BidAsk/Sides.antt =====
-- The invariant of the engine, and what an addition, a deletion and a sweep leave of it, seen from the
-- side that acts.
use naoto_exchange.Common.{[], ◌∷◌, arith, All, ℤ}
use naoto_exchange.Wire.{OrderSide, buy, sell, opposite}
use naoto_exchange.Matching.Level.{OrderNode, PriceLevel}
use naoto_exchange.Matching.Book.{Book, Added}
use naoto_exchange.Matching.Book.Sorted.{
  IsBetter, IsSorted, IsLive, All-mono, AddedTo, add_limit_order-IsSorted, add_limit_order-All,
  add_limit_order-IsLive, DeletedFrom, DeletedFrom-IsSorted, DeletedFrom-All, DeletedFrom-IsLive,
}
use naoto_exchange.Matching.BidAsk.{BidAsk}
use naoto_exchange.Matching.BidAsk.Fill.{Filling, fill_levels}
use naoto_exchange.Matching.BidAsk.Handlers.{book_of, min_ℤ, max_ℤ}
use naoto_exchange.Matching.BidAsk.Sweep.{fill_levels-Bounds}
use naoto_exchange.Matching.BidAsk.Hold.{
  best_price, AtLeast, Bounds, fill_levels-All, fill_levels-IsSorted, fill_levels-IsLive,
}

-- One side with its cached best price.
pub record IsSide (s : OrderSide) (p : ℤ) (b : Book) : Type 0 where
  pub sorted : IsSorted s b
  pub live : IsLive b
  pub bounded : Bounds s p b

-- Every price of side `s` is strictly apart from every price of the other.
abbrev pub Apart : OrderSide → Book → Book → Type 0
Apart s b c = All (λ l. All (λ k. IsBetter (opposite s) l.price k.price) c) b

pub record IsValid (e : BidAsk) : Type 0 where
  pub bids : IsSide buy e.best_bid_price e.bid
  pub asks : IsSide sell e.best_ask_price e.ask
  pub uncrossed : Apart buy e.bid e.ask

-- The same, seen from one side.
pub record Sees (s : OrderSide) (p q : ℤ) (b c : Book) : Type 0 where
  pub own : IsSide s p b
  pub other : IsSide (opposite s) q c
  pub apart : Apart s b c

pub Apart-cons :
    (s : OrderSide) (b c : Book) (k : PriceLevel)
    → All (λ l. IsBetter s k.price l.price) b
    → Apart (opposite s) c b
    → Apart (opposite s) (k ∷ c) b
Apart-cons buy b c k h a = (h, a)
Apart-cons sell b c k h a = (h, a)

pub Apart-split :
    (s : OrderSide) (b c : Book) (k : PriceLevel)
    → Apart s b (k ∷ c)
    → All (λ l. IsBetter s k.price l.price) b × Apart s b c
Apart-split s [] c k h = (tt, tt)
Apart-split buy (l ∷ b) c k h = let r = Apart-split buy b c k h.1 in ((h.0.0, r.0), (h.0.1, r.1))
Apart-split sell (l ∷ b) c k h = let r = Apart-split sell b c k h.1 in ((h.0.0, r.0), (h.0.1, r.1))

pub Apart-flip : (s : OrderSide) (b c : Book) → Apart s b c → Apart (opposite s) c b
Apart-flip s b [] h = tt
Apart-flip s b (k ∷ c) h =
    let r = Apart-split s b c k h in Apart-cons s b c k r.0 (Apart-flip s b c r.1)

pub IsValid-Sees :
    (s : OrderSide) (e : BidAsk)
    → IsValid e
    → Sees s (best_price s e) (best_price (opposite s) e) (book_of s e) (book_of (opposite s) e)
IsValid-Sees buy e v = record { own = v.bids; other = v.asks; apart = v.uncrossed }
IsValid-Sees sell e v = record {
  own = v.asks;
  other = v.bids;
  apart = Apart-flip buy e.bid e.ask v.uncrossed;
}

pub Sees-IsValid :
    (s : OrderSide) (e : BidAsk)
    → Sees s (best_price s e) (best_price (opposite s) e) (book_of s e) (book_of (opposite s) e)
    → IsValid e
Sees-IsValid buy e v = record { bids = v.own; asks = v.other; uncrossed = v.apart }
Sees-IsValid sell e v = record {
  bids = v.other;
  asks = v.own;
  uncrossed = Apart-flip sell e.ask e.bid v.apart;
}

-- The cached best price of a side after an order has been added to it.
abbrev pub improved : OrderSide → ℤ → ℤ → ℤ
improved buy p q = max_ℤ p q
improved sell p q = min_ℤ p q

pub improved-AtLeast : (s : OrderSide) (p q : ℤ) → AtLeast s (improved s p q) q
improved-AtLeast buy p q = ground arith
improved-AtLeast sell p q = ground arith

pub improved-Bounds :
    (s : OrderSide) (p q : ℤ) (b : Book) → Bounds s p b → Bounds s (improved s p q) b
improved-Bounds s p q [] a = tt
improved-Bounds buy p q (k ∷ b) a = (ground arith, improved-Bounds buy p q b a.1)
improved-Bounds sell p q (k ∷ b) a = (ground arith, improved-Bounds sell p q b a.1)

pub Sees-add :
    (s : OrderSide) (n : OrderNode) (p q : ℤ) (b c : Book) (r : Added)
    → AddedTo s n b r
    → All (λ k. IsBetter (opposite s) n.order.price k.price) c
    → Sees s p q b c
    → Sees s (improved s p n.order.price) q r.book c
Sees-add s n p q b c r added clear v = record {
  own = record {
    sorted = add_limit_order-IsSorted s n b r added v.own.sorted;
    live = add_limit_order-IsLive s n b r added v.own.live;
    bounded =
        add_limit_order-All s n b r (AtLeast s (improved s p n.order.price)) added
          (improved-AtLeast s p n.order.price) (improved-Bounds s p n.order.price b v.own.bounded);
  };
  other = v.other;
  apart =
      add_limit_order-All s n b r (λ x. All (λ k. IsBetter (opposite s) x k.price) c) added clear
        v.apart;
}

pub Sees-delete :
    (s : OrderSide) (n : OrderNode) (p q : ℤ) (b b' c : Book)
    → DeletedFrom n b b'
    → Sees s p q b c
    → Sees s p q b' c
Sees-delete s n p q b b' c d v = record {
  own = record {
    sorted = DeletedFrom-IsSorted n b b' s d v.own.sorted;
    live = DeletedFrom-IsLive n b b' d v.own.live;
    bounded = DeletedFrom-All n b b' (AtLeast s p) d v.own.bounded;
  };
  other = v.other;
  apart = DeletedFrom-All n b b' (λ x. All (λ k. IsBetter (opposite s) x k.price) c) d v.apart;
}

-- The loops, run over the other side.
pub Sees-sweep :
    (s : OrderSide) (f : Filling) (p : ℤ) (b c : Book)
    → Sees s p (best_price (opposite s) f.engine) b c
    → let r = fill_levels s c f in Sees s p (best_price (opposite s) r.1.engine) b r.0
Sees-sweep s f p b c v = record {
  own = v.own;
  other = record {
    sorted = fill_levels-IsSorted (opposite s) s c f v.other.sorted;
    live = fill_levels-IsLive s c f v.other.live;
    bounded = fill_levels-Bounds s c f v.other.sorted v.other.bounded;
  };
  apart =
      All-mono (λ l. All (λ k. IsBetter (opposite s) l.price k.price) c) _ b
        (λ l. fill_levels-All (IsBetter (opposite s) l.price) s c f) v.apart;
}
