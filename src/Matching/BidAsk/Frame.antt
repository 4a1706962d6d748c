-- ===== src/Matching/BidAsk/Frame.antt =====
-- What the loops of the two fill functions leave as it is, and how they end.
use naoto_exchange.Common.{ℕ, ◌+◌, List, true, false, ◌≡◌, refl, ◌∙◌, arith}
use naoto_exchange.Wire.{OrderSide}
use naoto_exchange.Matching.Level.{OrderNode, PriceLevel, is_empty, dec_total_amount}
use naoto_exchange.Matching.BidAsk.{is_marketable}
use naoto_exchange.Matching.BidAsk.Fill.{Filling, trade, delete_offer, fill_level}
use naoto_exchange.Matching.BidAsk.Loops.{taken, fill_level_ind}

-- The terms of the order, and the parts of the engine that no turn of the inner loop writes.
pub record Keeps (f g : Filling) : Type 0 where
  pub price : g.order.price ≡ f.order.price
  pub order_type : g.order.order_type ≡ f.order.order_type
  pub side : g.order.side ≡ f.order.side
  pub client_id : g.order.client_id ≡ f.order.client_id
  pub order_id : g.order.order_id ≡ f.order.order_id
  pub best_ask : g.engine.best_ask_price ≡ f.engine.best_ask_price
  pub best_bid : g.engine.best_bid_price ≡ f.engine.best_bid_price
  pub bid : g.engine.bid ≡ f.engine.bid
  pub ask : g.engine.ask ≡ f.engine.ask
  pub asset : g.engine.market_asset_id ≡ f.engine.market_asset_id

pub Keeps-refl : (f : Filling) → Keeps f f
Keeps-refl f = record {
  price = refl;
  order_type = refl;
  side = refl;
  client_id = refl;
  order_id = refl;
  best_ask = refl;
  best_bid = refl;
  bid = refl;
  ask = refl;
  asset = refl;
}

pub Keeps-trans : (f g h : Filling) → Keeps f g → Keeps g h → Keeps f h
Keeps-trans f g h a b = record {
  price = b.price ∙ a.price;
  order_type = b.order_type ∙ a.order_type;
  side = b.side ∙ a.side;
  client_id = b.client_id ∙ a.client_id;
  order_id = b.order_id ∙ a.order_id;
  best_ask = b.best_ask ∙ a.best_ask;
  best_bid = b.best_bid ∙ a.best_bid;
  bid = b.bid ∙ a.bid;
  ask = b.ask ∙ a.ask;
  asset = b.asset ∙ a.asset;
}

pub trade-Keeps :
    (s : OrderSide) (n : OrderNode) (l : PriceLevel) (f : Filling) → Keeps f (trade s n l f)
unfolding trade
trade-Keeps s n l f = record {
  price = refl;
  order_type = refl;
  side = refl;
  client_id = refl;
  order_id = refl;
  best_ask = refl;
  best_bid = refl;
  bid = refl;
  ask = refl;
  asset = refl;
}

pub delete_offer-Keeps : (n : OrderNode) (f : Filling) → Keeps f (delete_offer n f)
unfolding delete_offer
delete_offer-Keeps n f = record {
  price = refl;
  order_type = refl;
  side = refl;
  client_id = refl;
  order_id = refl;
  best_ask = refl;
  best_bid = refl;
  bid = refl;
  ask = refl;
  asset = refl;
}

pub is_marketable-Keeps :
    (f g : Filling) → Keeps f g → is_marketable g.engine g.order ≡ is_marketable f.engine f.order
unfolding is_marketable
is_marketable-Keeps f g k = rw (k.side, k.price, k.order_type) (ground arith)

pub fill_level-Keeps :
    (s : OrderSide) (ns : List OrderNode) (l : PriceLevel) (f : Filling)
    → Keeps f (fill_level s ns l f).1
fill_level-Keeps s =
    fill_level_ind s (λ ns l f r. Keeps f r.1) (λ l f. Keeps-refl f) (λ n ns l f _. Keeps-refl f)
      (λ n ns l f _ _. trade-Keeps s n l f)
      (λ n ns l f r _ _ ih.
        Keeps-trans f _ r.1
          (Keeps-trans f _ _ (trade-Keeps s n l f) (delete_offer-Keeps n (trade s n l f))) ih)

price-dec_total_amount : (t : ℕ) (l : PriceLevel) → (dec_total_amount t l).price ≡ l.price
unfolding dec_total_amount
price-dec_total_amount t l = refl

pub price-fill_level :
    (s : OrderSide) (ns : List OrderNode) (l : PriceLevel) (f : Filling)
    → (fill_level s ns l f).0.price ≡ l.price
price-fill_level s =
    fill_level_ind s (λ ns l f r. r.0.price ≡ l.price) (λ l f. refl) (λ n ns l f _. refl)
      (λ n ns l f _ _. price-dec_total_amount (taken n f) l)
      (λ n ns l f r _ _ ih. ih ∙ price-dec_total_amount (taken n f) l)

amount-trade :
    (s : OrderSide) (n : OrderNode) (l : PriceLevel) (f : Filling)
    → (trade s n l f).order.amount + taken n f ≡ f.order.amount
unfolding trade
amount-trade s n l f = ground arith

-- The inner loop ends with the level used up or the order filled.
pub fill_level_end :
    (s : OrderSide) (ns : List OrderNode) (l : PriceLevel) (f : Filling)
    → is_marketable f.engine f.order ≡ true
    → is_empty (fill_level s ns l f).0 ≡ false
    → (fill_level s ns l f).1.order.amount ≡ 0
fill_level_end s =
    fill_level_ind s
      (λ ns l f r.
        is_marketable f.engine f.order ≡ true → is_empty r.0 ≡ false → r.1.order.amount ≡ 0)
      (λ l f m e. cc) (λ n ns l f halt m e. ground arith)
      (λ n ns l f go some_left m e. ground (arith, amount-trade s n l f))
      (λ n ns l f r go none_left ih m e.
        ih
          (is_marketable-Keeps f (delete_offer n (trade s n l f))
              (Keeps-trans f _ _ (trade-Keeps s n l f) (delete_offer-Keeps n (trade s n l f)))
            ∙ m)
          e)
