-- ===== src/Matching/BidAsk/Fill.antt =====
-- `FillBuyOrder` and `FillSellOrder` of bid_ask.hpp up to the end of their loops. They differ in the
-- side of the book, the direction of the price test and the currency of the deltas, so one text
-- with the side as its first argument stands for both.
use naoto_exchange.Common.{
  ℕ, suc, ◌-◌, List, [], ◌∷◌, Bool, ◌==◌, ◌&&◌, if◌then◌else◌, ℤ, pos, neg, ◌+ℤ◌, ◌*ℤ◌, ltb_ℤ, ltb,
}
use naoto_exchange.Wire.{Order, OrderSide, OrderState, fill, partial_fill, buy, sell, opposite}
use naoto_exchange.Matching.Level.{
  OrderNode, PriceLevel, get_id, set_amount, is_empty, dec_total_amount,
}
use naoto_exchange.Matching.Book.{Book}
use naoto_exchange.Matching.BidAsk.{BidAsk, is_marketable, emit_report, emit_update}
use naoto_exchange.HashMap.{delete_node}

-- The locals of the two functions, beside the engine. While the loops run, the levels of the
-- opposite side are an argument of theirs.
pub record Filling : Type 0 where
  pub order : Order
  pub total_locked : ℤ
  pub engine : BidAsk

-- What each side of a trade gets: the buyer the asset for cash (asset 0), the seller the reverse.
unfoldable pub bought_by : OrderSide → ℕ → ℤ → ℤ
bought_by buy traded price = pos traded
bought_by sell traded price = traded *ℤ price

unfoldable pub sold_by : OrderSide → ℕ → ℤ → ℤ
sold_by buy traded price = neg (traded *ℤ price)
sold_by sell traded price = neg (pos traded)

abbrev pub bought_asset : OrderSide → ℕ → ℕ
bought_asset buy asset = asset
bought_asset sell asset = 0

abbrev pub sold_asset : OrderSide → ℕ → ℕ
sold_asset buy asset = 0
sold_asset sell asset = asset

abbrev pub fill_state : ℕ → OrderState
fill_state left = if ltb 0 left then partial_fill else fill

-- The report of one party to a trade, with the amount that is left of its order.
unfoldable pub trade_report : OrderSide → ℕ → ℤ → ℕ → ℕ → ℕ → BidAsk → BidAsk
unfolding bought_by sold_by emit_report
trade_report s traded price client id left e =
    emit_report (bought_by s traded price) (sold_by s traded price) (sold_by s traded price) client
      id (bought_asset s e.market_asset_id) (sold_asset s e.market_asset_id) (fill_state left) e

-- `BestAskPrice = bestLevel->GetKey()` when buying, `BestBidPrice` when selling.
unfoldable pub set_best_price : OrderSide → ℤ → BidAsk → BidAsk
set_best_price buy p e = record e { best_ask_price = p }
set_best_price sell p e = record e { best_bid_price = p }

-- `BestAskPrice > order.Price` when buying, `BestBidPrice < order.Price` when selling.
abbrev pub is_worse : OrderSide → ℤ → ℤ → Bool
is_worse buy best price = ltb_ℤ price best
is_worse sell best price = ltb_ℤ best price

abbrev pub traded_amount : ℕ → ℕ → ℕ
traded_amount order offer = if ltb order offer then order else offer

-- One turn of the inner loop, up to the deletion of an offer that is used up: the new level, with
-- the orders behind the best offer, and the new locals.
unfoldable pub trade : OrderSide → OrderNode → PriceLevel → Filling → Filling
unfolding trade_report emit_update
trade s offer l f =
    let traded = traded_amount f.order.amount offer.order.amount in
    let order_left = f.order.amount - traded in
    let offer_left = offer.order.amount - traded in
    let priced = record (f.engine) {
      market_price = if ltb 0 traded then offer.order.price else f.engine.market_price;
    } in
    let reported =
      trade_report s traded l.price f.order.client_id f.order.order_id order_left priced in
    let both =
      trade_report (opposite s) traded l.price offer.order.client_id (get_id offer) offer_left
        reported in
    record {
      order = record (f.order) { amount = order_left };
      total_locked = f.total_locked +ℤ sold_by s traded l.price;
      engine = emit_update (dec_total_amount traded l).total_amount l.price (opposite s) both;
    }

-- The offer is used up: it leaves the order map and goes back to the node pool.
unfoldable pub delete_offer : OrderNode → Filling → Filling
unfolding delete_node
delete_offer offer f = record f {
  engine = record (f.engine) {
    order_map = delete_node (get_id offer) f.engine.order_map;
    node_pool = offer.addr ∷ f.engine.node_pool;
  };
}

-- The inner loop, from `bestOffer` on. An offer that is left over ends it, because then the order is
-- filled: the traded amount is the smaller of the two.
unfoldable pub fill_level : OrderSide → List OrderNode → PriceLevel → Filling → PriceLevel × Filling
fill_level s [] l f = (record l { orders = [] }, f)
fill_level s (offer ∷ rest) l f =
    let traded = traded_amount f.order.amount offer.order.amount in
    let offer_left = offer.order.amount - traded in
    let l' = dec_total_amount traded l in
    let f' = trade s offer l f in
    let next = fill_level s rest l' (delete_offer offer f') in
    if ltb 0 f.order.amount && is_marketable f.engine f.order
    then (if offer_left == 0
        then next
        else (record l' { orders = set_amount offer_left offer ∷ rest }, f'))
    else (record l { orders = offer ∷ rest }, f)

abbrev pub free_level : Filling → Filling
free_level f = record f { engine = record (f.engine) { level_pool = suc f.engine.level_pool } }

-- The outer loop over the levels of the opposite side. A level whose last order went is removed and
-- goes back to its pool; a level that is left over ends the loop, since then the order is filled.
unfoldable pub fill_levels : OrderSide → Book → Filling → Book × Filling
fill_levels s [] f = ([], f)
fill_levels s (l ∷ ls) f =
    let best = record f { engine = set_best_price s l.price f.engine } in
    let done = fill_level s l.orders l best in
    let next = fill_levels s ls (free_level done.1) in
    if ltb 0 f.order.amount && is_marketable f.engine f.order
    then (if is_empty l
        then (l ∷ ls, f)
        else (if is_worse s l.price f.order.price
            then (l ∷ ls, best)
            else (if is_empty done.0 then next else (done.0 ∷ ls, done.1))))
    else (l ∷ ls, f)
