-- ===== src/Matching/BidAsk/Priority.antt =====
-- Price-time priority: what the fill loops take of the other side's queue of resting orders.
use naoto_exchange.Common.{◌+◌, ◌≡◌, refl, sym, ap, ◌∙◌, subst, arith}
use naoto_exchange.Wire.{OrderSide, buy, sell, opposite}
use naoto_exchange.Matching.Book.{Book}
use naoto_exchange.Matching.Book.Sorted.{IsSorted, IsLive}
use naoto_exchange.Matching.BidAsk.Fill.{Filling, fill_level, fill_levels, free_level}
use naoto_exchange.Matching.BidAsk.Loops.{at_level, fill_levels_ind}
use naoto_exchange.Matching.BidAsk.Frame.{fill_level_end}
use naoto_exchange.Matching.BidAsk.Sweep.{marketable-at_level, best_price-freed, AtLeast-IsBetter}
use naoto_exchange.Matching.BidAsk.Hold.{Bounds, best_price, level-Holds}
use naoto_exchange.Wire.{Order}
use naoto_exchange.Matching.Resting.{
  resting, within, beyond, after_taking, total_of, total_of-append, total_of-after_taking,
  within-beyond,
}
use naoto_exchange.Matching.BidAsk.{BidAsk}
use naoto_exchange.Matching.BidAsk.Handlers.{book_of, start_filling}
use naoto_exchange.Matching.BidAsk.Sides.{IsValid}
use naoto_exchange.Matching.BidAsk.Matched.{
  fill_level-orders, Matched, worse-Matched, part-Matched, used-Matched, is_empty→nil, stop-Matched,
}

-- If the other side is sorted with no empty level and its cached best price is not behind it, then
-- the loops trade with the orders within the order's price, in price-time priority: they take the
-- order's amount from the front of those, leave all others as they were, and leave of the order what
-- those could not fill.
pub fill_levels-Matched :
    (s : OrderSide) (b : Book) (f : Filling)
    → f.order.side ≡ s
    → IsSorted (opposite s) b
    → IsLive b
    → Bounds (opposite s) (best_price (opposite s) f.engine) b
    → Matched s b f (fill_levels s b f)
fill_levels-Matched s =
    fill_levels_ind s
      (λ b f r.
        f.order.side ≡ s
        → IsSorted (opposite s) b
        → IsLive b
        → Bounds (opposite s) (best_price (opposite s) f.engine) b
        → Matched s b f r)
      (λ f side h live a. record { rest = refl; left = omega arith })
      (λ l ls f halt side h live a. stop-Matched s l ls f halt side a)
      (λ l ls f go e side h live a. absurd (ground arith))
      (λ l ls f go e w side h live a. worse-Matched s l ls f (at_level s l f) w refl)
      (λ l ls f go w more side h live a.
        let m = marketable-at_level s l f side w in
        let o = fill_level-orders s l.orders l (at_level s l f) m in
        part-Matched s l (fill_level s l.orders l (at_level s l f)).0 ls f
          (fill_level s l.orders l (at_level s l f)).1 w o.0 o.1
          (fill_level_end s l.orders l (at_level s l f) m more))
      (λ l ls f q go w none_left ih side h live a.
        let o =
          fill_level-orders s l.orders l (at_level s l f) (marketable-at_level s l f side w) in
        let kept = level-Holds s l f in
        used-Matched s l ls f (free_level (fill_level s l.orders l (at_level s l f)).1) q w
          (sym (is_empty→nil (fill_level s l.orders l (at_level s l f)).0 none_left) ∙ o.0) o.1
          kept.price
          (ih (kept.side ∙ side) h.1 live.1 (
            subst (λ p. Bounds (opposite s) p ls) (sym (best_price-freed s l f))
              (AtLeast-IsBetter (opposite s) l.price ls h.0))))

-- In a valid engine the loops of `FillBuyOrder` and `FillSellOrder` trade in price-time priority: of
-- the other side's resting orders they take the order's amount from the front of those within its
-- price, leave all others as they were, and leave of the order what those could not fill.
pub fill_order_priority :
    (o : Order) (e : BidAsk)
    → IsValid e
    → let s = o.side in
      let book = book_of (opposite s) e in
      Matched s book (start_filling s o e) (fill_levels s book (start_filling s o e))
fill_order_priority o e v = go o.side refl
  where
    go :
        (s : OrderSide)
        → o.side ≡ s
        → Matched s
            (book_of (opposite s) e)
            (start_filling s o e)
            (fill_levels s (book_of (opposite s) e) (start_filling s o e))
    go buy side =
        fill_levels-Matched buy e.ask (start_filling buy o e) side v.asks.sorted v.asks.live
          v.asks.bounded
    go sell side =
        fill_levels-Matched sell e.bid (start_filling sell o e) side v.bids.sorted v.bids.live
          v.bids.bounded

-- In a valid engine what the loops take off the order is what they take off the other side's resting
-- orders.
pub fill_order_conserves :
    (o : Order) (e : BidAsk)
    → IsValid e
    → let s = o.side in
      let book = book_of (opposite s) e in
      let r = fill_levels s book (start_filling s o e) in
      total_of (resting book) + r.1.order.amount ≡ total_of (resting r.0) + o.amount
fill_order_conserves o e v =
    let s = o.side in
    let book = book_of (opposite s) e in
    let m = fill_order_priority o e v in
    omega (
      arith,
      m.left,
      ap total_of m.rest,
      ap total_of (within-beyond s o.price book),
      total_of-append (within s o.price book) (beyond s o.price book),
      total_of-append (after_taking o.amount (within s o.price book)) (beyond s o.price book),
      total_of-after_taking o.amount (within s o.price book),
    )
