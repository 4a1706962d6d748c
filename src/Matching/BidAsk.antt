-- ===== src/Matching/BidAsk.antt =====
-- market_server/matching_engine/include/bid_ask.hpp: the state of the matching thread and the
-- handlers that `MarketExecutionLoop` calls. What the pools and the outgoing queues do, which the emitter
-- threads empty, is given: for each report and update, whether there is an object and room for it.
pub mod Fill
pub mod Cancel
pub mod Emits
pub mod Reports
pub mod Matched
pub mod Priority
pub mod Hold
pub mod Sweep
pub mod Sides
pub mod Uncrossed
pub mod Loops
pub mod Frame
pub mod Handlers
use naoto_exchange.Common.{
  ℕ, zero, suc, ◌+◌, List, [], ◌∷◌, ◌++◌, Option, none, some, Bool, true, false, ◌==◌, ◌||◌,
  if◌then◌else◌, ℤ, pos, neg, ltb_ℤ, leb_ℤ, ltb,
}
use naoto_exchange.Wire.{
  Order, OrderType, OrderSide, OrderState, OrderStateReport, OrderBookUpdate, limit, market, buy,
  sell, u32, fill_report, fill_update,
}
use naoto_exchange.Matching.Level.{OrderNode, PriceLevel}
use naoto_exchange.Matching.Book.{Book}

-- What one report finds: an object of the pool and room in the queue, a full queue, or a drained pool.
pub data Find : Type 0 where
  room full drained : Find

-- A pool with its outgoing queue: what was queued; what the next objects find, those after them room;
-- and whether an object was written through the null pointer of a drained pool: then the process has ended
-- there, and what the engine would do after it does not happen.
pub record Outgoing (A : Type 0) : Type 0 where
  pub queued : List A
  pub finds : List Find
  pub crashed : Bool

abbrev push_found : {A : Type 0} → A → Outgoing A → List Find → Outgoing A
push_found a q [] = record q { queued = q.queued ++ a ∷ [] }
push_found a q (room ∷ fs) = record q { queued = q.queued ++ a ∷ []; finds = fs }
push_found a q (full ∷ fs) = record q { finds = fs }
push_found a q (drained ∷ fs) = record q { finds = fs; crashed = true }

-- `Acquire`, and `TryPush`, whose result the engine does not look at.
unfoldable pub push : {A : Type 0} → A → Outgoing A → Outgoing A
push a q = push_found a q q.finds

abbrev wait_until : List Find → List Find
wait_until (full ∷ fs) = room ∷ fs
wait_until fs = fs

-- `Push` waits for room.
unfoldable pub wait_for_room : {A : Type 0} → Outgoing A → Outgoing A
wait_for_room q = record q { finds = wait_until q.finds }

pub record BidAsk : Type 0 where
  pub market_asset_id : ℕ
  pub market_price : ℤ
  pub best_ask_price : ℤ
  pub best_bid_price : ℤ
  pub report_sequence_id : ℕ
  pub order_book_sequence_id : ℕ
  -- `OrderMap`: order ids and addresses
  pub order_map : List (ℕ × ℕ)
  -- the free addresses of `OrderNodePool`
  pub node_pool : List ℕ
  -- the number of free objects of `PriceLevelPool`
  pub level_pool : ℕ
  pub bid : Book
  pub ask : Book
  pub outgoing_orders : Outgoing OrderStateReport
  pub outgoing_book : Outgoing OrderBookUpdate

-- INT64_MAX and INT64_MIN
abbrev pub int64_max : ℤ
int64_max = pos 9223372036854775807

abbrev pub int64_min : ℤ
int64_min = ℤ.negsuc 9223372036854775807

-- The constructor, with the node pool's addresses, the level pool's size and the first sequence ids.
unfoldable pub new_bid_ask : ℕ → ℤ → ℕ → ℕ → List ℕ → ℕ → BidAsk
new_bid_ask asset price report_seq book_seq nodes levels = record {
  market_asset_id = asset;
  market_price = price;
  best_ask_price = int64_max;
  best_bid_price = int64_min;
  report_sequence_id = report_seq;
  order_book_sequence_id = book_seq;
  order_map = [];
  node_pool = nodes;
  level_pool = levels;
  bid = [];
  ask = [];
  outgoing_orders = record { queued = []; finds = []; crashed = false };
  outgoing_book = record { queued = []; finds = []; crashed = false };
}

abbrev pub is_market : OrderType → Bool
is_market market = true
is_market limit = false

abbrev pub limit_marketable : OrderSide → ℤ → BidAsk → Bool
limit_marketable buy price e = leb_ℤ e.best_ask_price price
limit_marketable sell price e = leb_ℤ price e.best_bid_price

-- `IsMarketable`
unfoldable pub is_marketable : BidAsk → Order → Bool
is_marketable e o = is_market o.order_type || limit_marketable o.side o.price e

-- Acquire a report, fill it with the next sequence id, and try to push it.
unfoldable pub emit_report : ℤ → ℤ → ℤ → ℕ → ℕ → ℕ → ℕ → OrderState → BidAsk → BidAsk
unfolding fill_report push
emit_report bought sold attempt client order bought_asset sold_asset state e = record e {
  report_sequence_id = u32 (e.report_sequence_id + 1);
  outgoing_orders =
      push
        (fill_report bought sold attempt e.report_sequence_id client order 0 bought_asset sold_asset
          state)
        e.outgoing_orders;
}

-- The next report is pushed where there is room for it, at last.
unfoldable pub await_room : BidAsk → BidAsk
unfolding wait_for_room
await_room e = record e { outgoing_orders = wait_for_room e.outgoing_orders }

unfoldable pub await_book_room : BidAsk → BidAsk
unfolding wait_for_room
await_book_room e = record e { outgoing_book = wait_for_room e.outgoing_book }

-- Acquire a book update, fill it with the next sequence id, and try to push it.
unfoldable pub emit_update : ℕ → ℤ → OrderSide → BidAsk → BidAsk
unfolding fill_update push
emit_update depth price side e = record e {
  order_book_sequence_id = u32 (e.order_book_sequence_id + 1);
  outgoing_book =
      push (fill_update e.order_book_sequence_id depth price e.market_asset_id side)
        e.outgoing_book;
}
