-- ===== src/Wire.antt =====
-- market_server/common/include/order.hpp, order_state_report.hpp, order_book_update.hpp,
-- client_account_snapshot.hpp and routed_auth_request.hpp: the messages that the services exchange,
-- in the build without NAOTO_PERF (no timestamps).
use naoto_exchange.Common.{ℕ, ℤ, ◌%◌, ◌^◌}

pub data OrderType : Type 0 where
  limit market : OrderType

pub data OrderSide : Type 0 where
  buy sell : OrderSide

pub data OrderAction : Type 0 where
  execute cancel : OrderAction

-- `Padding` carries nothing.
pub record Order : Type 0 where
  pub price : ℤ
  pub order_id : ℕ
  pub client_order_id : ℕ
  pub client_id : ℕ
  pub amount : ℕ
  pub asset_id : ℕ
  pub order_type : OrderType
  pub side : OrderSide
  pub action : OrderAction

pub data OrderState : Type 0 where
  fill partial_fill cancel reject add : OrderState

pub record OrderStateReport : Type 0 where
  pub bought_delta : ℤ
  pub sold_delta : ℤ
  pub sold_attempt_delta : ℤ
  pub sequence_id : ℕ
  pub client_id : ℕ
  pub order_id : ℕ
  pub trade_id : ℕ
  pub bought_asset_id : ℕ
  pub sold_asset_id : ℕ
  pub state : OrderState

pub record OrderBookUpdate : Type 0 where
  pub price : ℤ
  pub sequence_id : ℕ
  pub depth : ℕ
  pub asset_id : ℕ
  pub side : OrderSide

-- `ClientAccountSnapshot`, the account service's answer. `Status` is a character. The arrays of
-- positions are functions of the index.
pub record ClientAccountSnapshot : Type 0 where
  pub status : ℕ
  pub sequence_id : ℕ
  pub client_id : ℕ
  pub client_fd : ℕ
  pub asset_id : ℕ → ℕ
  pub confirmed : ℕ → ℤ
  pub attempt : ℕ → ℤ

-- `RoutedAuthRequest`. `RequestType` is a character.
pub record RoutedAuthRequest : Type 0 where
  pub request_type : ℕ
  pub client_id : ℕ
  pub client_fd : ℕ
  pub gateway_id : ℕ
  pub key : ℕ → ℕ

-- Conversion of an unsigned value to `uint16_t`, `uint32_t` and `uint64_t`.
abbrev pub u16 : ℕ → ℕ
u16 n = n % 2 ^ 16

abbrev pub u32 : ℕ → ℕ
u32 n = n % 2 ^ 32

abbrev pub u64 : ℕ → ℕ
u64 n = n % 2 ^ 64

-- `OrderStateReport::FillReport`: the parameters are narrower than what some callers pass.
unfoldable pub fill_report : ℤ → ℤ → ℤ → ℕ → ℕ → ℕ → ℕ → ℕ → ℕ → OrderState → OrderStateReport
fill_report bought sold attempt sequence client order trade bought_asset sold_asset state = record {
  bought_delta = bought;
  sold_delta = sold;
  sold_attempt_delta = attempt;
  sequence_id = u32 sequence;
  client_id = u32 client;
  order_id = u32 order;
  trade_id = u32 trade;
  bought_asset_id = u16 bought_asset;
  sold_asset_id = u16 sold_asset;
  state = state;
}

-- `OrderBookUpdate::FillUpdate`
unfoldable pub fill_update : ℕ → ℕ → ℤ → ℕ → OrderSide → OrderBookUpdate
fill_update sequence depth price asset side = record {
  price = price;
  sequence_id = u32 sequence;
  depth = u32 depth;
  asset_id = u16 asset;
  side = side;
}

abbrev pub opposite : OrderSide → OrderSide
opposite buy = sell
opposite sell = buy
