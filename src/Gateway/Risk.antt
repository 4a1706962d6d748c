-- ===== src/Gateway/Risk.antt =====
-- market_server/order_gateway/include/order_risk_check.hpp and order_confirmation.hpp: whether an
-- order is admitted, given the client's state and what the router admitted since that state.
pub mod Admits
pub mod Charges
use naoto_exchange.Common.{
  update, ℕ, none, some, ◌==◌, if◌then◌else◌, ℤ, pos, ◌+ℤ◌, ◌-ℤ◌, ◌*ℤ◌, int64, ltb_ℤ, leb,
}
use naoto_exchange.Wire.{Order, buy, sell}
use naoto_exchange.Gateway.Client.{
  ClientState, LocalAttempts, clear_attempts, get_asset_idx, max_assets,
}

pub data OrderConfirmationStatus : Type 0 where
  accepted insufficient_funds max_positions invalid_price invalid_quantity : OrderConfirmationStatus
  unknown_symbol technical_failure user_not_connected bad_client_id : OrderConfirmationStatus

-- The router's entries for one file descriptor: `LocalAttempt[fd]` and `LocalSessionId[fd]`.
pub record Local : Type 0 where
  pub attempts : LocalAttempts
  pub session_id : ℕ

-- What an order locks: `Amount` of the asset when it sells, what an `int64_t` makes of `Amount * Price`
-- of cash when it buys.
abbrev pub order_asset : Order → ℕ
order_asset o = elim o.side [ buy ↦ 0 | sell ↦ o.asset_id ]

abbrev pub locked_amount : Order → ℤ
locked_amount o = elim o.side [ buy ↦ int64 (o.amount *ℤ o.price) | sell ↦ pos o.amount ]

-- The attempts of an older session are dropped.
unfoldable pub sync_session : ClientState → Local → Local
sync_session c l =
    if c.session_id == l.session_id
    then l
    else record { attempts = clear_attempts; session_id = c.session_id }

-- The check of the funds of one position.
unfoldable pub check_funds : ClientState → Order → ℕ → Local → OrderConfirmationStatus × Local
unfolding update
check_funds c o i l =
    let attempt = c.attempt i +ℤ l.attempts i in
    let amount = locked_amount o in
    if ltb_ℤ (c.confirmed i -ℤ attempt) amount
    then (insufficient_funds, l)
    else (accepted, record l { attempts = update i (l.attempts i +ℤ amount) l.attempts })

unfoldable pub check_client : ClientState → Order → Local → OrderConfirmationStatus × Local
unfolding check_funds get_asset_idx
check_client c o l =
    if c.client_id == o.client_id
    then (elim (get_asset_idx c (order_asset o)) [
      | none ↦ (if leb max_assets (order_asset o) then unknown_symbol else max_positions, l)
      | some i ↦ check_funds c o i l
    ])
    else (bad_client_id, l)

-- `CheckOrderRisk`
unfoldable pub check_order_risk : ClientState → Local → Order → ℕ → OrderConfirmationStatus × Local
unfolding sync_session check_client
check_order_risk c l o auth =
    if auth == 0 then (user_not_connected, l) else check_client c o (sync_session c l)
