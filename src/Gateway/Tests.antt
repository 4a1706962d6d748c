-- ===== src/Gateway/Tests.antt =====
-- A client with 1000 of cash and 5 of asset 1, and the theorems at it.
use naoto_exchange.Common.{
  int64, update, ℕ, zero, suc, List, [], ◌∷◌, ◌≡◌, refl, ℤ, pos, negsuc, ◌+ℤ◌, ◌-ℤ◌, ◌*ℤ◌,
}
use naoto_exchange.Wire.{
  ClientAccountSnapshot, Order, OrderStateReport, OrderState, limit, buy, execute,
}
use naoto_exchange.Gateway.Client.{
  ClientState, new_client_state, get_asset_idx, find_asset, clear_attempts,
}
use naoto_exchange.Gateway.Risk.{Local, check_order_risk, check_client, check_funds, sync_session}
use naoto_exchange.Gateway.Risk.Admits.{Checked, check_order_risk_admits}
use naoto_exchange.Gateway.Risk.Charges.{check_all}
use naoto_exchange.Gateway.Buffer.{new_slot, get_client_state}
use naoto_exchange.Gateway.Buffer.Spec.{Op, set_auth, set_assets, flush, view, apply_ops, spec_ops}
use naoto_exchange.Gateway.Buffer.Refines.{apply_ops_refines}
use naoto_exchange.Gateway.Writer.{Writer, handle_reports}
use naoto_exchange.Gateway.Writer.Receive.{IsSettled, account_all, new_slot-IsSettled}
use naoto_exchange.Gateway.Writer.Batch.{handle_reports_account}

abbrev ids : ℕ → ℕ
ids zero = 0
ids (suc zero) = 1
ids (suc (suc i)) = 999

abbrev funds : ℕ → ℤ
funds zero = pos 1000
funds (suc zero) = pos 5
funds (suc (suc i)) = pos 0

abbrev client : ClientState
client = record (new_client_state) {
  client_id = 7;
  asset_id = ids;
  confirmed = funds;
  auth = 1;
  session_id = 1;
}

abbrev fresh : Local
fresh = record { attempts = clear_attempts; session_id = 1 }

abbrev buy_order : ℕ → Order
buy_order amount = record {
  price = pos 100;
  order_id = 0;
  client_order_id = 0;
  client_id = 7;
  amount = amount;
  asset_id = 1;
  order_type = limit;
  side = buy;
  action = execute;
}

-- 700 of cash are locked by the first order; the second finds 300 left.
abbrev buys : List Order
buys = buy_order 7 ∷ buy_order 4 ∷ buy_order 3 ∷ []

buys_accepted : (check_all client 1 buys fresh).0 ≡ buy_order 7 ∷ buy_order 3 ∷ []
unfolding check_all check_order_risk check_client check_funds sync_session get_asset_idx find_asset
    update ◌+ℤ◌ ◌-ℤ◌ ◌*ℤ◌ int64
buys_accepted = refl

-- The order of the test `BuyLimitOrderAmountTimesPriceCanOverflowAndBypassInsufficientFunds`.
abbrev overflowing : Order
overflowing = record (buy_order 4000000000) { price = pos 3000000000 }

check_order_risk_admits_example :
    Checked client fresh (buy_order 7) 1 (check_order_risk client fresh (buy_order 7) 1)
check_order_risk_admits_example = check_order_risk_admits client fresh (buy_order 7) 1

abbrev ops : List Op
ops =
    set_assets (pos 5) (pos 0) 1
    ∷ flush
    ∷ set_assets (negsuc 99) (pos 0) 0
    ∷ set_auth 0
    ∷ flush
    ∷ []

apply_ops_refines_example :
    view (apply_ops ops (new_slot client))
    ≡ spec_ops ops (record { shown = client; pending = client })
apply_ops_refines_example = apply_ops_refines ops client

abbrev report : ℕ → OrderStateReport
report sequence = record {
  bought_delta = pos 2;
  sold_delta = negsuc 199;
  sold_attempt_delta = negsuc 199;
  sequence_id = sequence;
  client_id = 7;
  order_id = 1;
  trade_id = 0;
  bought_asset_id = 1;
  sold_asset_id = 0;
  state = OrderState.fill;
}

-- The client is number 7 at file descriptor 3.
abbrev writer : Writer
writer = record {
  states = λ fd. new_slot client;
  clients_fd = (7, 3) ∷ [];
  updates_buffer = λ i. report 0;
  last_seq = 0;
}

handle_reports_account_example :
    IsSettled ((handle_reports (report 1 ∷ report 2 ∷ []) writer).states 3)
    × (get_client_state ((handle_reports (report 1 ∷ report 2 ∷ []) writer).states 3)
        ≡ account_all
            ((7, 3) ∷ [])
            3
            (report 1 ∷ report 2 ∷ [])
            (get_client_state (new_slot client)))
handle_reports_account_example =
    handle_reports_account (report 1 ∷ report 2 ∷ []) writer 3 (new_slot-IsSettled client)

abbrev answer : ClientAccountSnapshot
answer = record {
  status = 65;
  sequence_id = 0;
  client_id = 7;
  client_fd = 3;
  asset_id = ids;
  confirmed = funds;
  attempt = λ i. pos 0;
}

-- The writer has seen a report on the client since the answer's.
abbrev late : Writer
late = record writer { last_seq = 1; updates_buffer = λ i. record (report i) { sequence_id = i } }
