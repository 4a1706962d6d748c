-- ===== src/Login/Tests.antt =====
-- A client that logs in with a wrong key, and the theorems at it.
use naoto_exchange.Common.{ℕ, ◌+◌, [], ◌∷◌, ◌≡◌, refl, pos, arith}
use naoto_exchange.Wire.{OrderStateReport, OrderState, RoutedAuthRequest}
use naoto_exchange.Account
use naoto_exchange.Account.Client.{Key}
use naoto_exchange.Gateway.Client.{new_client_state}
use naoto_exchange.Gateway.Buffer.{new_slot, get_client_state}
use naoto_exchange.Gateway.Writer.{Writer, handle_responses}
use naoto_exchange.Gateway.Writer.Receive.{IsSettled, new_slot-IsSettled}
use naoto_exchange.Login.{answers, Shown, login_shows, answers_dropped}

abbrev hash : Key → Key
hash k i = k i + 1

abbrev states : ℕ → Account.Buffer.Slot
states i = Account.Buffer.new_slot (Account.Client.new_client_state 7 (pos 1000) (pos 0))

abbrev request : RoutedAuthRequest
request = record { request_type = 65; client_id = 7; client_fd = 3; gateway_id = 10; key = λ i. 3 }

abbrev report : ℕ → OrderStateReport
report sequence = record {
  bought_delta = pos 2;
  sold_delta = pos 0;
  sold_attempt_delta = pos 0;
  sequence_id = sequence;
  client_id = 8;
  order_id = 1;
  trade_id = 0;
  bought_asset_id = 1;
  sold_asset_id = 0;
  state = OrderState.fill;
}

abbrev writer : ℕ → Writer
writer last = record {
  states = λ fd. new_slot new_client_state;
  clients_fd = [];
  updates_buffer = λ i. report last;
  last_seq = last;
}

login_shows_example :
    IsSettled ((handle_responses (answers hash states (request ∷ [])) (writer 0)).states 3)
    × Shown hash (Account.Buffer.get_client_state (states 7)) request (
        get_client_state
          ((handle_responses (answers hash states (request ∷ [])) (writer 0)).states 3))
login_shows_example =
    login_shows hash states request (writer 0) refl refl (new_slot-IsSettled new_client_state)

answers_dropped_example :
    handle_responses (answers hash states (request ∷ [])) (writer 8192) ≡ writer 8192
answers_dropped_example =
    answers_dropped hash states (request ∷ []) (writer 8192) (λ e. omega (arith, e))
      (λ e. omega (arith, e))
