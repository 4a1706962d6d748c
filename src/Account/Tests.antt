-- ===== src/Account/Tests.antt =====
-- A client with 1000 of cash, and the theorems at it.
use naoto_exchange.Common.{ℕ, ◌+◌, ap, zero, suc, List, [], ◌∷◌, ◌≡◌, pos, negsuc}
use naoto_exchange.Wire.{OrderStateReport, OrderState, RoutedAuthRequest}
use naoto_exchange.Batch
use naoto_exchange.Account.Client.{Key, ClientState, new_client_state}
use naoto_exchange.Account.Buffer.{Slot, new_slot}
use naoto_exchange.Account.Buffer.Spec.{Op, set_state, set_assets, flush, view, apply_ops, spec_ops}
use naoto_exchange.Account.Buffer.Refines.{account_ops_refines, new_slot-IsSynced, view-new_slot}
use naoto_exchange.Account.Writer.{handle_reports}
use naoto_exchange.Account.Writer.Batch.{slot_buffer, client_of, account_reports_lem}
use naoto_exchange.Account.Requests.{process_message}
use naoto_exchange.Account.Requests.Disclosure.{Answers, process_message-Answers}

abbrev ids : ℕ → ℕ
ids zero = 0
ids (suc zero) = 1
ids (suc (suc i)) = 999

abbrev client : ClientState
client = record (new_client_state 7 (pos 1000) (pos 0)) { asset_id = ids; authorized = pos 2 }

-- A hash of each byte, for the tests.
abbrev hash : Key → Key
hash k i = k i + 1

abbrev key : Key
key i = 3

abbrev stored : Key
stored i = 4

abbrev ops : List Op
ops =
    set_assets (pos 5) (pos 0) 1 11
    ∷ flush
    ∷ set_state (record client { authorized = pos 3 }) 12
    ∷ set_assets (negsuc 99) (pos 0) 0 13
    ∷ flush
    ∷ []

account_ops_refines_example :
    view (apply_ops ops (new_slot client))
    ≡ spec_ops ops (record { shown = (client, 0); pending = (client, 0) })
account_ops_refines_example = account_ops_refines ops client

abbrev report : ℕ → OrderStateReport
report sequence = record {
  bought_delta = pos 2;
  sold_delta = negsuc 199;
  sold_attempt_delta = negsuc 199;
  sequence_id = sequence;
  client_id = 7;
  order_id = 1;
  trade_id = 0;
  bought_asset_id = 1;
  sold_asset_id = 0;
  state = OrderState.fill;
}

abbrev reports : List OrderStateReport
reports = report 1 ∷ record (report 2) { client_id = 6 } ∷ report 3 ∷ []

abbrev states : ℕ → Slot
states i = new_slot (record client { key = stored })

settled : Batch.IsSettled slot_buffer client_of (states 7)
unfolding view new_slot
settled = (new_slot-IsSynced _, ap (λ v. v.pending) (view-new_slot _))

account_reports_lem_example :
    Batch.IsSettled slot_buffer client_of (handle_reports reports states 7)
    × ((view (handle_reports reports states 7)).shown
        ≡ Batch.account_all slot_buffer client_of 7 reports (view (states 7)).shown)
account_reports_lem_example = account_reports_lem reports states 7 settled

abbrev request : ℕ → ℕ → RoutedAuthRequest
request client_id gateway_id = record {
  request_type = 65;
  client_fd = 3;
  client_id = client_id;
  gateway_id = gateway_id;
  key = key;
}

-- Gateway 2 is the client's, gateway 4 is not.
abbrev requests : List RoutedAuthRequest
requests = request 7 2 ∷ record (request 7 2) { request_type = 68 } ∷ request 7 4 ∷ []

process_message-Answers_example :
    Answers hash states requests (process_message hash states requests)
process_message-Answers_example = process_message-Answers hash states requests
