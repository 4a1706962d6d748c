-- ===== src/Account/Requests.antt =====
-- market_server/account_service/src/client_request_processor.cpp: the answers to the gateways' requests.
-- The pool of answers never runs out. The hash function is a parameter.
pub mod Disclosure
use naoto_exchange.Common.{
  ℕ, List, [], ◌∷◌, Bool, not, Option, none, some, ◌==◌, ◌&&◌, if◌then◌else◌, ℤ, pos, eqb_ℤ,
}
use naoto_exchange.Wire.{ClientAccountSnapshot, RoutedAuthRequest}
use naoto_exchange.Account.Client.{Key, ClientState, check_key}
use naoto_exchange.Account.Buffer.{Slot, get_client_state}

-- The characters of requests and answers: 'A', 'C', 'R'.
abbrev pub char_a : ℕ
char_a = 65

abbrev pub char_c : ℕ
char_c = 67

abbrev pub char_r : ℕ
char_r = 82

-- `RoutedMessage<ClientAccountSnapshot>`
pub record AccountResponse : Type 0 where
  pub gateway_id : ℕ
  pub message : ClientAccountSnapshot

-- `Clear` and the fields that a refusal sets.
abbrev pub refusal : ℕ → RoutedAuthRequest → ClientAccountSnapshot
refusal status q = record {
  status = status;
  sequence_id = 0;
  client_id = q.client_id;
  client_fd = q.client_fd;
  asset_id = λ i. 0;
  confirmed = λ i. pos 0;
  attempt = λ i. pos 0;
}

abbrev pub details : ClientState → RoutedAuthRequest → ClientAccountSnapshot
details c q = record {
  status = char_a;
  sequence_id = 0;
  client_id = q.client_id;
  client_fd = q.client_fd;
  asset_id = c.asset_id;
  confirmed = c.confirmed;
  attempt = c.attempt;
}

-- The hardcoded gateway 10 may ask for any client.
abbrev pub is_unauthorized : ClientState → RoutedAuthRequest → Bool
is_unauthorized c q = not (eqb_ℤ c.authorized (pos q.gateway_id)) && not (q.gateway_id == 10)

-- The answer to one request for a client's details.
unfoldable pub answer_details :
    (Key → Key) → ClientState → RoutedAuthRequest → ClientAccountSnapshot
unfolding check_key
answer_details sha256 c q =
    if is_unauthorized c q
    then refusal char_r q
    else (if check_key sha256 q.key c then details c q else refusal char_c q)

-- The body of the loop of `ProcessMessage`: a request of another kind gets no answer.
unfoldable pub answer : (Key → Key) → ClientState → RoutedAuthRequest → Option AccountResponse
unfolding answer_details
answer sha256 c q =
    if q.request_type == char_a
    then some (record { gateway_id = q.gateway_id; message = answer_details sha256 c q })
    else none

abbrev pub cons_some {ℓ} : {A : Type ℓ} → Option A → List A → List A
cons_some none xs = xs
cons_some (some x) xs = x ∷ xs

-- `ProcessMessage` on a batch: what is pushed to `ResponsesSend`.
unfoldable pub process_message :
    (Key → Key) → (ℕ → Slot) → List RoutedAuthRequest → List AccountResponse
unfolding answer get_client_state
process_message sha256 states [] = []
process_message sha256 states (q ∷ qs) =
    cons_some (answer sha256 (get_client_state (states q.client_id)) q)
      (process_message sha256 states qs)
