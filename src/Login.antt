-- ===== src/Login.antt =====
-- A login across the services: the account service's answer to a request, handled by the gateway that
-- asked. The definitions are those of Account/Requests and Gateway/Writer.
mod Tests
use naoto_exchange.Common.{
  ℕ, suc, ◌-◌, List, [], ◌∷◌, Bool, true, false, ◌==◌, ◌&&◌, not, ◌≡◌, ◌≢◌, refl, ap, sym, ◌∙◌,
  subst, map, ℤ, pos, arith, All, inl, inr, Bool-cases, if◌then◌else◌,
}
use naoto_exchange.Wire.{ClientAccountSnapshot, RoutedAuthRequest, OrderStateReport}
use naoto_exchange.Account
use naoto_exchange.Account.Client.{Key}
use naoto_exchange.Account.Requests.{
  AccountResponse, char_a, refusal, details, answer_details, answer, process_message, cons_some,
}
use naoto_exchange.Account.Requests.Disclosure.{
  IsEntitled, IsAnswer, disclosed, refused, answer_details-IsAnswer,
}
use naoto_exchange.Gateway.Client.{ClientState}
use naoto_exchange.Gateway.Buffer.{get_client_state}
use naoto_exchange.Gateway.Buffer.Spec.{become}
use naoto_exchange.Gateway.Writer.{
  Writer, buffer_index, is_stale, catch_up, handle_response, handle_responses,
}
use naoto_exchange.Gateway.Writer.Receive.{IsSettled}
use naoto_exchange.Gateway.Writer.Answers.{updated, handle_response_shows}

-- The answers to a batch of requests that come from one gateway, as it receives them.
abbrev pub answers :
    (Key → Key) → (ℕ → Account.Buffer.Slot) → List RoutedAuthRequest → List ClientAccountSnapshot
answers sha256 states qs =
    map (λ (r : AccountResponse). r.message) (process_message sha256 states qs)

-- What the gateway shows of a client that asked to log in.
pub record Shown (sha256 : Key → Key) (c : Account.Client.ClientState) (q : RoutedAuthRequest)
    (s : ClientState) : Type 0 where
  pub client : s.client_id ≡ q.client_id
  pub authenticated : s.auth ≡ 1
  pub entitled :
      IsEntitled sha256 c q
      → (s.asset_id ≡ c.asset_id) × (s.confirmed ≡ c.confirmed) × (s.attempt ≡ c.attempt)
  pub not_entitled :
      ¬ (IsEntitled sha256 c q) → (i : ℕ) → (s.confirmed i ≡ pos 0) × (s.attempt i ≡ pos 0)

become-Shown :
    (sha256 : Key → Key) (c : Account.Client.ClientState) (q : RoutedAuthRequest)
    (m : ClientAccountSnapshot) (old : ClientState)
    → IsAnswer sha256 c q m
    → Shown sha256 c q (become m old)
become-Shown sha256 c q m old (disclosed e) = record {
  client = refl;
  authenticated = refl;
  entitled = λ k. (refl, refl, refl);
  not_entitled = λ k. absurd (k e);
}
become-Shown sha256 c q m old (refused status n k) = record {
  client = refl;
  authenticated = refl;
  entitled = λ e. absurd (k e);
  not_entitled = λ e i. (refl, refl);
}

fields :
    (sha256 : Key → Key) (c : Account.Client.ClientState) (q : RoutedAuthRequest)
    (m : ClientAccountSnapshot)
    → IsAnswer sha256 c q m
    → (m.sequence_id ≡ 0) × (m.client_fd ≡ q.client_fd)
fields sha256 c q m (disclosed e) = (refl, refl)
fields sha256 c q m (refused status n k) = (refl, refl)

nothing_missed : (m : ClientAccountSnapshot) (w : Writer) → w.last_seq ≡ 0 → updated m w ≡ m
unfolding catch_up
nothing_missed m w h = let e : w.last_seq - m.sequence_id ≡ 0 = omega (arith, h) in rw e refl

answers_one :
    (sha256 : Key → Key) (states : ℕ → Account.Buffer.Slot) (q : RoutedAuthRequest)
    → q.request_type ≡ char_a
    → answers sha256 states (q ∷ [])
      ≡ answer_details sha256 (Account.Buffer.get_client_state (states q.client_id)) q ∷ []
unfolding process_message answer
answers_one sha256 states q a =
    let t : (q.request_type == char_a) ≡ true = ground (arith, a) in rw t refl

fresh_answer :
    (m : ClientAccountSnapshot) (w : Writer)
    → m.sequence_id ≡ 0
    → w.last_seq ≡ 0
    → is_stale m w ≡ false
fresh_answer m w e h = ground (arith, e, h)

stale_answer :
    (m : ClientAccountSnapshot) (w : Writer)
    → m.sequence_id ≡ 0
    → w.last_seq ≢ 0
    → (w.updates_buffer 0).sequence_id ≢ 0
    → is_stale m w ≡ true
stale_answer m w e n k = rw e (ground (arith, n, k))

answer_shows :
    (sha256 : Key → Key) (c : Account.Client.ClientState) (q : RoutedAuthRequest)
    (m : ClientAccountSnapshot) (w : Writer)
    → IsAnswer sha256 c q m
    → w.last_seq ≡ 0
    → IsSettled (w.states q.client_fd)
    → let s = (handle_response m w).states q.client_fd in
      IsSettled s × Shown sha256 c q (get_client_state s)
answer_shows sha256 c q m w i h s =
    let f = fields sha256 c q m i in
    let r =
      handle_response_shows m w (fresh_answer m w f.0 h)
        (subst (λ d. IsSettled (w.states d)) (sym f.1) s) in
    let old = get_client_state (w.states m.client_fd) in
    let e = r.1 ∙ ap (λ n. become n old) (nothing_missed m w h) in
    subst
      (λ d.
        IsSettled ((handle_response m w).states d)
        × Shown sha256 c q (get_client_state ((handle_response m w).states d)))
      f.1 (r.0, subst (Shown sha256 c q) (sym e) (become-Shown sha256 c q m old i))

-- At a gateway that has seen no report after the first, after the answer to a request for details the
-- slot of the client's descriptor is settled, and shows the client as authenticated, whether it
-- was entitled or not: with the account's assets, balances and attempts if it was, with
-- none otherwise.
pub login_shows :
    (sha256 : Key → Key) (states : ℕ → Account.Buffer.Slot) (q : RoutedAuthRequest) (w : Writer)
    → q.request_type ≡ char_a
    → w.last_seq ≡ 0
    → IsSettled (w.states q.client_fd)
    → let s = (handle_responses (answers sha256 states (q ∷ [])) w).states q.client_fd in
      IsSettled s
      × Shown sha256 (Account.Buffer.get_client_state (states q.client_id)) q (get_client_state s)
unfolding handle_responses
login_shows sha256 states q w a h s =
    let c = Account.Buffer.get_client_state (states q.client_id) in
    let m = answer_details sha256 c q in
    rw (answers_one sha256 states q a)
      (answer_shows sha256 c q m w (answer_details-IsAnswer sha256 c q) h s)

dropped :
    (m : ClientAccountSnapshot) (w : Writer) (ms : List ClientAccountSnapshot)
    → is_stale m w ≡ true
    → handle_responses ms w ≡ w
    → handle_responses (m ∷ ms) w ≡ w
unfolding handle_responses handle_response
dropped m w ms e h = rw (e, handle_response) h

-- Once the gateway has seen a later report, and one has taken the place of the first in its buffer, every
-- answer of the account service is dropped: nothing changes, whatever the requests.
pub answers_dropped :
    (sha256 : Key → Key) (states : ℕ → Account.Buffer.Slot) (qs : List RoutedAuthRequest)
    (w : Writer)
    → w.last_seq ≢ 0
    → (w.updates_buffer 0).sequence_id ≢ 0
    → handle_responses (answers sha256 states qs) w ≡ w
unfolding process_message answer handle_responses
answers_dropped sha256 states [] w n k = refl
answers_dropped sha256 states (q ∷ qs) w n k =
    let c = Account.Buffer.get_client_state (states q.client_id) in
    let m = answer_details sha256 c q in
    let f = fields sha256 c q m (answer_details-IsAnswer sha256 c q) in
    let rest = answers_dropped sha256 states qs w n k in
    elim (Bool-cases (q.request_type == char_a)) [
      | inl t ↦ rw t (dropped m w (answers sha256 states qs) (stale_answer m w f.0 n k) rest)
      | inr t ↦ rw t rest
    ]
