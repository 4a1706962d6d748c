-- ===== src/Account/Requests/Disclosure.antt =====
-- To whom an account is disclosed.
use naoto_exchange.Common.{
  ℕ, List, [], ◌∷◌, Bool, true, false, ◌==◌, ◌≡◌, ◌≢◌, ◌<◌, ◌⊎◌, inl, inr, pos, arith, eqb_ℤ,
  eqb_ℤ→eq, eq→eqb_ℤ, not, ◌&&◌, Bool-cases,
}
use naoto_exchange.Wire.{ClientAccountSnapshot, RoutedAuthRequest}
use naoto_exchange.Account.Client.{Key, ClientState, check_key}
use naoto_exchange.Account.Client.Keys.{check_key_lem}
use naoto_exchange.Account.Buffer.{Slot, get_client_state}
use naoto_exchange.Account.Requests.{
  AccountResponse, char_a, char_c, char_r, refusal, details, is_unauthorized, answer_details,
  answer, process_message,
}

-- The gateway may ask for the client, and the request holds a key with the client's hash.
pub record IsEntitled (sha256 : Key → Key) (c : ClientState) (q : RoutedAuthRequest) : Type 0 where
  pub gateway : (c.authorized ≡ pos q.gateway_id) ⊎ (q.gateway_id ≡ 10)
  pub proven : (i : ℕ) → i < 32 → sha256 q.key i ≡ c.key i

-- The answer gives the account to the entitled, and to others nothing but a refusal.
pub data IsAnswer (sha256 : Key → Key) (c : ClientState) (q : RoutedAuthRequest)
    : ClientAccountSnapshot → Type 0 where
  disclosed : IsEntitled sha256 c q → IsAnswer sha256 c q (details c q)
  refused :
      (status : ℕ)
      → status ≢ char_a
      → ¬ (IsEntitled sha256 c q)
      → IsAnswer sha256 c q (refusal status q)

not_both : (b : Bool) → b ≡ false → b ≡ true → ⊥
not_both b h k = ground arith

gateway_10 : (same : Bool) → same ≡ false → (g : ℕ) → (not same && not (g == 10)) ≡ false → g ≡ 10
gateway_10 same f g h = ground arith

may_ask :
    (c : ClientState) (q : RoutedAuthRequest)
    → is_unauthorized c q ≡ false
    → (c.authorized ≡ pos q.gateway_id) ⊎ (q.gateway_id ≡ 10)
may_ask c q h = elim (Bool-cases (eqb_ℤ c.authorized (pos q.gateway_id))) [
  | inl t ↦ inl (eqb_ℤ→eq c.authorized (pos q.gateway_id) t)
  | inr f ↦ inr (gateway_10 _ f q.gateway_id h)
]

may_not_ask :
    (c : ClientState) (q : RoutedAuthRequest)
    → is_unauthorized c q ≡ true
    → ¬ ((c.authorized ≡ pos q.gateway_id) ⊎ (q.gateway_id ≡ 10))
may_not_ask c q h (inl e) =
    not_both (eqb_ℤ c.authorized (pos q.gateway_id)) (ground arith)
      (eq→eqb_ℤ c.authorized (pos q.gateway_id) e)
may_not_ask c q h (inr e) = ground arith

pub answer_details-IsAnswer :
    (sha256 : Key → Key) (c : ClientState) (q : RoutedAuthRequest)
    → IsAnswer sha256 c q (answer_details sha256 c q)
unfolding answer_details
answer_details-IsAnswer sha256 c q = elim (Bool-cases (is_unauthorized c q)) [
  | inl t ↦ rw (t, answer_details) (refused char_r (omega arith) (λ e. may_not_ask c q t e.gateway))
  | inr t ↦ elim (Bool-cases (check_key sha256 q.key c)) [
    | inl u ↦
        rw (t, answer_details, u)
          (disclosed
            (record { gateway = may_ask c q t; proven = (check_key_lem sha256 q.key c).0 u }))
    | inr u ↦
        rw (t, answer_details, u)
          (refused char_c (omega arith)
            (λ e. not_both _ u ((check_key_lem sha256 q.key c).1 e.proven)))
  ]
]

-- What a batch of requests brings: in their order, one answer for each request for details, sent to
-- the gateway that asked.
pub data Answers (sha256 : Key → Key) (states : ℕ → Slot)
    : List RoutedAuthRequest → List AccountResponse → Type 0 where
  none_left : Answers sha256 states [] []
  answered :
      (q : RoutedAuthRequest) (qs : List RoutedAuthRequest) (m : ClientAccountSnapshot)
      (rs : List AccountResponse)
      → q.request_type ≡ char_a
      → IsAnswer sha256 (get_client_state (states q.client_id)) q m
      → Answers sha256 states qs rs
      → Answers sha256 states (q ∷ qs) (record { gateway_id = q.gateway_id; message = m } ∷ rs)
  ignored :
      (q : RoutedAuthRequest) (qs : List RoutedAuthRequest) (rs : List AccountResponse)
      → q.request_type ≢ char_a
      → Answers sha256 states qs rs
      → Answers sha256 states (q ∷ qs) rs

-- Over any hash function: the answers to a batch of requests come in the order of the requests for
-- details, one for each, to the gateway that asked. An answer gives the account as it is shown
-- if the gateway is the client's or gateway 10 and the key's hash is the client's, and nothing but a
-- refusal otherwise.
pub process_message-Answers :
    (sha256 : Key → Key) (states : ℕ → Slot) (qs : List RoutedAuthRequest)
    → Answers sha256 states qs (process_message sha256 states qs)
unfolding process_message answer
process_message-Answers sha256 states [] = none_left
process_message-Answers sha256 states (q ∷ qs) = elim (Bool-cases (q.request_type == char_a)) [
  | inl t ↦ rw t (
      answered q qs _ _ (ground arith)
        (answer_details-IsAnswer sha256 (get_client_state (states q.client_id)) q)
        (process_message-Answers sha256 states qs))
  | inr t ↦ rw t (ignored q qs _ (ground arith) (process_message-Answers sha256 states qs))
]
