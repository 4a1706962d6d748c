-- ===== src/Account/Client.antt =====
-- market_server/account_service/include/client_state.hpp and client_delta.hpp: a client's account.
-- The keys of 32 bytes are functions of the index, as the positions are.
pub mod Keys
use naoto_exchange.Common.{
  ℕ, zero, suc, ◌+◌, ◌<◌, ◌≤◌, Bool, true, false, ◌==◌, ◌≡◌, ◌↔◌, inl, inr, if◌then◌else◌, ℤ, pos,
  arith, Bool-cases,
}
use naoto_exchange.Triple.{Positions}

abbrev pub Key : Type 0
Key = ℕ → ℕ

pub record ClientState : Type 0 where
  pub client_id : ℕ
  -- the hash of the client's key
  pub key : Key
  pub asset_id : Positions ℕ
  pub confirmed : Positions ℤ
  pub attempt : Positions ℤ
  pub authorized : ℤ
  pub connected : ℤ

-- The constructors; `Confirmed` and `Attempt` are filled with one value each.
abbrev pub new_client_state : ℕ → ℤ → ℤ → ClientState
new_client_state client_id confirmed attempt = record {
  client_id = client_id;
  key = λ i. 0;
  asset_id = λ i. 0;
  confirmed = λ i. confirmed;
  attempt = λ i. attempt;
  authorized = pos 0;
  connected = pos 0;
}

pub record ClientDelta : Type 0 where
  pub confirmed : Positions ℤ
  pub attempt : Positions ℤ

-- `ClientDelta::ClientDelta`
abbrev pub no_delta : ClientDelta
no_delta = record { confirmed = λ i. pos 0; attempt = λ i. pos 0 }

-- The loop of `CheckKey` from an index on.
unfoldable pub same_bytes : Key → Key → ℕ → ℕ → Bool
same_bytes a b first zero = true
same_bytes a b first (suc left) =
    let rest = same_bytes a b (suc first) left in if a first == b first then rest else false

-- `CheckKey`, over the hash function.
unfoldable pub check_key : (Key → Key) → Key → ClientState → Bool
check_key sha256 key c = same_bytes (sha256 key) c.key 0 32
