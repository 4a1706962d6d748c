-- ===== src/Gateway/Client.antt =====
-- market_server/order_gateway/include/client_state.hpp, client_delta.hpp and local_attempts.hpp:
-- the positions of a client. A `std::array` of `MaxPositions` elements is a function of the index;
-- the code reads it below `MaxPositions` only.
pub mod Search
use naoto_exchange.Common.{ℕ, zero, suc, Option, none, some, ◌==◌, if◌then◌else◌, ℤ, pos, negsuc}
use naoto_exchange.Triple.{max_positions, Positions}

abbrev pub max_assets : ℕ
max_assets = 128

pub record ClientState : Type 0 where
  pub client_id : ℕ
  pub asset_id : Positions ℕ
  pub confirmed : Positions ℤ
  pub attempt : Positions ℤ
  pub auth : ℕ
  pub session_id : ℕ

pub record ClientDelta : Type 0 where
  pub confirmed : Positions ℤ
  pub attempt : Positions ℤ

-- The constructor: everything is zero.
abbrev pub new_client_state : ClientState
new_client_state = record {
  client_id = 0;
  asset_id = λ i. 0;
  confirmed = λ i. pos 0;
  attempt = λ i. pos 0;
  auth = 0;
  session_id = 0;
}

abbrev pub LocalAttempts : Type 0
LocalAttempts = Positions ℤ

-- `LocalAttempts::Clear`
abbrev pub clear_attempts : LocalAttempts
clear_attempts = λ i. pos 0

-- The loop `for (i = first; i < first + left; ++i)` that looks for the asset.
unfoldable pub find_asset : Positions ℕ → ℕ → ℕ → ℕ → Option ℕ
find_asset ids asset first zero = none
find_asset ids asset first (suc left) =
    let rest = find_asset ids asset (suc first) left in
    if ids first == asset then some first else rest

-- `GetAssetIdx`
unfoldable pub get_asset_idx : ClientState → ℕ → Option ℕ
unfolding find_asset
get_asset_idx c asset = find_asset c.asset_id asset 0 max_positions

-- `GetAssetConfirmed` and `GetAssetAttempt`: -1 where the asset is missing.
unfoldable pub get_asset_confirmed : ClientState → ℕ → ℤ
unfolding get_asset_idx
get_asset_confirmed c asset = elim (get_asset_idx c asset) [
  | some i ↦ c.confirmed i
  | none ↦ negsuc 0
]

unfoldable pub get_asset_attempt : ClientState → ℕ → ℤ
unfolding get_asset_idx
get_asset_attempt c asset = elim (get_asset_idx c asset) [ some i ↦ c.attempt i | none ↦ negsuc 0 ]
