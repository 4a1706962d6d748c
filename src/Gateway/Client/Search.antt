-- ===== src/Gateway/Client/Search.antt =====
-- The search for a position.
use naoto_exchange.Common.{
  subst, ℕ, zero, suc, ◌+◌, ◌≤◌, ◌<◌, Option, none, some, ◌==◌, ◌≡◌, ◌≢◌, inl, inr, arith,
  Bool-cases,
}
use naoto_exchange.Triple.{max_positions, Positions}
use naoto_exchange.Gateway.Client.{ClientState, find_asset, get_asset_idx}

-- The first index from `first` up to `last` that holds the asset, if one does.
abbrev pub IsFirst : Positions ℕ → ℕ → ℕ → ℕ → Option ℕ → Type 0
IsFirst ids asset first last none = (i : ℕ) → first ≤ i → i < last → ids i ≢ asset
IsFirst ids asset first last (some i) =
    (first ≤ i) × (i < last) × (ids i ≡ asset) × ((j : ℕ) → first ≤ j → j < i → ids j ≢ asset)

here :
    (ids : Positions ℕ) (asset first left : ℕ)
    → ids first ≡ asset
    → IsFirst ids asset first (first + suc left) (some first)
here ids asset first left h = (omega arith, omega arith, h, λ j a b. absurd (omega arith))

there :
    (ids : Positions ℕ) (asset first left : ℕ) (o : Option ℕ)
    → ids first ≢ asset
    → IsFirst ids asset (suc first) (suc first + left) o
    → IsFirst ids asset first (first + suc left) o
there ids asset first left none h k = λ i a b e. elim (Bool-cases (i == first)) [
  | inl t ↦ h (subst (λ m. ids m ≡ asset) (ground arith) e)
  | inr f ↦ k i (ground arith) (ground arith) e
]
there ids asset first left (some i) h (a, b, c, k) = (
  omega arith,
  omega arith,
  c,
  λ j d e q. elim (Bool-cases (j == first)) [
    | inl t ↦ h (subst (λ m. ids m ≡ asset) (ground arith) q)
    | inr f ↦ k j (ground arith) e q
  ],
)

find_asset-IsFirst :
    (ids : Positions ℕ) (asset first left : ℕ)
    → IsFirst ids asset first (first + left) (find_asset ids asset first left)
unfolding find_asset
find_asset-IsFirst ids asset first zero = λ i a b. absurd (omega arith)
find_asset-IsFirst ids asset first (suc left) = elim (Bool-cases (ids first == asset)) [
  | inl t ↦ rw (t, find_asset) (here ids asset first left (ground arith))
  | inr f ↦
      rw (f, find_asset)
        (there ids asset first left _ (ground arith)
          (find_asset-IsFirst ids asset (suc first) left))
]

-- `GetAssetIdx` finds the first of the client's positions in the asset, and fails only where no
-- position is in it.
pub get_asset_idx-IsFirst :
    (c : ClientState) (asset : ℕ) → IsFirst c.asset_id asset 0 max_positions (get_asset_idx c asset)
unfolding get_asset_idx
get_asset_idx-IsFirst c asset = find_asset-IsFirst c.asset_id asset 0 max_positions
