-- ===== src/Gateway/Risk/Charges.antt =====
-- What the router charges for a row of orders against one client state.
use naoto_exchange.Common.{
  Bool, ℕ, List, [], ◌∷◌, none, some, ◌==◌, if◌then◌else◌, ℤ, pos, ◌+ℤ◌, ◌≤ℤ◌, ◌≡◌, true, false,
  ◌<◌, ◌≤◌, ◌^◌, ◌*ℤ◌, pos_part, neg_part,
}
use naoto_exchange.Wire.{Order, OrderSide, buy, sell}
use naoto_exchange.Gateway.Client.{ClientState, get_asset_idx}
use naoto_exchange.Gateway.Risk.{
  OrderConfirmationStatus, Local, accepted, order_asset, check_order_risk,
}
use naoto_exchange.Gateway.Risk.Admits.{Admits}

-- No position is overdrawn.
abbrev pub Covered : ClientState → Local → Type 0
Covered c l = (i : ℕ) → (c.attempt i +ℤ l.attempts i) ≤ℤ c.confirmed i

abbrev is_accepted : OrderConfirmationStatus → Bool
is_accepted accepted = true
is_accepted _ = false

-- A row of orders of one client against one state, as the router checks them: those accepted, and
-- what is then charged.
unfoldable pub check_all : ClientState → ℕ → List Order → Local → List Order × Local
check_all c auth [] l = ([], l)
check_all c auth (o ∷ os) l =
    let r = check_order_risk c l o auth in
    let (acc, l') = check_all c auth os r.1 in (if is_accepted r.0 then o ∷ acc else acc, l')

-- What an order costs, without a bound.
abbrev pub cost_by : OrderSide → ℕ → ℤ → ℤ
cost_by buy amount price = amount *ℤ price
cost_by sell amount price = pos amount

abbrev pub cost : Order → ℤ
cost o = cost_by o.side o.amount o.price

-- It is in the range of an `int64_t`.
abbrev pub InRange : ℤ → Type 0
InRange v = (pos_part v < 2 ^ 63) × (neg_part v ≤ 2 ^ 63)

abbrev pub Fits : Order → Type 0
Fits o = InRange (cost o)

-- What a row of orders costs in the position at an index.
abbrev locked_at : ClientState → ℕ → Order → ℤ
locked_at c i o = elim (get_asset_idx c (order_asset o)) [
  | none ↦ pos 0
  | some j ↦ if i == j then cost o else pos 0
]

unfoldable pub locked_total : ClientState → ℕ → List Order → ℤ
locked_total c i [] = pos 0
locked_total c i (o ∷ os) = locked_at c i o +ℤ locked_total c i os

-- The charge of the router is what the accepted orders cost, and no position is overdrawn.
pub record Charged (c : ClientState) (l : Local) (r : List Order × Local) : Type 0 where
  pub session : r.1.session_id ≡ c.session_id
  pub charged : (i : ℕ) → r.1.attempts i ≡ l.attempts i +ℤ locked_total c i r.0
  pub covered : Covered c r.1
