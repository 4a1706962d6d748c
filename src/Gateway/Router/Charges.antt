-- ===== src/Gateway/Router/Charges.antt =====
-- What a batch charges: as the risk check alone, over the orders whose engine is connected.
use naoto_exchange.Common.{ℕ, List, [], ◌∷◌, true, false, ◌≡◌, refl, if◌then◌else◌, All}
use naoto_exchange.Wire.{Order}
use naoto_exchange.Gateway.Client.{ClientState}
use naoto_exchange.Gateway.Risk.{technical_failure}
use naoto_exchange.Gateway.Router.Frame.{leaves-answer_order}
use naoto_exchange.Gateway.Router.{
  Router, Turn, check_risk, is_connected, check_turn, next_order_id, route,
}

-- The orders of the turns whose engine is connected.
abbrev pub connected : List Turn → List Order
connected [] = []
connected (t ∷ ts) = if is_connected t then t.order ∷ connected ts else connected ts

-- Every turn finds the client in the same state.
abbrev pub Finds : ClientState → List Turn → Type 0
Finds c ts = All (λ t. t.client ≡ c) ts

pub local-route :
    (auth : ℕ) (t : Turn) (g : Router) → (route auth t g).local ≡ (check_turn t auth g).1.local
unfolding route
local-route auth t g = (leaves-answer_order t (next_order_id g) _).local

pub check_turn-true :
    (t : Turn) (auth : ℕ) (g : Router)
    → is_connected t ≡ true
    → check_turn t auth g ≡ check_risk t auth g
unfolding check_turn
check_turn-true t auth g e = rw (e, check_turn) refl

pub check_turn-false :
    (t : Turn) (auth : ℕ) (g : Router)
    → is_connected t ≡ false
    → check_turn t auth g ≡ (technical_failure, g)
unfolding check_turn
check_turn-false t auth g e = rw (e, check_turn) refl
