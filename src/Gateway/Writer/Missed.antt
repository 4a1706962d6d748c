-- ===== src/Gateway/Writer/Missed.antt =====
-- An answer of the account service with the reports that it missed, as sums over these reports, and the
-- binding of the client to its descriptor.
use naoto_exchange.Common.{ℕ, zero, suc, ◌-◌, ◌==◌, ◌≡◌, if◌then◌else◌, ℤ, pos, ◌+ℤ◌}
use naoto_exchange.Wire.{ClientAccountSnapshot, OrderStateReport}
use naoto_exchange.Gateway.Client.{ClientState}
use naoto_exchange.Gateway.Writer.{Writer, is_sold, buffer_index}

-- What one report changes of a client's position in an asset.
abbrev pub confirmed_change : ℕ → ℕ → OrderStateReport → ℤ
confirmed_change client asset c =
    if c.client_id == client
    then (if asset == c.bought_asset_id
        then c.bought_delta
        else (if is_sold c asset then c.sold_delta else pos 0))
    else pos 0

abbrev pub attempt_change : ℕ → ℕ → OrderStateReport → ℤ
attempt_change client asset c =
    if c.client_id == client then (if is_sold c asset then c.sold_delta else pos 0) else pos 0

-- The sum over the reports of the buffer from `seq` on.
unfoldable pub total : (OrderStateReport → ℤ) → (ℕ → OrderStateReport) → ℕ → ℕ → ℤ
total f u seq zero = pos 0
total f u seq (suc left) = f (u (buffer_index seq)) +ℤ total f u (suc seq) left

-- One answer is another with sums added, of the same client and assets.
record Adds (f g : ℕ → ℤ) (a b : ClientAccountSnapshot) : Type 0 where
  client : b.client_id ≡ a.client_id
  assets : b.asset_id ≡ a.asset_id
  confirmed : (i : ℕ) → b.confirmed i ≡ a.confirmed i +ℤ f i
  attempt : (i : ℕ) → b.attempt i ≡ a.attempt i +ℤ g i

-- The state that is shown after an answer.
pub record Answered (a : ClientAccountSnapshot) (w : Writer) (c : ClientState) : Type 0 where
  pub client : c.client_id ≡ a.client_id
  pub authenticated : c.auth ≡ 1
  pub assets : c.asset_id ≡ a.asset_id
  pub confirmed :
      (i : ℕ)
      → c.confirmed i
        ≡ a.confirmed i
          +ℤ total
              (confirmed_change a.client_id (a.asset_id i))
              w.updates_buffer
              (suc a.sequence_id)
              (w.last_seq - a.sequence_id)
  pub attempt :
      (i : ℕ)
      → c.attempt i
        ≡ a.attempt i
          +ℤ total
              (attempt_change a.client_id (a.asset_id i))
              w.updates_buffer
              (suc a.sequence_id)
              (w.last_seq - a.sequence_id)
