-- ===== src/Account/Writer.antt =====
-- market_server/account_service/include/client_states_writer.hpp: the thread that keeps the accounts
-- up to date from the engines' reports. A client's account is found by the client's number.
pub mod Batch
use naoto_exchange.Common.{ℕ, List, [], ◌∷◌, if◌then◌else◌, pos}
use naoto_exchange.Wire.{OrderStateReport}
use naoto_exchange.Batch.{member, set_at}
use naoto_exchange.Account.Buffer.{Slot, set_client_assets, flush_triple_buffer}

-- The two calls of `SetClientAssets` for one report.
unfoldable pub book_report : OrderStateReport → Slot → Slot
unfolding set_client_assets
book_report r s =
    set_client_assets r.sold_delta r.sold_attempt_delta r.sold_asset_id r.sequence_id
      (set_client_assets r.bought_delta (pos 0) r.bought_asset_id r.sequence_id s)

-- The first loop of `Handle(TradeReportBatch &, size_t)`.
unfoldable pub receive_all : List OrderStateReport → (ℕ → Slot) → ℕ → Slot
unfolding book_report
receive_all [] states = states
receive_all (r ∷ rs) states =
    receive_all rs (set_at r.client_id (book_report r (states r.client_id)) states)

-- The second loop, with `Touched`.
unfoldable pub flush_touched : List OrderStateReport → List ℕ → (ℕ → Slot) → ℕ → Slot
flush_touched [] touched states = states
flush_touched (r ∷ rs) touched states =
    let skipped = flush_touched rs touched states in
    let flushed =
      flush_touched rs (r.client_id ∷ touched)
        (set_at r.client_id (flush_triple_buffer (states r.client_id)) states) in
    if member r.client_id touched then skipped else flushed

-- `Handle(TradeReportBatch &, size_t)`
unfoldable pub handle_reports : List OrderStateReport → (ℕ → Slot) → ℕ → Slot
unfolding receive_all flush_touched
handle_reports rs states = flush_touched rs [] (receive_all rs states)

-- `Handle(OrderStateReport *)`
unfoldable pub handle_report : OrderStateReport → (ℕ → Slot) → ℕ → Slot
unfolding book_report
handle_report r states =
    set_at r.client_id (flush_triple_buffer (book_report r (states r.client_id))) states
