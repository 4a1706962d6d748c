-- ===== src/Gateway/Writer.antt =====
-- market_server/order_gateway/include/client_states_writer.hpp: the thread that keeps the clients'
-- states up to date from the engines' reports, the account service's answers and the disconnects.
-- The requests that would be sent again stand behind a `continue` and are never made.
pub mod Receive
pub mod Batch
pub mod Answers
pub mod Missed
use naoto_exchange.Common.{
  update, ℕ, zero, suc, ◌-◌, ◌%◌, List, [], ◌∷◌, Bool, true, false, none, some, ◌==◌, ◌&&◌, not,
  if◌then◌else◌, ℤ, pos, ◌+ℤ◌,
}
use naoto_exchange.Wire.{ClientAccountSnapshot, OrderStateReport, add}
use naoto_exchange.HashMap.{get_val, add_node, delete_node}
use naoto_exchange.Batch.{member}
use naoto_exchange.Gateway.Buffer.{
  Slot, get_client_id, set_auth_status, set_client_state, set_client_assets, flush_triple_buffer,
}

abbrev pub gateway_update_buffer_size : ℕ
gateway_update_buffer_size = 8192

-- `States`, `ClientsFd`, `UpdatesBuffer` and `LastSeq`. The states are found by file descriptor.
pub record Writer : Type 0 where
  pub states : ℕ → Slot
  pub clients_fd : List (ℕ × ℕ)
  pub updates_buffer : ℕ → OrderStateReport
  pub last_seq : ℕ

-- The constructor, with the states that the gateway shares and a report for the other fields of the
-- buffer's entries: their sequence ids are such that none is taken for its place's.
unfoldable pub new_writer : (ℕ → Slot) → OrderStateReport → Writer
new_writer states blank = record {
  states = states;
  clients_fd = [];
  updates_buffer = λ i. record blank { sequence_id = suc i };
  last_seq = 0;
}

-- `SequenceId & (GatewayUpdateBufferSize - 1)`, the size being a power of two.
abbrev pub buffer_index : ℕ → ℕ
buffer_index sequence = sequence % gateway_update_buffer_size

unfoldable pub note : OrderStateReport → Writer → Writer
unfolding update
note r w = record w {
  last_seq = r.sequence_id;
  updates_buffer = update (buffer_index r.sequence_id) r w.updates_buffer;
}

-- An added order is in the router's own count already.
abbrev pub attempt_delta : OrderStateReport → ℤ
attempt_delta r = elim r.state [ add ↦ pos 0 | _ ↦ r.sold_attempt_delta ]

-- The two calls of `SetClientAssets` for one report.
unfoldable pub book_report : OrderStateReport → Slot → Slot
unfolding set_client_assets
book_report r s =
    set_client_assets r.sold_delta (attempt_delta r) r.sold_asset_id
      (set_client_assets r.bought_delta (pos 0) r.bought_asset_id s)

abbrev pub set_slot : ℕ → Slot → Writer → Writer
set_slot fd s w = record w { states = λ j. if j == fd then s else w.states j }

-- The first loop of `Handle(TradeReportBatch)`, for one report.
unfoldable pub receive : OrderStateReport → Writer → Writer
unfolding note book_report
receive r w = elim (get_val r.client_id w.clients_fd) [
  | none ↦ note r w
  | some fd ↦ set_slot fd (book_report r (w.states fd)) (note r w)
]

unfoldable pub receive_all : List OrderStateReport → Writer → Writer
receive_all [] w = w
receive_all (r ∷ rs) w = receive_all rs (receive r w)

abbrev pub flush_at : ℕ → Writer → Writer
flush_at fd w = set_slot fd (flush_triple_buffer (w.states fd)) w

-- The second loop, with `Touched`: every client of the batch is flushed once.
unfoldable pub flush_touched : List OrderStateReport → List ℕ → Writer → Writer
flush_touched [] touched w = w
flush_touched (r ∷ rs) touched w = elim (get_val r.client_id w.clients_fd) [
  | none ↦ flush_touched rs touched w
  | some fd ↦
      if member fd touched
      then flush_touched rs touched w
      else flush_touched rs (fd ∷ touched) (flush_at fd w)
]

-- `Handle(TradeReportBatch &, size_t)`
unfoldable pub handle_reports : List OrderStateReport → Writer → Writer
unfolding receive_all flush_touched
handle_reports rs w = flush_touched rs [] (receive_all rs w)

-- `Handle(OrderStateReport *)`
unfoldable pub handle_report : OrderStateReport → Writer → Writer
unfolding note book_report
handle_report r w = elim (get_val r.client_id w.clients_fd) [
  | none ↦ note r w
  | some fd ↦ set_slot fd (flush_triple_buffer (book_report r (w.states fd))) (note r w)
]

-- The second test of the code's `else if`.
abbrev pub is_sold : OrderStateReport → ℕ → Bool
is_sold c asset = not (asset == c.bought_asset_id) && (asset == c.sold_asset_id)

-- The answer with one missed report applied. An asset that is both bought and sold counts as bought,
-- and the change of the attempt is the change of what is confirmed.
unfoldable pub apply_missed : OrderStateReport → ClientAccountSnapshot → ClientAccountSnapshot
apply_missed c a =
    if c.client_id == a.client_id
    then record a {
      confirmed = λ i.
          if a.asset_id i == c.bought_asset_id
          then a.confirmed i +ℤ c.bought_delta
          else (if is_sold c (a.asset_id i) then a.confirmed i +ℤ c.sold_delta else a.confirmed i);
      attempt = λ i. if is_sold c (a.asset_id i) then a.attempt i +ℤ c.sold_delta else a.attempt i;
    }
    else a

-- `while (seqId <= LastSeq)`: `left` reports from `seq` on.
unfoldable pub catch_up :
    (ℕ → OrderStateReport) → ℕ → ℕ → ClientAccountSnapshot → ClientAccountSnapshot
unfolding apply_missed
catch_up updates seq zero a = a
catch_up updates seq (suc left) a =
    catch_up updates (suc seq) left (apply_missed (updates (buffer_index seq)) a)

abbrev pub is_stale : ClientAccountSnapshot → Writer → Bool
is_stale a w =
    not ((w.updates_buffer (buffer_index a.sequence_id)).sequence_id == a.sequence_id)
    && not (a.sequence_id == w.last_seq)

-- The file descriptor is the new client's.
unfoldable pub bind_client : ClientAccountSnapshot → Writer → Writer
unfolding get_client_id add_node delete_node
bind_client a w =
    let cur = get_client_id (w.states a.client_fd) in
    if cur == a.client_id
    then w
    else record w { clients_fd = add_node a.client_id a.client_fd (delete_node cur w.clients_fd) }

-- `Handle(AccountResponseBatch *)`, for one answer.
unfoldable pub handle_response : ClientAccountSnapshot → Writer → Writer
unfolding catch_up bind_client add_node
handle_response a w =
    let b = catch_up w.updates_buffer (suc a.sequence_id) (w.last_seq - a.sequence_id) a in
    let bound = bind_client b w in
    let shown = flush_triple_buffer (set_client_state b (bound.states b.client_fd)) in
    if is_stale a w then w else record (set_slot b.client_fd shown bound) {
      clients_fd = add_node b.client_id b.client_fd bound.clients_fd;
    }

unfoldable pub handle_responses : List ClientAccountSnapshot → Writer → Writer
unfolding handle_response
handle_responses [] w = w
handle_responses (a ∷ as') w = handle_responses as' (handle_response a w)

-- `TryConsumeDisconnects`, once a file descriptor has been popped.
unfoldable pub handle_disconnect : ℕ → Writer → Writer
handle_disconnect fd w = set_slot fd (flush_triple_buffer (set_auth_status 0 (w.states fd))) w
