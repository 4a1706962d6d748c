-- ===== src/Account/Writer/Batch.antt =====
-- A batch of reports, flushed once per client, against the same reports on the accounts alone.
use naoto_exchange.Common.{
  ℕ, List, [], ◌∷◌, Option, some, ◌≡◌, inl, inr, refl, ap, ◌∙◌, pos, Bool-cases,
}
use naoto_exchange.Wire.{OrderStateReport}
use naoto_exchange.Batch
use naoto_exchange.Batch.{Buffered, member, set_at}
use naoto_exchange.Batch.Laws.{batch-Shows, Shows}
use naoto_exchange.Account.Buffer.{Slot, flush_triple_buffer}
use naoto_exchange.Account.Buffer.Spec.{
  set_assets, flush, apply_op, Account, view, add_assets, spec_op, IsSynced, Refines,
}
use naoto_exchange.Account.Buffer.Refines.{apply_op-Refines}
use naoto_exchange.Account.Writer.{book_report, receive_all, flush_touched, handle_reports}

-- What a report does to the account of its client.
unfoldable pub account : OrderStateReport → Account → Account
unfolding add_assets
account r (c, n) = (
  add_assets r.sold_delta r.sold_attempt_delta r.sold_asset_id
      (add_assets r.bought_delta (pos 0) r.bought_asset_id c),
  r.sequence_id,
)

pub book_lem :
    (r : OrderStateReport) (s : Slot)
    → IsSynced s
    → IsSynced (book_report r s)
      × ((view (book_report r s)).pending ≡ account r (view s).pending)
      × ((view (book_report r s)).shown ≡ (view s).shown)
unfolding book_report account Refines apply_op spec_op
book_lem r s h =
    let a = set_assets r.bought_delta (pos 0) r.bought_asset_id r.sequence_id in
    let b = set_assets r.sold_delta r.sold_attempt_delta r.sold_asset_id r.sequence_id in
    let p = apply_op-Refines a s h in
    let q = apply_op-Refines b (apply_op a s) p.0 in
    let v = q.1 ∙ ap (spec_op b) p.1 in (q.0, ap (λ u. u.pending) v, ap (λ u. u.shown) v)

pub flush_lem :
    (s : Slot)
    → IsSynced s
    → IsSynced (flush_triple_buffer s)
      × ((view (flush_triple_buffer s)).pending ≡ (view s).pending)
      × ((view (flush_triple_buffer s)).shown ≡ (view s).pending)
unfolding Refines apply_op spec_op
flush_lem s h =
    let x = apply_op-Refines flush s h in (x.0, ap (λ u. u.pending) x.1, ap (λ u. u.shown) x.1)

-- The slot as a buffer that takes reports.
abbrev pub slot_buffer : Buffered Slot Account OrderStateReport
slot_buffer = record {
  IsSynced = IsSynced;
  pending = λ s. (view s).pending;
  shown = λ s. (view s).shown;
  book = book_report;
  flush = flush_triple_buffer;
  account = account;
  book_lem = book_lem;
  flush_lem = flush_lem;
}

abbrev pub client_of : OrderStateReport → Option ℕ
client_of r = some r.client_id

receive_all_lem :
    (rs : List OrderStateReport) (states : ℕ → Slot)
    → receive_all rs states ≡ Batch.receive_all slot_buffer client_of rs states
unfolding receive_all Batch.receive_all Batch.receive
receive_all_lem [] states = refl
receive_all_lem (r ∷ rs) states =
    receive_all_lem rs (set_at r.client_id (book_report r (states r.client_id)) states)

flush_touched_lem :
    (rs : List OrderStateReport) (touched : List ℕ) (states : ℕ → Slot)
    → flush_touched rs touched states ≡ Batch.flush_touched slot_buffer client_of rs touched states
unfolding flush_touched Batch.flush_touched
flush_touched_lem [] touched states = refl
flush_touched_lem (r ∷ rs) touched states = elim (Bool-cases (member r.client_id touched)) [
  | inl t ↦ rw t (flush_touched_lem rs touched states)
  | inr t ↦ rw t (
      flush_touched_lem rs (r.client_id ∷ touched)
        (set_at r.client_id (flush_triple_buffer (states r.client_id)) states))
]

-- After a batch of reports, each account that was settled is settled again, and a reader finds it as
-- every report on the client leaves it, applied in turn, with the sequence id of the last of them.
pub account_reports_lem :
    (rs : List OrderStateReport) (states : ℕ → Slot) (client : ℕ)
    → Batch.IsSettled slot_buffer client_of (states client)
    → Batch.IsSettled slot_buffer client_of (handle_reports rs states client)
      × ((view (handle_reports rs states client)).shown
          ≡ Batch.account_all slot_buffer client_of client rs (view (states client)).shown)
unfolding handle_reports Shows
account_reports_lem rs states client h =
    rw
      (
        receive_all_lem rs states,
        flush_touched_lem rs [] (Batch.receive_all slot_buffer client_of rs states),
      )
      (batch-Shows slot_buffer client_of rs states client h)
