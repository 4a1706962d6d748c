-- ===== src/Gateway/Writer/Receive.antt =====
-- What a report does to the state of its client, and what the first loop of a batch leaves pending.
use naoto_exchange.Common.{ℕ, List, Option, ◌≡◌, pos, sym, ap, ◌∙◌}
use naoto_exchange.Wire.{OrderStateReport}
use naoto_exchange.HashMap.{get_val}
use naoto_exchange.Batch
use naoto_exchange.Batch.{Buffered}
use naoto_exchange.Gateway.Client.{ClientState}
use naoto_exchange.Gateway.Buffer.{Slot, new_slot, get_client_state, flush_triple_buffer}
use naoto_exchange.Gateway.Buffer.Spec.{
  set_assets, flush, apply_op, View, view, add_assets, spec_op, IsSynced, Refines,
}
use naoto_exchange.Gateway.Buffer.Refines.{apply_op-Refines, view-new_slot}
use naoto_exchange.Gateway.Buffer.Steps.{new_slot-IsSynced}
use naoto_exchange.Gateway.Writer.{attempt_delta, book_report}

-- What a report does to the state of its client.
unfoldable pub account : OrderStateReport → ClientState → ClientState
unfolding add_assets
account r c =
    add_assets r.sold_delta (attempt_delta r) r.sold_asset_id
      (add_assets r.bought_delta (pos 0) r.bought_asset_id c)

-- What is shown is all there is.
unfoldable pub IsSettled : Slot → Type 0
unfolding view
IsSettled s = IsSynced s × ((view s).pending ≡ (view s).shown)

pub view-book_report :
    (r : OrderStateReport) (s : Slot)
    → IsSynced s
    → IsSynced (book_report r s)
      × (view (book_report r s) ≡ record (view s) { pending = account r (view s).pending })
unfolding book_report account Refines apply_op spec_op
view-book_report r s h =
    let a = set_assets r.bought_delta (pos 0) r.bought_asset_id in
    let b = set_assets r.sold_delta (attempt_delta r) r.sold_asset_id in
    let p = apply_op-Refines a s h in
    let q = apply_op-Refines b (apply_op a s) p.0 in (q.0, q.1 ∙ ap (spec_op b) p.1)

pub view-flush :
    (s : Slot)
    → IsSynced s
    → IsSynced (flush_triple_buffer s)
      × (view (flush_triple_buffer s) ≡ record (view s) { shown = (view s).pending })
unfolding Refines apply_op spec_op
view-flush s h = apply_op-Refines flush s h

-- The slot as a buffer that takes reports.
abbrev pub slot_buffer : Buffered Slot ClientState OrderStateReport
slot_buffer = record {
  IsSynced = IsSynced;
  pending = λ s. (view s).pending;
  shown = λ s. (view s).shown;
  book = book_report;
  flush = flush_triple_buffer;
  account = account;
  book_lem = λ r s h.
      let x = view-book_report r s h in (x.0, ap (λ v. v.pending) x.1, ap (λ v. v.shown) x.1);
  flush_lem =
      λ s h. let x = view-flush s h in (x.0, ap (λ v. v.pending) x.1, ap (λ v. v.shown) x.1);
}

-- The file descriptor of the client that a report is for.
abbrev pub fd_of_report : List (ℕ × ℕ) → OrderStateReport → Option ℕ
fd_of_report m r = get_val r.client_id m

-- The reports on the client at a file descriptor, applied to its state in turn.
abbrev pub account_all : List (ℕ × ℕ) → ℕ → List OrderStateReport → ClientState → ClientState
account_all m = Batch.account_all slot_buffer (fd_of_report m)

pub shows :
    (s : Slot) (c : ClientState)
    → IsSynced s
    → view s ≡ record { shown = c; pending = c }
    → IsSettled s × (get_client_state s ≡ c)
unfolding IsSettled view get_client_state
shows s c h v = ((h, ap (λ u. u.pending) v ∙ sym (ap (λ u. u.shown) v)), ap (λ u. u.shown) v)

abbrev pub both : ClientState → View
both c = record { shown = c; pending = c }

pub new_slot-IsSettled : (c : ClientState) → IsSettled (new_slot c)
unfolding IsSettled
new_slot-IsSettled c =
    let v = view-new_slot c in
    (new_slot-IsSynced c, ap (λ u. u.pending) v ∙ sym (ap (λ u. u.shown) v))
