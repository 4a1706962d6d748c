-- ===== src/Gateway/Writer/Batch.antt =====
-- A batch of reports, flushed once per client, against the same reports on the states alone.
use naoto_exchange.Common.{ℕ, List, [], ◌∷◌, ◌≡◌, inl, inr, refl, ap, ◌∙◌, Bool-cases, Option-cases}
use naoto_exchange.Wire.{OrderStateReport}
use naoto_exchange.HashMap.{get_val}
use naoto_exchange.Batch
use naoto_exchange.Batch.{member, set_at}
use naoto_exchange.Batch.Laws.{batch-Shows, Shows}
use naoto_exchange.Gateway.Buffer.{get_client_state}
use naoto_exchange.Gateway.Buffer.Spec.{view}
use naoto_exchange.Gateway.Writer.{
  Writer, note, receive, receive_all, flush_at, flush_touched, handle_reports,
}
use naoto_exchange.Gateway.Writer.Receive.{slot_buffer, fd_of_report, account_all, IsSettled}

receive_clients : (r : OrderStateReport) (w : Writer) → (receive r w).clients_fd ≡ w.clients_fd
unfolding receive note
receive_clients r w = elim (Option-cases (get_val r.client_id w.clients_fd)) [
  | inl n ↦ rw (n, receive) refl
  | inr (f, e) ↦ rw (e, receive) refl
]

receive_states :
    (r : OrderStateReport) (w : Writer)
    → (receive r w).states ≡ Batch.receive slot_buffer (fd_of_report w.clients_fd) r w.states
unfolding receive note Batch.receive
receive_states r w = elim (Option-cases (get_val r.client_id w.clients_fd)) [
  | inl n ↦ rw (n, receive, Batch.receive) refl
  | inr (f, e) ↦ rw (e, receive, Batch.receive) refl
]

receive_all_clients :
    (rs : List OrderStateReport) (w : Writer) → (receive_all rs w).clients_fd ≡ w.clients_fd
unfolding receive_all
receive_all_clients [] w = refl
receive_all_clients (r ∷ rs) w = receive_all_clients rs (receive r w) ∙ receive_clients r w

receive_all_states :
    (rs : List OrderStateReport) (w : Writer)
    → (receive_all rs w).states
      ≡ Batch.receive_all slot_buffer (fd_of_report w.clients_fd) rs w.states
unfolding receive_all Batch.receive_all
receive_all_states [] w = refl
receive_all_states (r ∷ rs) w =
    receive_all_states rs (receive r w)
    ∙ ap (λ m. Batch.receive_all slot_buffer (fd_of_report m) rs (receive r w).states)
        (receive_clients r w)
    ∙ ap (Batch.receive_all slot_buffer (fd_of_report w.clients_fd) rs) (receive_states r w)

flush_touched_states :
    (rs : List OrderStateReport) (touched : List ℕ) (w : Writer)
    → (flush_touched rs touched w).states
      ≡ Batch.flush_touched slot_buffer (fd_of_report w.clients_fd) rs touched w.states
unfolding flush_touched Batch.flush_touched
flush_touched_states [] touched w = refl
flush_touched_states (r ∷ rs) touched w = elim (Option-cases (get_val r.client_id w.clients_fd)) [
  | inl n ↦ rw (n, flush_touched, Batch.flush_touched) (flush_touched_states rs touched w)
  | inr (f, e) ↦ elim (Bool-cases (member f touched)) [
    | inl t ↦ rw (e, flush_touched, Batch.flush_touched, t) (flush_touched_states rs touched w)
    | inr t ↦
        rw (e, flush_touched, Batch.flush_touched, t)
          (flush_touched_states rs (f ∷ touched) (flush_at f w))
  ]
]

-- After a batch of reports, each client that was settled is settled again, and what the router reads
-- of it is what it read before with every report on the client applied in turn.
pub handle_reports_account :
    (rs : List OrderStateReport) (w : Writer) (fd : ℕ)
    → IsSettled (w.states fd)
    → IsSettled ((handle_reports rs w).states fd)
      × (get_client_state ((handle_reports rs w).states fd)
          ≡ account_all w.clients_fd fd rs (get_client_state (w.states fd)))
unfolding handle_reports IsSettled view get_client_state Shows
handle_reports_account rs w fd h =
    let t = fd_of_report w.clients_fd in
    let e : (handle_reports rs w).states
        ≡ Batch.flush_touched slot_buffer t rs [] (Batch.receive_all slot_buffer t rs w.states) =
      flush_touched_states rs [] (receive_all rs w)
      ∙ ap (λ m. Batch.flush_touched slot_buffer (fd_of_report m) rs [] (receive_all rs w).states)
          (receive_all_clients rs w)
      ∙ ap (Batch.flush_touched slot_buffer t rs []) (receive_all_states rs w) in
    rw e (batch-Shows slot_buffer t rs w.states fd h)
