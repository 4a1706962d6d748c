-- ===== src/Gateway/Writer/Answers.antt =====
-- What the router reads of a client after an answer of the account service, and after a disconnect.
use naoto_exchange.Common.{
  ℕ, zero, suc, ◌-◌, false, ◌==◌, ◌≡◌, inl, inr, refl, sym, ap, ◌∙◌, arith, Bool-cases,
}
use naoto_exchange.Wire.{ClientAccountSnapshot, OrderStateReport}
use naoto_exchange.Gateway.Client.{ClientState}
use naoto_exchange.Gateway.Buffer.{
  Slot, get_client_id, get_client_state, set_client_state, set_auth_status, flush_triple_buffer,
}
use naoto_exchange.Gateway.Buffer.Spec.{
  Op, set_auth, set_state, flush, apply_op, view, become, spec_op, Refines,
}
use naoto_exchange.Gateway.Buffer.Refines.{apply_op-Refines}
use naoto_exchange.Gateway.Writer.{
  Writer, set_slot, bind_client, apply_missed, buffer_index, catch_up, is_stale, handle_response,
  handle_disconnect,
}
use naoto_exchange.Gateway.Writer.Receive.{IsSettled, shows, both}

-- The clients' numbers change, the states do not.
bind_client_states : (a : ClientAccountSnapshot) (w : Writer) → (bind_client a w).states ≡ w.states
unfolding bind_client
bind_client_states a w = elim (Bool-cases (get_client_id (w.states a.client_fd) == a.client_id)) [
  | inl t ↦ rw (t, bind_client) refl
  | inr t ↦ rw (t, bind_client) refl
]

-- An operation and a flush on a settled slot show what the operation makes pending.
flush_after :
    (op : Op) (s : Slot)
    → IsSettled s
    → let c = (spec_op op (view s)).pending in
      IsSettled (apply_op flush (apply_op op s))
      × (get_client_state (apply_op flush (apply_op op s)) ≡ c)
unfolding IsSettled Refines spec_op
flush_after op s h =
    let p = apply_op-Refines op s h.0 in
    let q = apply_op-Refines flush (apply_op op s) p.0 in
    shows _ _ q.0 (q.1 ∙ ap (λ v. both v.pending) p.1)

set_slot_at : (fd j : ℕ) (s : Slot) (w : Writer) → j ≡ fd → (set_slot fd s w).states j ≡ s
set_slot_at fd j s w h = ground arith

apply_missed_fd :
    (c : OrderStateReport) (a : ClientAccountSnapshot) → (apply_missed c a).client_fd ≡ a.client_fd
unfolding apply_missed
apply_missed_fd c a = elim (Bool-cases (c.client_id == a.client_id)) [
  | inl t ↦ rw (t, apply_missed) refl
  | inr t ↦ rw (t, apply_missed) refl
]

catch_up_fd :
    (u : ℕ → OrderStateReport) (seq left : ℕ) (a : ClientAccountSnapshot)
    → (catch_up u seq left a).client_fd ≡ a.client_fd
unfolding catch_up
catch_up_fd u seq zero a = refl
catch_up_fd u seq (suc left) a =
    catch_up_fd u (suc seq) left (apply_missed (u (buffer_index seq)) a)
    ∙ apply_missed_fd (u (buffer_index seq)) a

-- The answer with what the writer has seen since.
abbrev pub updated : ClientAccountSnapshot → Writer → ClientAccountSnapshot
updated a w = catch_up w.updates_buffer (suc a.sequence_id) (w.last_seq - a.sequence_id) a

handle_response_at :
    (a : ClientAccountSnapshot) (w : Writer)
    → is_stale a w ≡ false
    → (handle_response a w).states a.client_fd
      ≡ flush_triple_buffer (set_client_state (updated a w) (w.states a.client_fd))
unfolding handle_response
handle_response_at a w n =
    let b = updated a w in
    let e = catch_up_fd w.updates_buffer (suc a.sequence_id) (w.last_seq - a.sequence_id) a in
    rw (n, handle_response)
      (set_slot_at b.client_fd a.client_fd _ (bind_client b w) (sym e)
        ∙ ap (λ t. flush_triple_buffer (set_client_state b (t b.client_fd)))
            (bind_client_states b w)
        ∙ ap (λ i. flush_triple_buffer (set_client_state b (w.states i))) e)

-- An answer that is not stale makes its client settled, and the router then reads the answer with
-- the reports that followed it applied.
pub handle_response_shows :
    (a : ClientAccountSnapshot) (w : Writer)
    → is_stale a w ≡ false
    → IsSettled (w.states a.client_fd)
    → let s = (handle_response a w).states a.client_fd in
      IsSettled s
      × (get_client_state s ≡ become (updated a w) (get_client_state (w.states a.client_fd)))
unfolding IsSettled view get_client_state spec_op apply_op
handle_response_shows a w n h =
    let r = flush_after (set_state (updated a w)) (w.states a.client_fd) h in
    rw (handle_response_at a w n) (r.0, r.1 ∙ ap (become (updated a w)) h.1)

-- A disconnected client is not authenticated.
pub handle_disconnect_auth :
    (fd : ℕ) (w : Writer)
    → IsSettled (w.states fd)
    → let s = (handle_disconnect fd w).states fd in
      IsSettled s × (get_client_state s ≡ record (get_client_state (w.states fd)) { auth = 0 })
unfolding handle_disconnect IsSettled view get_client_state spec_op apply_op
handle_disconnect_auth fd w h =
    let r = flush_after (set_auth 0) (w.states fd) h in
    let out : ClientState → ClientState = λ c. record c { auth = 0 } in
    rw (set_slot_at fd fd (flush_triple_buffer (set_auth_status 0 (w.states fd))) w refl)
      (r.0, r.1 ∙ ap out h.1)
