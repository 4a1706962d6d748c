-- ===== src/Gateway/Buffer/Refines.antt =====
-- The three copies behave as two: what the router sees, and what it will see after the next flush.
use naoto_exchange.Common.{List, [], ◌∷◌, ◌≡◌, refl, ap, ◌∙◌, +ℤ-zero}
use naoto_exchange.Triple.{Index, index_0, index_1, index_2, Three, at}
use naoto_exchange.Gateway.Client.{ClientState, ClientDelta}
use naoto_exchange.Gateway.Buffer.{
  Slot, new_slot, set_auth_status, set_client_state, set_client_assets, flush_triple_buffer,
}
use naoto_exchange.Gateway.Buffer.Spec.{
  Op, set_auth, set_state, set_assets, flush, apply_op, view, IsSynced, slot, Refines, apply_ops,
  spec_ops,
}
use naoto_exchange.Gateway.Buffer.Steps.{
  same_state, new_slot-IsSynced, refine_set_auth, refine_set_state, refine_set_assets,
  flush-IsSynced, view-flush,
}

-- Every operation of the writer on a client acts as its specification on what is shown and what is
-- pending, and keeps the copies in agreement.
pub apply_op-Refines : (op : Op) (s : Slot) → IsSynced s → Refines op s
unfolding Refines apply_op
apply_op-Refines (set_auth a) s h = refine_set_auth a s.states s.deltas s.complete h
apply_op-Refines (set_state r) s h = refine_set_state r s.states s.deltas s.complete h
apply_op-Refines (set_assets c a asset) s h =
    refine_set_assets c a asset s.states s.deltas s.complete h
apply_op-Refines flush s h =
    let synced = flush-IsSynced s.states s.deltas s.complete h in
    (synced, view-flush s.states s.deltas s.complete synced)

ops_from : (ops : List Op) (s : Slot) → IsSynced s → view (apply_ops ops s) ≡ spec_ops ops (view s)
unfolding apply_ops spec_ops Refines
ops_from [] s h = refl
ops_from (op ∷ ops) s h =
    let r = apply_op-Refines op s h in ops_from ops (apply_op op s) r.0 ∙ ap (spec_ops ops) r.1

pub view-new_slot : (c : ClientState) → view (new_slot c) ≡ record { shown = c; pending = c }
unfolding view new_slot
view-new_slot c =
    ap (λ p. record { shown = c; pending = p })
      (same_state c _ _ _ _ (λ i. +ℤ-zero (c.confirmed i)) (λ i. +ℤ-zero (c.attempt i)))

-- From a fresh slot, after any operations of the writer in any order, the router reads the state that
-- the specification shows, and the next flush shows the state that is pending there.
pub apply_ops_refines :
    (ops : List Op) (c : ClientState)
    → view (apply_ops ops (new_slot c)) ≡ spec_ops ops (record { shown = c; pending = c })
apply_ops_refines ops c =
    ops_from ops (new_slot c) (new_slot-IsSynced c) ∙ ap (spec_ops ops) (view-new_slot c)

kept :
    (op : Op) (t : Three ClientState) (d : Three ClientDelta) (k : Index)
    → at k (apply_op op (slot t d k)).states ≡ at k t
unfolding apply_op set_auth_status set_client_state set_client_assets flush_triple_buffer
kept (set_auth a) t d index_0 = refl
kept (set_auth a) t d index_1 = refl
kept (set_auth a) t d index_2 = refl
kept (set_state r) t d index_0 = refl
kept (set_state r) t d index_1 = refl
kept (set_state r) t d index_2 = refl
kept (set_assets c a asset) t d k = refl
kept flush t d index_0 = refl
kept flush t d index_1 = refl
kept flush t d index_2 = refl

-- A router that has read `Complete` reads a whole state while one operation of the writer runs, a
-- flush included: the copy that was shown stays as it was.
pub shown_kept :
    (op : Op) (s : Slot) → at s.complete (apply_op op s).states ≡ at s.complete s.states
unfolding apply_op set_auth_status set_client_state set_client_assets flush_triple_buffer
shown_kept op s = kept op s.states s.deltas s.complete
