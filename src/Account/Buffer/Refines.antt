-- ===== src/Account/Buffer/Refines.antt =====
-- Each operation of the writer on the three copies, and rows of them.
use naoto_exchange.Common.{
  ℕ, List, [], ◌∷◌, ℤ, ◌+ℤ◌, ◌-ℤ◌, ◌≡◌, refl, sym, ap, ◌∙◌, +ℤ-zero, +ℤ_assoc,
}
use mathlib.Core.Path.{fun_ext}
use naoto_exchange.Triple.{
  Positions, Index, index_0, index_1, index_2, Three, add_at, caught_up_0, caught_up_1, caught_up_2,
  add_at_pending,
}
use naoto_exchange.Account.Client.{ClientState, ClientDelta}
use naoto_exchange.Account.Buffer.{
  new_slot, set_client_state, set_client_assets, apply_delta, flush_triple_buffer, Slot,
}
use naoto_exchange.Account.Buffer.Spec.{
  Op, set_state, set_assets, flush, apply_op, Account, View, view, add_assets, carry, spec_op,
  IsSynced, slot, Refines, apply_ops, spec_ops,
}

same_state :
    (c : ClientState) (f g h k : Positions ℤ)
    → ((i : ℕ) → f i ≡ h i)
    → ((i : ℕ) → g i ≡ k i)
    → Path ClientState
        (record c { confirmed = f; attempt = g })
        (record c { confirmed = h; attempt = k })
same_state c f g h k p q = rw (fun_ext p, fun_ext q) refl

with_pending : Account → ℕ → ClientState → View
with_pending shown n c = record { shown = shown; pending = (c, n) }

set_state_view :
    (c w v : ClientState) (d : ClientDelta)
    → Path ClientState
        (record c {
          confirmed = λ i. w.confirmed i +ℤ (d.confirmed i +ℤ (c.confirmed i -ℤ v.confirmed i));
          attempt = λ i. w.attempt i +ℤ (d.attempt i +ℤ (c.attempt i -ℤ v.attempt i));
        })
        (carry c v (apply_delta d w))
set_state_view c w v d =
    same_state c _ _ _ _
      (λ i. sym (+ℤ_assoc (w.confirmed i) (d.confirmed i) (c.confirmed i -ℤ v.confirmed i)))
      (λ i. sym (+ℤ_assoc (w.attempt i) (d.attempt i) (c.attempt i -ℤ v.attempt i)))

set_assets_view :
    (confirmed attempt : ℤ) (asset : ℕ) (c : ClientState) (d : ClientDelta)
    → Path ClientState
        (apply_delta
          (record {
            confirmed = add_at c.asset_id asset confirmed d.confirmed;
            attempt = add_at c.asset_id asset attempt d.attempt;
          })
          c)
        (add_assets confirmed attempt asset (apply_delta d c))
unfolding add_assets
set_assets_view confirmed attempt asset c d =
    same_state c _ _ _ _ (add_at_pending c.asset_id asset confirmed c.confirmed d.confirmed)
      (add_at_pending c.asset_id asset attempt c.attempt d.attempt)

refine_set_state :
    (c : ClientState) (m : ℕ) (t : Three ClientState) (d : Three ClientDelta) (n : Three ℕ)
    (k : Index)
    → IsSynced (slot t d n k)
    → Refines (set_state c m) (slot t d n k)
unfolding IsSynced Refines apply_op spec_op view set_client_state with_pending
refine_set_state c m t d n index_0 h =
    (h, ap (with_pending (t.at_0, n.at_0) m) (set_state_view c t.at_1 t.at_0 d.at_0))
refine_set_state c m t d n index_1 h =
    (h, ap (with_pending (t.at_1, n.at_1) m) (set_state_view c t.at_2 t.at_1 d.at_1))
refine_set_state c m t d n index_2 h =
    (h, ap (with_pending (t.at_2, n.at_2) m) (set_state_view c t.at_0 t.at_2 d.at_2))

refine_set_assets :
    (c a : ℤ) (asset m : ℕ) (t : Three ClientState) (d : Three ClientDelta) (n : Three ℕ)
    (k : Index)
    → IsSynced (slot t d n k)
    → Refines (set_assets c a asset m) (slot t d n k)
unfolding IsSynced Refines apply_op spec_op view set_client_assets with_pending
refine_set_assets c a asset m t d n index_0 h =
    (h, ap (with_pending (t.at_0, n.at_0) m) (set_assets_view c a asset t.at_1 d.at_0))
refine_set_assets c a asset m t d n index_1 h =
    (h, ap (with_pending (t.at_1, n.at_1) m) (set_assets_view c a asset t.at_2 d.at_1))
refine_set_assets c a asset m t d n index_2 h =
    (h, ap (with_pending (t.at_2, n.at_2) m) (set_assets_view c a asset t.at_0 d.at_2))

flush-IsSynced :
    (t : Three ClientState) (d : Three ClientDelta) (n : Three ℕ) (k : Index)
    → IsSynced (slot t d n k)
    → IsSynced (flush_triple_buffer (slot t d n k))
unfolding IsSynced flush_triple_buffer
flush-IsSynced t d n index_0 h = λ i. (
  caught_up_0 _ _ _ (d.at_0.confirmed i) _ (h i).0 (h i).1,
  ap (λ v. v +ℤ d.at_0.confirmed i) (h i).0,
  caught_up_0 _ _ _ (d.at_0.attempt i) _ (h i).2 (h i).3,
  ap (λ v. v +ℤ d.at_0.attempt i) (h i).2,
)
flush-IsSynced t d n index_1 h = λ i. (
  caught_up_1 _ _ _ (d.at_1.confirmed i) _ (h i).0 (h i).1,
  ap (λ v. v +ℤ d.at_1.confirmed i) (h i).0,
  caught_up_1 _ _ _ (d.at_1.attempt i) _ (h i).2 (h i).3,
  ap (λ v. v +ℤ d.at_1.attempt i) (h i).2,
)
flush-IsSynced t d n index_2 h = λ i. (
  caught_up_2 _ _ _ (d.at_2.confirmed i) _ (h i).0 (h i).1,
  ap (λ v. v +ℤ d.at_2.confirmed i) (h i).0,
  caught_up_2 _ _ _ (d.at_2.attempt i) _ (h i).2 (h i).3,
  ap (λ v. v +ℤ d.at_2.attempt i) (h i).2,
)

view-flush :
    (t : Three ClientState) (d : Three ClientDelta) (n : Three ℕ) (k : Index)
    → IsSynced (flush_triple_buffer (slot t d n k))
    → view (flush_triple_buffer (slot t d n k)) ≡ spec_op flush (view (slot t d n k))
unfolding IsSynced flush_triple_buffer spec_op view with_pending
view-flush t d n index_0 h =
    let cur = apply_delta d.at_0 t.at_1 in
    ap (with_pending (cur, n.at_1) n.at_1)
      (same_state cur _ _ _ _ (λ i. +ℤ-zero _ ∙ (h i).0) (λ i. +ℤ-zero _ ∙ (h i).2))
view-flush t d n index_1 h =
    let cur = apply_delta d.at_1 t.at_2 in
    ap (with_pending (cur, n.at_2) n.at_2)
      (same_state cur _ _ _ _ (λ i. +ℤ-zero _ ∙ (h i).0) (λ i. +ℤ-zero _ ∙ (h i).2))
view-flush t d n index_2 h =
    let cur = apply_delta d.at_2 t.at_0 in
    ap (with_pending (cur, n.at_0) n.at_0)
      (same_state cur _ _ _ _ (λ i. +ℤ-zero _ ∙ (h i).0) (λ i. +ℤ-zero _ ∙ (h i).2))

-- Every operation acts as its specification on what is shown and what is pending, sequence ids
-- included, and keeps the copies in agreement.
pub apply_op-Refines : (op : Op) (s : Slot) → IsSynced s → Refines op s
unfolding Refines apply_op
apply_op-Refines (set_state c m) s h =
    refine_set_state c m s.states s.deltas s.sequence_ids s.complete h
apply_op-Refines (set_assets c a asset m) s h =
    refine_set_assets c a asset m s.states s.deltas s.sequence_ids s.complete h
apply_op-Refines flush s h =
    let synced = flush-IsSynced s.states s.deltas s.sequence_ids s.complete h in
    (synced, view-flush s.states s.deltas s.sequence_ids s.complete synced)

ops_from : (ops : List Op) (s : Slot) → IsSynced s → view (apply_ops ops s) ≡ spec_ops ops (view s)
unfolding apply_ops spec_ops Refines
ops_from [] s h = refl
ops_from (op ∷ ops) s h =
    let r = apply_op-Refines op s h in ops_from ops (apply_op op s) r.0 ∙ ap (spec_ops ops) r.1

pub new_slot-IsSynced : (c : ClientState) → IsSynced (new_slot c)
unfolding new_slot IsSynced
new_slot-IsSynced c = λ i. (refl, sym (+ℤ-zero (c.confirmed i)), refl, sym (+ℤ-zero (c.attempt i)))

pub view-new_slot :
    (c : ClientState) → view (new_slot c) ≡ record { shown = (c, 0); pending = (c, 0) }
unfolding view new_slot with_pending
view-new_slot c =
    ap (with_pending (c, 0) 0)
      (same_state c _ _ _ _ (λ i. +ℤ-zero (c.confirmed i)) (λ i. +ℤ-zero (c.attempt i)))

-- From a fresh slot, after any operations of the writer in any order, a reader finds the account that
-- the specification shows, and the next flush shows the one that is pending there.
pub account_ops_refines :
    (ops : List Op) (c : ClientState)
    → view (apply_ops ops (new_slot c)) ≡ spec_ops ops (record { shown = (c, 0); pending = (c, 0) })
account_ops_refines ops c =
    ops_from ops (new_slot c) (new_slot-IsSynced c) ∙ ap (spec_ops ops) (view-new_slot c)
