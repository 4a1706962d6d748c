-- ===== src/Gateway/Buffer/Steps.antt =====
-- Each operation of the writer on the three copies.
use naoto_exchange.Common.{ℕ, ℤ, ◌+ℤ◌, ◌-ℤ◌, ◌≡◌, refl, sym, ap, ◌∙◌, +ℤ-sub, +ℤ-zero}
use naoto_exchange.Wire.{ClientAccountSnapshot}
use naoto_exchange.Triple.{
  Positions, Index, index_0, index_1, index_2, Three, add_at, caught_up_0, caught_up_1, caught_up_2,
  add_at_pending,
}
use mathlib.Core.Path.{fun_ext}
use naoto_exchange.Gateway.Client.{ClientState, ClientDelta}
use naoto_exchange.Gateway.Buffer.{
  new_slot, set_auth_status, set_client_state, set_client_assets, apply_delta, flush_triple_buffer,
}
use naoto_exchange.Gateway.Buffer.Spec.{
  set_auth, set_state, set_assets, flush, apply_op, view, become, add_assets, spec_op, IsSynced,
  slot, Refines,
}

pub same_state :
    (c : ClientState) (f g h k : Positions ℤ)
    → ((i : ℕ) → f i ≡ h i)
    → ((i : ℕ) → g i ≡ k i)
    → Path ClientState
        (record c { confirmed = f; attempt = g })
        (record c { confirmed = h; attempt = k })
same_state c f g h k p q = rw (fun_ext p, fun_ext q) refl

pub new_slot-IsSynced : (c : ClientState) → IsSynced (new_slot c)
unfolding new_slot IsSynced
new_slot-IsSynced c = λ i. (refl, sym (+ℤ-zero (c.confirmed i)), refl, sym (+ℤ-zero (c.attempt i)))

pub refine_set_auth :
    (a : ℕ) (t : Three ClientState) (d : Three ClientDelta) (c : Index)
    → IsSynced (slot t d c)
    → Refines (set_auth a) (slot t d c)
unfolding IsSynced Refines apply_op spec_op view set_auth_status
refine_set_auth a t d index_0 h = (h, refl)
refine_set_auth a t d index_1 h = (h, refl)
refine_set_auth a t d index_2 h = (h, refl)

set_state_view :
    (r : ClientAccountSnapshot) (c v : ClientState)
    → ((i : ℕ) → c.confirmed i ≡ v.confirmed i)
    → ((i : ℕ) → c.attempt i ≡ v.attempt i)
    → Path ClientState
        (record (become r c) {
          confirmed = λ i. c.confirmed i +ℤ (r.confirmed i -ℤ v.confirmed i);
          attempt = λ i. c.attempt i +ℤ (r.attempt i -ℤ v.attempt i);
        })
        (become r c)
set_state_view r c v h k =
    same_state (become r c) _ _ _ _ (λ i. rw (h i) (+ℤ-sub (v.confirmed i) (r.confirmed i)))
      (λ i. rw (k i) (+ℤ-sub (v.attempt i) (r.attempt i)))

pub refine_set_state :
    (r : ClientAccountSnapshot) (t : Three ClientState) (d : Three ClientDelta) (c : Index)
    → IsSynced (slot t d c)
    → Refines (set_state r) (slot t d c)
unfolding IsSynced Refines apply_op spec_op view set_client_state
refine_set_state r t d index_0 h = (
  h,
  ap (λ p. record { shown = t.at_0; pending = p })
      (set_state_view r t.at_1 t.at_0 (λ i. (h i).0) (λ i. (h i).2)),
)
refine_set_state r t d index_1 h = (
  h,
  ap (λ p. record { shown = t.at_1; pending = p })
      (set_state_view r t.at_2 t.at_1 (λ i. (h i).0) (λ i. (h i).2)),
)
refine_set_state r t d index_2 h = (
  h,
  ap (λ p. record { shown = t.at_2; pending = p })
      (set_state_view r t.at_0 t.at_2 (λ i. (h i).0) (λ i. (h i).2)),
)

set_assets_view :
    (confirmed attempt : ℤ) (asset : ℕ) (c : ClientState) (d : ClientDelta)
    → Path ClientState
        (apply_delta
          (record {
            confirmed = add_at c.asset_id asset confirmed d.confirmed;
            attempt = add_at c.asset_id asset attempt d.attempt;
          })
          c)
        (add_assets confirmed attempt asset (apply_delta d c))
unfolding add_assets
set_assets_view confirmed attempt asset c d =
    same_state c _ _ _ _ (add_at_pending c.asset_id asset confirmed c.confirmed d.confirmed)
      (add_at_pending c.asset_id asset attempt c.attempt d.attempt)

pub refine_set_assets :
    (c a : ℤ) (asset : ℕ) (t : Three ClientState) (d : Three ClientDelta) (k : Index)
    → IsSynced (slot t d k)
    → Refines (set_assets c a asset) (slot t d k)
unfolding IsSynced Refines apply_op spec_op view set_client_assets
refine_set_assets c a asset t d index_0 h =
    (h, ap (λ p. record { shown = t.at_0; pending = p }) (set_assets_view c a asset t.at_1 d.at_0))
refine_set_assets c a asset t d index_1 h =
    (h, ap (λ p. record { shown = t.at_1; pending = p }) (set_assets_view c a asset t.at_2 d.at_1))
refine_set_assets c a asset t d index_2 h =
    (h, ap (λ p. record { shown = t.at_2; pending = p }) (set_assets_view c a asset t.at_0 d.at_2))

pub flush-IsSynced :
    (t : Three ClientState) (d : Three ClientDelta) (k : Index)
    → IsSynced (slot t d k)
    → IsSynced (flush_triple_buffer (slot t d k))
unfolding IsSynced flush_triple_buffer
flush-IsSynced t d index_0 h = λ i. (
  caught_up_0 _ _ _ (d.at_0.confirmed i) _ (h i).0 (h i).1,
  ap (λ v. v +ℤ d.at_0.confirmed i) (h i).0,
  caught_up_0 _ _ _ (d.at_0.attempt i) _ (h i).2 (h i).3,
  ap (λ v. v +ℤ d.at_0.attempt i) (h i).2,
)
flush-IsSynced t d index_1 h = λ i. (
  caught_up_1 _ _ _ (d.at_1.confirmed i) _ (h i).0 (h i).1,
  ap (λ v. v +ℤ d.at_1.confirmed i) (h i).0,
  caught_up_1 _ _ _ (d.at_1.attempt i) _ (h i).2 (h i).3,
  ap (λ v. v +ℤ d.at_1.attempt i) (h i).2,
)
flush-IsSynced t d index_2 h = λ i. (
  caught_up_2 _ _ _ (d.at_2.confirmed i) _ (h i).0 (h i).1,
  ap (λ v. v +ℤ d.at_2.confirmed i) (h i).0,
  caught_up_2 _ _ _ (d.at_2.attempt i) _ (h i).2 (h i).3,
  ap (λ v. v +ℤ d.at_2.attempt i) (h i).2,
)

pub view-flush :
    (t : Three ClientState) (d : Three ClientDelta) (k : Index)
    → IsSynced (flush_triple_buffer (slot t d k))
    → view (flush_triple_buffer (slot t d k)) ≡ spec_op flush (view (slot t d k))
unfolding IsSynced flush_triple_buffer spec_op view
view-flush t d index_0 h =
    let shown = apply_delta d.at_0 t.at_1 in
    ap (λ p. record { shown = shown; pending = p })
      (same_state shown _ _ _ _ (λ i. +ℤ-zero _ ∙ (h i).0) (λ i. +ℤ-zero _ ∙ (h i).2))
view-flush t d index_1 h =
    let shown = apply_delta d.at_1 t.at_2 in
    ap (λ p. record { shown = shown; pending = p })
      (same_state shown _ _ _ _ (λ i. +ℤ-zero _ ∙ (h i).0) (λ i. +ℤ-zero _ ∙ (h i).2))
view-flush t d index_2 h =
    let shown = apply_delta d.at_2 t.at_0 in
    ap (λ p. record { shown = shown; pending = p })
      (same_state shown _ _ _ _ (λ i. +ℤ-zero _ ∙ (h i).0) (λ i. +ℤ-zero _ ∙ (h i).2))
