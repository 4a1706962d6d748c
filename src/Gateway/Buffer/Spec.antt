-- ===== src/Gateway/Buffer/Spec.antt =====
-- What the three copies stand for: the state that is shown and the one that is pending.
use naoto_exchange.Common.{ℕ, suc, List, [], ◌∷◌, ◌==◌, if◌then◌else◌, ℤ, ◌+ℤ◌, ◌≡◌}
use naoto_exchange.Triple.{Index, next, Three, at, add_at}
use naoto_exchange.Wire.{ClientAccountSnapshot, u32}
use naoto_exchange.Gateway.Client.{ClientState, ClientDelta}
use naoto_exchange.Gateway.Buffer.{
  Slot, work, set_auth_status, set_client_state, set_client_assets, apply_delta,
  flush_triple_buffer,
}

-- The operations of the writer on one client.
pub data Op : Type 0 where
  set_auth : ℕ → Op
  set_state : ClientAccountSnapshot → Op
  set_assets : ℤ → ℤ → ℕ → Op
  flush : Op

unfoldable pub apply_op : Op → Slot → Slot
unfolding set_auth_status set_client_state set_client_assets flush_triple_buffer
apply_op (set_auth a) s = set_auth_status a s
apply_op (set_state r) s = set_client_state r s
apply_op (set_assets c a asset) s = set_client_assets c a asset s
apply_op flush s = flush_triple_buffer s

-- The specification: the state that is shown, and the state that the next flush shows.
pub record View : Type 0 where
  pub shown : ClientState
  pub pending : ClientState

unfoldable pub view : Slot → View
view s = record {
  shown = at s.complete s.states;
  pending = apply_delta (at s.complete s.deltas) (work s);
}

abbrev pub become : ClientAccountSnapshot → ClientState → ClientState
become r c = record {
  client_id = r.client_id;
  asset_id = r.asset_id;
  confirmed = r.confirmed;
  attempt = r.attempt;
  auth = 1;
  session_id = u32 (suc c.session_id);
}

unfoldable pub add_assets : ℤ → ℤ → ℕ → ClientState → ClientState
add_assets confirmed attempt asset c = record c {
  confirmed = add_at c.asset_id asset confirmed c.confirmed;
  attempt = add_at c.asset_id asset attempt c.attempt;
}

unfoldable pub spec_op : Op → View → View
unfolding add_assets
spec_op (set_auth a) v = record v {
  pending = record (v.pending) { auth = if a == 0 then 0 else 1 };
}
spec_op (set_state r) v = record v { pending = become r v.pending }
spec_op (set_assets c a asset) v = record v { pending = add_assets c a asset v.pending }
spec_op flush v = record v { shown = v.pending }

-- The copies agree: the one in preparation starts from the one shown, which is ahead of the third by
-- the delta of the last flush.
abbrev pub Balanced : Three ClientState → Three ClientDelta → Index → Type 0
Balanced t d c =
    let n = next c in
    let p = next n in
    (i : ℕ)
    → ((at n t).confirmed i ≡ (at c t).confirmed i)
      × ((at c t).confirmed i ≡ (at p t).confirmed i +ℤ (at p d).confirmed i)
      × ((at n t).attempt i ≡ (at c t).attempt i)
      × ((at c t).attempt i ≡ (at p t).attempt i +ℤ (at p d).attempt i)

unfoldable pub IsSynced : Slot → Type 0
IsSynced s = Balanced s.states s.deltas s.complete

abbrev pub slot : Three ClientState → Three ClientDelta → Index → Slot
slot t d c = record { states = t; deltas = d; complete = c }

-- An operation refines its specification, and keeps the copies in agreement.
unfoldable pub Refines : Op → Slot → Type 0
Refines op s = IsSynced (apply_op op s) × (view (apply_op op s) ≡ spec_op op (view s))

unfoldable pub apply_ops : List Op → Slot → Slot
apply_ops [] s = s
apply_ops (op ∷ ops) s = apply_ops ops (apply_op op s)

unfoldable pub spec_ops : List Op → View → View
spec_ops [] v = v
spec_ops (op ∷ ops) v = spec_ops ops (spec_op op v)
