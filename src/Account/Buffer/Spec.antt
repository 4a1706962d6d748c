-- ===== src/Account/Buffer/Spec.antt =====
-- What the three copies stand for: an account that is shown and one that is pending, each with its
-- sequence id.
use naoto_exchange.Common.{ℕ, List, [], ◌∷◌, ℤ, ◌+ℤ◌, ◌-ℤ◌, ◌≡◌}
use naoto_exchange.Triple.{Index, next, Three, at, add_at}
use naoto_exchange.Account.Client.{ClientState, ClientDelta}
use naoto_exchange.Account.Buffer.{
  Slot, work, set_client_state, set_client_assets, apply_delta, flush_triple_buffer,
}

-- The operations of the writer on one client.
pub data Op : Type 0 where
  set_state : ClientState → ℕ → Op
  set_assets : ℤ → ℤ → ℕ → ℕ → Op
  flush : Op

unfoldable pub apply_op : Op → Slot → Slot
unfolding set_client_state set_client_assets flush_triple_buffer
apply_op (set_state c n) s = set_client_state c n s
apply_op (set_assets c a asset n) s = set_client_assets c a asset n s
apply_op flush s = flush_triple_buffer s

-- An account with the sequence id of the last report in it.
abbrev pub Account : Type 0
Account = ClientState × ℕ

pub record View : Type 0 where
  pub shown : Account
  pub pending : Account

unfoldable pub view : Slot → View
view s = record {
  shown = (at s.complete s.states, at s.complete s.sequence_ids);
  pending = (apply_delta (at s.complete s.deltas) (work s), at (next s.complete) s.sequence_ids);
}

unfoldable pub add_assets : ℤ → ℤ → ℕ → ClientState → ClientState
add_assets confirmed attempt asset c = record c {
  confirmed = add_at c.asset_id asset confirmed c.confirmed;
  attempt = add_at c.asset_id asset attempt c.attempt;
}

-- The account as given, with what was pending beyond what is shown.
abbrev pub carry : ClientState → ClientState → ClientState → ClientState
carry c shown pending = record c {
  confirmed = λ i. pending.confirmed i +ℤ (c.confirmed i -ℤ shown.confirmed i);
  attempt = λ i. pending.attempt i +ℤ (c.attempt i -ℤ shown.attempt i);
}

unfoldable pub spec_op : Op → View → View
unfolding add_assets
spec_op (set_state c n) v = record v { pending = (carry c v.shown.0 v.pending.0, n) }
spec_op (set_assets c a asset n) v = record v { pending = (add_assets c a asset v.pending.0, n) }
spec_op flush v = record v { shown = v.pending }

-- The copies agree: the one in preparation starts from the one shown, which is ahead of the third by
-- the delta of the last flush.
abbrev pub Balanced : Three ClientState → Three ClientDelta → Index → Type 0
Balanced t d c =
    let n = next c in
    let p = next n in
    (i : ℕ)
    → ((at n t).confirmed i ≡ (at c t).confirmed i)
      × ((at c t).confirmed i ≡ (at p t).confirmed i +ℤ (at p d).confirmed i)
      × ((at n t).attempt i ≡ (at c t).attempt i)
      × ((at c t).attempt i ≡ (at p t).attempt i +ℤ (at p d).attempt i)

unfoldable pub IsSynced : Slot → Type 0
IsSynced s = Balanced s.states s.deltas s.complete

abbrev pub slot : Three ClientState → Three ClientDelta → Three ℕ → Index → Slot
slot t d n c = record { states = t; deltas = d; sequence_ids = n; complete = c }

unfoldable pub Refines : Op → Slot → Type 0
Refines op s = IsSynced (apply_op op s) × (view (apply_op op s) ≡ spec_op op (view s))

unfoldable pub apply_ops : List Op → Slot → Slot
apply_ops [] s = s
apply_ops (op ∷ ops) s = apply_ops ops (apply_op op s)

unfoldable pub spec_ops : List Op → View → View
spec_ops [] v = v
spec_ops (op ∷ ops) v = spec_ops ops (spec_op op v)
