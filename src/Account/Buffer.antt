-- ===== src/Account/Buffer.antt =====
-- market_server/account_service/include/client_states.hpp: three copies of a client's account, each
-- with the sequence id of the last report in it. One slot here is what the vectors hold for a client.
pub mod Spec
pub mod Refines
use naoto_exchange.Common.{ℕ, ◌==◌, if◌then◌else◌, ℤ, pos, ◌+ℤ◌, ◌-ℤ◌}
use naoto_exchange.Triple.{Index, index_0, next, Three, at, put, add_at}
use naoto_exchange.Account.Client.{ClientState, ClientDelta, no_delta}

-- `States1` to `States3`, `Deltas`, `SequenceIds` and `Complete` for one client.
pub record Slot : Type 0 where
  pub states : Three ClientState
  pub deltas : Three ClientDelta
  pub sequence_ids : Three ℕ
  pub complete : Index

-- The constructors: three equal copies.
unfoldable pub new_slot : ClientState → Slot
new_slot c = record {
  states = record { at_0 = c; at_1 = c; at_2 = c };
  deltas = record { at_0 = no_delta; at_1 = no_delta; at_2 = no_delta };
  sequence_ids = record { at_0 = 0; at_1 = 0; at_2 = 0 };
  complete = index_0;
}

-- `GetClientState`
unfoldable pub get_client_state : Slot → ClientState
get_client_state s = at s.complete s.states

-- The copy that the writer prepares.
abbrev pub work : Slot → ClientState
work s = at (next s.complete) s.states

-- `SetClientState`: the difference from the copy shown is added to the delta.
unfoldable pub set_client_state : ClientState → ℕ → Slot → Slot
set_client_state c sequence_id s =
    let ref = at s.complete s.states in
    let d = at s.complete s.deltas in
    record s {
      states =
          put (next s.complete)
            (record (work s) {
              client_id = c.client_id;
              key = c.key;
              asset_id = c.asset_id;
              authorized = c.authorized;
              connected = c.connected;
            })
            s.states;
      deltas =
          put s.complete
            (record {
              confirmed = λ i. d.confirmed i +ℤ (c.confirmed i -ℤ ref.confirmed i);
              attempt = λ i. d.attempt i +ℤ (c.attempt i -ℤ ref.attempt i);
            })
            s.deltas;
      sequence_ids = put (next s.complete) sequence_id s.sequence_ids;
    }

-- `SetClientAssets`
unfoldable pub set_client_assets : ℤ → ℤ → ℕ → ℕ → Slot → Slot
set_client_assets confirmed attempt asset sequence_id s =
    let d = at s.complete s.deltas in
    let ids = (work s).asset_id in
    record s {
      deltas =
          put s.complete
            (record {
              confirmed = add_at ids asset confirmed d.confirmed;
              attempt = add_at ids asset attempt d.attempt;
            })
            s.deltas;
      sequence_ids = put (next s.complete) sequence_id s.sequence_ids;
    }

-- The first loop of `FlushTripleBuffer`.
abbrev pub apply_delta : ClientDelta → ClientState → ClientState
apply_delta d c = record c {
  confirmed = λ i. c.confirmed i +ℤ d.confirmed i;
  attempt = λ i. c.attempt i +ℤ d.attempt i;
}

-- The second loop.
abbrev pub apply_deltas : Three ClientDelta → ClientState → ClientState
apply_deltas d c = apply_delta d.at_2 (apply_delta d.at_1 (apply_delta d.at_0 c))

-- `FlushTripleBuffer`
unfoldable pub flush_triple_buffer : Slot → Slot
flush_triple_buffer s =
    let shown = next s.complete in
    let cur = apply_delta (at s.complete s.deltas) (work s) in
    let deltas = put shown no_delta s.deltas in
    let fresh = apply_deltas deltas (at (next shown) s.states) in
    record {
      states =
          put (next shown)
            (record fresh {
              asset_id = cur.asset_id;
              client_id = cur.client_id;
              key = cur.key;
              authorized = cur.authorized;
              connected = cur.connected;
            })
            (put shown cur s.states);
      deltas = deltas;
      sequence_ids = put (next shown) (at shown s.sequence_ids) s.sequence_ids;
      complete = shown;
    }
