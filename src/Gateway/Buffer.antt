-- ===== src/Gateway/Buffer.antt =====
-- market_server/order_gateway/include/client_states.hpp: three copies of a client's state, of which
-- `Complete` names the one that the router reads while the writer prepares the next. One slot here
-- is what the vectors hold at one client's file descriptor.
pub mod Spec
pub mod Steps
pub mod Refines
use naoto_exchange.Common.{
  ℕ, suc, Bool, Option, none, some, ◌==◌, if◌then◌else◌, ℤ, pos, ◌+ℤ◌, ◌-ℤ◌,
}
use naoto_exchange.Triple.{Positions, Index, index_0, next, Three, at, put, add_at}
use naoto_exchange.Wire.{ClientAccountSnapshot, u32}
use naoto_exchange.Gateway.Client.{ClientState, ClientDelta, new_client_state, get_asset_idx}

-- `States1`, `States2`, `States3`, `Deltas` and `Complete` at one file descriptor.
pub record Slot : Type 0 where
  pub states : Three ClientState
  pub deltas : Three ClientDelta
  pub complete : Index

abbrev pub no_delta : ClientDelta
no_delta = record { confirmed = λ i. pos 0; attempt = λ i. pos 0 }

-- The constructors: three equal copies.
unfoldable pub new_slot : ClientState → Slot
new_slot c = record {
  states = record { at_0 = c; at_1 = c; at_2 = c };
  deltas = record { at_0 = no_delta; at_1 = no_delta; at_2 = no_delta };
  complete = index_0;
}

-- `GetClientState`, with `GetClientId`, `GetClientAuth` and `GetClientFunds`
unfoldable pub get_client_state : Slot → ClientState
get_client_state s = at s.complete s.states

unfoldable pub get_client_id : Slot → ℕ
unfolding get_client_state
get_client_id s = (get_client_state s).client_id

unfoldable pub get_client_auth : Slot → ℕ
unfolding get_client_state
get_client_auth s = (get_client_state s).auth

unfoldable pub get_client_funds : Slot → ℕ → Option (ℤ × ℤ)
unfolding get_client_state get_asset_idx
get_client_funds s asset =
    let c = get_client_state s in
    elim (get_asset_idx c asset) [ none ↦ none | some i ↦ some (c.confirmed i, c.attempt i) ]

-- The copy that the writer prepares.
abbrev pub work : Slot → ClientState
work s = at (next s.complete) s.states

abbrev pub put_work : ClientState → Slot → Slot
put_work c s = record s { states = put (next s.complete) c s.states }

-- `SetAuthStatus`
unfoldable pub set_auth_status : ℕ → Slot → Slot
set_auth_status auth s = put_work (record (work s) { auth = if auth == 0 then 0 else 1 }) s

-- `SetClientState`: the deltas lead from the visible copy to the answer.
unfoldable pub set_client_state : ClientAccountSnapshot → Slot → Slot
set_client_state r s =
    let ref = at s.complete s.states in
    let changed = record (work s) {
      client_id = r.client_id;
      auth = 1;
      session_id = u32 (suc (work s).session_id);
      asset_id = r.asset_id;
    } in
    record (put_work changed s) {
      deltas =
          put s.complete
            (record {
              confirmed = λ i. r.confirmed i -ℤ ref.confirmed i;
              attempt = λ i. r.attempt i -ℤ ref.attempt i;
            })
            s.deltas;
    }

-- `SetClientAssets`
unfoldable pub set_client_assets : ℤ → ℤ → ℕ → Slot → Slot
set_client_assets confirmed attempt asset s =
    let d = at s.complete s.deltas in
    let ids = (work s).asset_id in
    record s {
      deltas =
          put s.complete
            (record {
              confirmed = add_at ids asset confirmed d.confirmed;
              attempt = add_at ids asset attempt d.attempt;
            })
            s.deltas;
    }

-- The first loop of `FlushTripleBuffer`: the pending delta goes to the copy that becomes visible.
abbrev pub apply_delta : ClientDelta → ClientState → ClientState
apply_delta d c = record c {
  confirmed = λ i. c.confirmed i +ℤ d.confirmed i;
  attempt = λ i. c.attempt i +ℤ d.attempt i;
}

-- The second loop: all three deltas go to the copy that the writer prepares next.
abbrev pub apply_deltas : Three ClientDelta → ClientState → ClientState
apply_deltas d c = apply_delta d.at_2 (apply_delta d.at_1 (apply_delta d.at_0 c))

-- `FlushTripleBuffer`
unfoldable pub flush_triple_buffer : Slot → Slot
flush_triple_buffer s =
    let shown = next s.complete in
    let cur = apply_delta (at s.complete s.deltas) (work s) in
    let deltas = put shown no_delta s.deltas in
    let fresh = apply_deltas deltas (at (next shown) s.states) in
    record {
      states =
          put (next shown)
            (record fresh {
              asset_id = cur.asset_id;
              client_id = cur.client_id;
              auth = cur.auth;
              session_id = cur.session_id;
            })
            (put shown cur s.states);
      deltas = deltas;
      complete = shown;
    }
