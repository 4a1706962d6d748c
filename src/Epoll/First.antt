-- ===== src/Epoll/First.antt =====
-- market_server/common/include/epoll_server.hpp: the first message of a connection, which is of another
-- type than those behind it and goes to `FirstMessageHandle`.
use naoto_exchange.Common.{
  ℕ, ◌-◌, List, [], ◌∷◌, ◌++◌, Bool, true, false, leb, if◌then◌else◌, length, take, not, ◌||◌,
}
use naoto_exchange.Epoll.{
  ObjectBuffer, add_bytes, read_bytes, Client, Turn, remove_client, read_messages,
}
use naoto_exchange.Epoll.Turns.{stream}

-- One turn of the loop that reads the first message, by what `recv` does: it finds bytes; the client has
-- closed the connection; it would block or is interrupted; it fails otherwise.
pub data FirstTurn : Type 0 where
  got : List ℕ → FirstTurn
  hung_up : FirstTurn
  not_now : FirstTurn
  broke : FirstTurn

-- The buffer, what `recv` has given so far, and whether the client was removed.
pub record First : Type 0 where
  pub buffer : ObjectBuffer
  pub received : List ℕ
  pub removed : Bool

abbrev pub remove : First → First
remove f = record { buffer = []; received = f.received; removed = true }

-- Bytes come: `recv` gives no more of them than the `sizeof(InitMessage) - BufferSize` that it is asked for.
unfoldable pub accept : ℕ → ℕ → List ℕ → First → First
unfolding add_bytes
accept init size bytes f =
    let given = take (init - length f.buffer) bytes in
    let added = add_bytes size given f.buffer in
    record {
      buffer = if added.0 then added.1 else [];
      received = f.received ++ given;
      removed = not added.0;
    }

-- The loop, which ends when the message is there, when there is nothing to read, or when the client is removed.
unfoldable pub first_loop : ℕ → ℕ → List FirstTurn → First → First
unfolding accept
first_loop init size [] f = f
first_loop init size (got bytes ∷ ts) f =
    let rest = first_loop init size ts (accept init size bytes f) in
    if f.removed || leb init (length f.buffer) then f else rest
first_loop init size (hung_up ∷ ts) f =
    if f.removed || leb init (length f.buffer) then f else remove f
first_loop init size (not_now ∷ ts) f = f
first_loop init size (broke ∷ ts) f =
    if f.removed || leb init (length f.buffer) then f else remove f

-- A descriptor: its client, `FirstMessage`, the messages that `FirstMessageHandle` was given, and what
-- `recv` has given so far.
pub record Session : Type 0 where
  pub client : Client
  pub first_message : Bool
  pub handled : List (List ℕ)
  pub received : List ℕ

-- `addClient`
abbrev pub new_session : Session
new_session = record {
  client = record { buffer = []; connected = true; batches = [] };
  first_message = true;
  handled = [];
  received = [];
}

-- What the turns of one call of `readMessage` find.
pub record Event : Type 0 where
  pub first_turns : List FirstTurn
  pub turns : List Turn

abbrev pub go_on : ℕ → List Turn → Session → Session
go_on size ts s = record s {
  client = read_messages size ts s.client;
  received = s.received ++ stream ts;
}

-- The first message is handled, and the loop for the others follows at once.
unfoldable pub greet : ℕ → ℕ → List Turn → ObjectBuffer → Session → Session
unfolding read_bytes read_messages
greet init size ts buffer s =
    let cut = read_bytes init buffer in
    go_on size ts (record s {
      client = record s.client { buffer = cut.1 };
      first_message = false;
      handled = s.handled ++ (cut.0 ∷ []);
    })

unfoldable pub after_first : ℕ → ℕ → List Turn → First → Session → Session
unfolding greet
after_first init size ts f s =
    let t = record s { received = f.received } in
    if f.removed
    then record t { client = remove_client t.client }
    else if leb init (length f.buffer)
    then greet init size ts f.buffer t
    else record t { client = record t.client { buffer = f.buffer } }

-- `readMessage`
unfoldable pub read_event : ℕ → ℕ → Event → Session → Session
unfolding first_loop after_first read_messages
read_event init size ev s =
    let first =
      first_loop init size ev.first_turns
        (record { buffer = s.client.buffer; received = s.received; removed = false }) in
    if s.first_message then after_first init size ev.turns first s else go_on size ev.turns s

-- The calls for a descriptor, until it is closed.
unfoldable pub read_events : ℕ → ℕ → List Event → Session → Session
unfolding read_event
read_events init size [] s = s
read_events init size (ev ∷ evs) s =
    let rest = read_events init size evs (read_event init size ev s) in
    if s.client.connected then rest else s
