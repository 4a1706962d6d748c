-- ===== src/Epoll.antt =====
-- market_server/common/include/epoll_server.hpp, object_buffer.hpp and object_batch.hpp: how the bytes
-- that a client sends become batches of whole messages.
pub mod Turns
pub mod Framing
pub mod First
pub mod Greeting
mod Tests
use naoto_exchange.Common.{
  ℕ, ◌+◌, ◌*◌, ◌/◌, ◌%◌, List, [], ◌∷◌, ◌++◌, Bool, true, false, ltb, leb, if◌then◌else◌, length,
  take, drop,
}

-- What `ObjectBuffer` holds in its first `BufferSize` bytes.
abbrev pub ObjectBuffer : Type 0
ObjectBuffer = List ℕ

-- `addBytes`, for objects of a size.
unfoldable pub add_bytes : ℕ → List ℕ → ObjectBuffer → Bool × ObjectBuffer
add_bytes size bytes b =
    if ltb size (length b + length bytes) then (false, b) else (true, b ++ bytes)

-- `readBytes`: what is read, and what is left.
unfoldable pub read_bytes : ℕ → ObjectBuffer → List ℕ × ObjectBuffer
read_bytes n b = (take n b, drop n b)

-- A batch as its bytes, and whether it was enqueued or went back to the pool.
pub record Batch : Type 0 where
  pub content : List ℕ
  pub enqueued : Bool

-- What the server keeps for a descriptor, with the batches so far.
pub record Client : Type 0 where
  pub buffer : ObjectBuffer
  pub connected : Bool
  pub batches : List Batch

-- One turn of the loop of `readMessage`, by what it finds: `recv` takes bytes, there is room in the queue
-- or not, and some bytes stand in memory behind those received; it is interrupted; the client has closed the connection, with `errno` still saying that
-- an earlier call was interrupted or not; nothing is there to read; it fails; or the pool is
-- drained, with `nread` and `errno` such that the client is removed or not.
pub data Turn : Type 0 where
  received : List ℕ → Bool → List ℕ → Turn
  interrupted : Turn
  closed : Bool → Turn
  would_block : Turn
  failed : Turn
  pool_drained : Bool → Turn

-- `removeClient`
abbrev pub remove_client : Client → Client
remove_client c = record c { buffer = []; connected = false }

abbrev pub batched : ℕ → Bool → List ℕ → List Batch → List Batch
batched n enqueued bytes bs =
    if ltb 0 n then bs ++ record { content = bytes; enqueued = enqueued } ∷ [] else bs

-- The bytes that are kept behind `n` whole messages. The pointer is one to messages, so that the number
-- of bytes that is added to it is multiplied by their size once more.
unfoldable pub kept_bytes : ℕ → List ℕ → List ℕ → List ℕ
kept_bytes size total behind =
    let n = length total / size in
    take (length total % size) (drop (size * (size * n)) (total ++ behind))

-- A turn in which bytes were received: the whole messages are the batch.
unfoldable pub receive : ℕ → List ℕ → Bool → List ℕ → Client → Client
unfolding add_bytes kept_bytes
receive size bytes enqueued behind c =
    let total = c.buffer ++ bytes in
    let n = length total / size in
    record c {
      buffer = (add_bytes size (kept_bytes size total behind) []).1;
      batches = batched n enqueued (take (size * n) total) c.batches;
    }

-- The loop of `readMessage`, with what becomes of the client after it.
unfoldable pub read_messages : ℕ → List Turn → Client → Client
unfolding receive
read_messages size [] c = c
read_messages size (received bytes enqueued behind ∷ ts) c =
    read_messages size ts (receive size bytes enqueued behind c)
read_messages size (interrupted ∷ ts) c = read_messages size ts c
read_messages size (closed true ∷ ts) c = read_messages size ts c
read_messages size (closed false ∷ ts) c = remove_client c
read_messages size (would_block ∷ ts) c = c
read_messages size (failed ∷ ts) c = remove_client c
read_messages size (pool_drained true ∷ ts) c = remove_client c
read_messages size (pool_drained false ∷ ts) c = c
