-- ===== src/Gateway/Server.antt =====
-- market_server/order_gateway/include/gateway_server.hpp: what the gateway does when a client's first
-- message, a batch of its orders or its disconnection comes.
pub mod Requests
mod Tests
use naoto_exchange.Common.{ℕ, List, Bool, true, false, Option, none, some, if◌then◌else◌, update}
use naoto_exchange.Wire.{Order, RoutedAuthRequest, u16, u32}
use naoto_exchange.Queue.{SpscQueue, try_push}
use naoto_exchange.Mempool.{StoragePool, acquire, local_release}
use naoto_exchange.Gateway.Buffer.{Slot, get_client_auth}

-- `ClientAuthRequest`
pub record ClientAuthRequest : Type 0 where
  pub request_type : ℕ
  pub client_id : ℕ
  pub key : ℕ → ℕ

-- The members, with the objects of the request pool's storage.
pub record Server : Type 0 where
  pub gateway_id : ℕ
  pub requests : StoragePool
  pub stored : ℕ → RoutedAuthRequest
  pub outgoing_requests : SpscQueue ℕ
  pub outgoing_disconnects : SpscQueue ℕ

-- The request as it is routed: the client's message, the descriptor and the gateway.
abbrev pub routed : Server → ClientAuthRequest → ℕ → RoutedAuthRequest
routed s m fd = record {
  request_type = m.request_type;
  client_id = m.client_id;
  client_fd = u32 fd;
  gateway_id = u16 s.gateway_id;
  key = m.key;
}

-- What follows the acquisition: without an object, a null pointer is written through.
unfoldable pub route_request :
    ℕ → ℕ → ClientAuthRequest → ℕ → Server → Option ℕ × StoragePool → Option Server
unfolding update try_push local_release
route_request pool queue m fd s (none, p) = none
route_request pool queue m fd s (some a, p) =
    let pushed = try_push queue a s.outgoing_requests in
    some (record s {
      requests = if pushed.0 then p else (local_release pool a p).1;
      stored = update a (routed s m fd) s.stored;
      outgoing_requests = pushed.1;
    })

-- `FirstMessageHandle`, with 2 ^ pool requests and 2 ^ queue places in the queue.
unfoldable pub first_message_handle : ℕ → ℕ → ClientAuthRequest → ℕ → Server → Option Server
unfolding acquire route_request
first_message_handle pool queue m fd s = route_request pool queue m fd s (acquire pool s.requests)

-- `OrderBatch`
pub record OrderBatch : Type 0 where
  pub fd : ℕ
  pub auth : ℕ
  pub orders : List Order

-- `BatchHandle`, on the slot of the descriptor.
unfoldable pub batch_handle : ℕ → Slot → OrderBatch → OrderBatch
unfolding get_client_auth
batch_handle fd slot batch = record batch { fd = fd; auth = get_client_auth slot }

-- `CloseHandle`: where the queue is full, the disconnection is lost.
unfoldable pub close_handle : ℕ → ℕ → Server → Server
unfolding try_push
close_handle queue fd s = record s {
  outgoing_disconnects = (try_push queue fd s.outgoing_disconnects).1;
}
