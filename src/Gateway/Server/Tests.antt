-- ===== src/Gateway/Server/Tests.antt =====
-- A server with two requests and one place in its queue, and the theorem at it.
use naoto_exchange.Common.{ℕ, [], ◌≡◌, ◌⊎◌, none, some, refl, arith, ◌^◌, length, Option}
use naoto_exchange.Queue.{new_queue, try_push, try_pop, read, write, sub_u64}
use naoto_exchange.Queue.Fifo.{new_queue-IsFifo}
use naoto_exchange.Mempool.{StoragePool, new_pool, fill, acquire, local_release}
use naoto_exchange.Mempool.Operations.{IsUsed, start}
use naoto_exchange.Gateway.Server.{
  ClientAuthRequest, Server, routed, route_request, first_message_handle,
}
use naoto_exchange.Gateway.Server.Requests.{Requested, first_message_handle_lem}

abbrev pool : StoragePool
pool = record {
  free = (try_push 1 1 (try_push 1 0 (new_queue (λ i. 9))).1).1;
  local_reuse_buffer = λ i. none;
  local_reuse_size = 0;
}

pool-IsUsed : IsUsed 1 pool []
unfolding new_pool fill try_push write sub_u64
pool-IsUsed = start (λ i. 9) pool refl

abbrev message : ClientAuthRequest
message = record { request_type = 65; client_id = 7; key = λ i. 1 }

abbrev server : Server
server = record {
  gateway_id = 3;
  requests = pool;
  stored =
      λ i. record { request_type = 0; client_id = 0; client_fd = 0; gateway_id = 0; key = λ j. 0 };
  outgoing_requests = new_queue (λ i. 9);
  outgoing_disconnects = new_queue (λ i. 9);
}

abbrev again : ℕ → Option Server → Option Server
unfolding first_message_handle
again fd none = none
again fd (some s) = first_message_handle 1 0 message fd s

abbrev descriptor : Option Server → ℕ
descriptor none = 99
descriptor (some s) = (s.stored 0).client_fd

-- The second request finds the queue full and keeps nothing of the first from being sent.
second_lost : descriptor (again 12 (again 11 (some server))) ≡ 11
unfolding again first_message_handle route_request acquire local_release try_push try_pop read write
    sub_u64
second_lost = refl

first_message_handle_lem_example :
    ((length {A = ℕ} [] ≡ 2 ^ 1) × (first_message_handle 1 1 message 11 server ≡ none))
    ⊎ ((t : Server) × (first_message_handle 1 1 message 11 server ≡ some t)
        × Requested 1 1 [] [] (routed server message 11) server t)
first_message_handle_lem_example =
    first_message_handle_lem 1 1 message 11 server [] [] (omega arith) (omega arith) pool-IsUsed
      (new_queue-IsFifo 1 (λ i. 9))
