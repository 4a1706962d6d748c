-- ===== src/Account/Dispatcher/Tests.antt =====
-- A dispatcher with two answers, one of which is delivered, and the theorem at it.
use naoto_exchange.Common.{ℕ, [], ◌∷◌, ◌≡◌, none, some, refl, arith, ◌≤◌, true, false}
use naoto_exchange.Queue.{new_queue, try_push, try_pop, read, write, sub_u64}
use naoto_exchange.Queue.Fifo.{IsFifoAt, new_queue-IsFifo, push_spec, try_push_lem}
use naoto_exchange.Pool.Owned.{count}
use naoto_exchange.Mempool.{StoragePool, new_pool, fill, acquire}
use naoto_exchange.Mempool.Operations.{IsUsed, start, acquired}
use naoto_exchange.VersionedFd.{fd_of, signed_32}
use naoto_exchange.Account.Dispatcher.{
  Response, taken, try_again, Attempt, Dispatcher, is_connected, consume_messages,
}
use naoto_exchange.Account.Dispatcher.Steps.{chosen, is_kept, is_delivered, Dispatched}
use naoto_exchange.Account.Dispatcher.Fates.{consume_messages_lem}

abbrev pool : StoragePool
pool = record {
  free = (try_push 1 1 (try_push 1 0 (new_queue (λ i. 9))).1).1;
  local_reuse_buffer = λ i. none;
  local_reuse_size = 0;
}

-- Both objects of the pool are held.
abbrev taken_once : StoragePool
taken_once = (acquire 1 pool).1

abbrev taken_twice : StoragePool
taken_twice = (acquire 1 taken_once).1

taken_twice-IsUsed : IsUsed 1 taken_twice (1 ∷ 0 ∷ [])
unfolding new_pool fill acquire try_pop read try_push write sub_u64
taken_twice-IsUsed =
    acquired taken_once (0 ∷ []) 1 (acquired pool [] 0 (start (λ i. 9) pool refl) refl) refl

abbrev response : ℕ → ℕ → Response
response gateway a = record { gateway_id = gateway; object = a }

abbrev dispatcher : Dispatcher
dispatcher = record {
  responses = (try_push 1 (response 4 0) (new_queue (λ i. response 9 9))).1;
  responses_pool = taken_twice;
  responses_resend = [];
}

dispatcher-IsFifo : IsFifoAt 1 dispatcher.responses (response 4 0 ∷ [])
unfolding push_spec
dispatcher-IsFifo =
    (try_push_lem 1 (omega arith) (response 4 0) (new_queue (λ i. response 9 9)) []
      (new_queue-IsFifo 1 (λ i. response 9 9))).1

-- The gateway has descriptor 6, and its connection is blocked.
abbrev blocked : ℕ → Attempt
blocked turn = record { word = 6; result = try_again; word_after = 6 }

kept_once : (is_kept (blocked 0) ≡ true) × (is_delivered (blocked 0) ≡ false)
unfolding is_kept is_delivered is_connected fd_of signed_32
kept_once = (refl, refl)

no_gateway : is_kept (record { word = 4294967295; result = taken; word_after = 4294967295 }) ≡ false
unfolding is_kept is_connected fd_of signed_32
no_gateway = refl

held_0 : (a : ℕ) → count a (0 ∷ []) ≤ count a (1 ∷ 0 ∷ [])
unfolding count
held_0 a = omega arith

consume_messages_lem_example :
    (e : Dispatcher) × (consume_messages 1 1 128 blocked 8 0 dispatcher ≡ some e)
    × Dispatched 1 1 []
        (1 ∷ 0 ∷ [])
        (chosen is_delivered blocked 0 (response 4 0 ∷ []))
        (chosen is_kept blocked 0 (response 4 0 ∷ []))
        dispatcher
        e
unfolding chosen is_kept is_connected fd_of signed_32
consume_messages_lem_example =
    consume_messages_lem 1 1 128 blocked (omega arith) (omega arith) 8 0 (response 4 0 ∷ [])
      (1 ∷ 0 ∷ []) dispatcher dispatcher-IsFifo taken_twice-IsUsed held_0 (omega arith)
