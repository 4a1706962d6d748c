-- ===== src/Account/Dispatcher.antt =====
-- market_server/account_service/include/gateway_response_dispatcher.hpp: the thread that sends the
-- answers to the gateways. `DrainResendBuffers`, which nothing calls, is left out.
pub mod Steps
pub mod Fates
mod Tests
use naoto_exchange.Common.{
  ℕ, zero, suc, List, [], ◌∷◌, ◌++◌, Bool, true, false, Option, none, some, ◌==◌, ltb, not,
  if◌then◌else◌, length, negsuc, eqb_ℤ,
}
use naoto_exchange.Queue.{SpscQueue, try_pop}
use naoto_exchange.Mempool.{StoragePool, release}
use naoto_exchange.VersionedFd.{fd_of}

-- `AccountResponse`, the message as its object in the pool.
pub record Response : Type 0 where
  pub gateway_id : ℕ
  pub object : ℕ

-- What `send` returns: a number of bytes, however few; an error that says to try again or that it was interrupted;
-- or another error.
pub data SendResult : Type 0 where
  taken : SendResult
  try_again : SendResult
  gone : SendResult

-- What one call of `SendMessage` finds: the word of the gateway's descriptor, the result of `send`, and the
-- word after it.
pub record Attempt : Type 0 where
  pub word : ℕ
  pub result : SendResult
  pub word_after : ℕ

-- `ResponsesResend` is the list of its first `ResponsesResendSize` elements.
pub record Dispatcher : Type 0 where
  pub responses : SpscQueue Response
  pub responses_pool : StoragePool
  pub responses_resend : List Response

-- A response is kept to be sent again: none where the array of `capacity` elements has no place for it and
-- the code writes behind its end.
unfoldable pub keep : ℕ → Response → Dispatcher → Option Dispatcher
keep capacity r d =
    if ltb (length d.responses_resend) capacity
    then some (record d { responses_resend = d.responses_resend ++ (r ∷ []) })
    else none

-- A response that was sent goes back to the pool: none where the program ends.
unfoldable pub finish : ℕ → Response → Dispatcher → Option Dispatcher
unfolding release
finish pool r d =
    let released = release pool (some r.object) d.responses_pool in
    if released.0 then some (record d { responses_pool = released.1 }) else none

unfoldable pub after_send : ℕ → ℕ → Bool → SendResult → Response → Dispatcher → Option Dispatcher
unfolding keep finish
after_send pool capacity same gone r d = some d
after_send pool capacity same try_again r d = keep capacity r d
after_send pool capacity same taken r d = if same then finish pool r d else keep capacity r d

-- There is a gateway at the number.
unfoldable pub is_connected : Attempt → Bool
unfolding fd_of
is_connected a = not (eqb_ℤ (fd_of a.word) (negsuc 0))

-- `SendMessage`
unfoldable pub send_message : ℕ → ℕ → Attempt → Response → Dispatcher → Option Dispatcher
unfolding is_connected after_send
send_message pool capacity a r d =
    if is_connected a
    then after_send pool capacity (a.word_after == a.word) a.result r d
    else some d

-- `ConsumeMessages`, with the turns left in the batch, on a queue of 2 ^ queue places.
unfoldable pub consume_messages : ℕ → ℕ → ℕ → (ℕ → Attempt) → ℕ → ℕ → Dispatcher → Option Dispatcher
unfolding try_pop send_message
consume_messages queue pool capacity attempts zero turn d = some d
consume_messages queue pool capacity attempts (suc left) turn d =
    let popped = try_pop queue d.responses in
    let rest = record d { responses = popped.1 } in
    elim popped.0 [
      | none ↦ some rest
      | some r ↦ elim (send_message pool capacity (attempts turn) r rest) [
        | none ↦ none
        | some e ↦ consume_messages queue pool capacity attempts left (suc turn) e
      ]
    ]
