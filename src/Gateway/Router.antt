-- ===== src/Gateway/Router.antt =====
-- market_server/order_gateway/include/order_router.hpp: what the router does with a batch of orders, in
-- the build that sends over sockets; and bytes_buffer.hpp of market_server/common/include, where it
-- keeps what it could not send.
pub mod Frame
pub mod Charges
pub mod Confirms
pub mod Drains
mod Tests
use naoto_exchange.Common.{
  ℕ, zero, suc, ◌+◌, ◌-◌, ◌*◌, ◌/◌, ◌%◌, ◌^◌, List, [], ◌∷◌, ◌++◌, Bool, true, false, not, ◌==◌,
  leb, if◌then◌else◌, ℤ, pos, negsuc, update, eqb_ℤ,
}
use naoto_exchange.Wire.{Order, u32, u64}
use naoto_exchange.VersionedFd.{fd_of}
use naoto_exchange.Gateway.Client.{ClientState}
use naoto_exchange.Gateway.Risk.{
  OrderConfirmationStatus, accepted, technical_failure, user_not_connected, bad_client_id, Local,
  check_order_risk,
}

-- `sizeof(Order)`, and the capacity of a resend buffer: 16 orders.
abbrev pub order_size : ℕ
order_size = 40

abbrev pub buffer_size : ℕ
buffer_size = 16 * order_size

-- `BytesBuffer`: `Add` copies nothing and nothing else writes new bytes, so that a buffer is its
-- `Size`, a `size_t`.
abbrev pub BytesBuffer : Type 0
BytesBuffer = ℕ

-- `Add` and `Shift`
abbrev pub add_bytes : ℕ → BytesBuffer → BytesBuffer
add_bytes size b = u64 (b + size)

abbrev pub shift : ℕ → BytesBuffer → BytesBuffer
shift size b = u64 (b + 2 ^ 64 - size)

-- `CanAdd`
abbrev pub can_add : ℕ → BytesBuffer → Bool
can_add size b = leb size (u64 (buffer_size + 2 ^ 64 - b))

-- What a call of `send` returns: how many bytes it took, or an error, which may be an interruption.
-- `sent 0` stands for a call that takes nothing.
pub data SendResult : Type 0 where
  sent : ℕ → SendResult
  interrupted : SendResult
  failed : SendResult

-- How a loop of calls ends: with everything sent, or stopped after some bytes.
pub data Sending : Type 0 where
  complete : Sending
  stopped : ℕ → Sending

-- The loop of `SendOrder`, with the results of its calls; the calls after those listed fail.
unfoldable pub send_loop : List SendResult → ℕ → Sending
send_loop [] total = if leb order_size total then complete else stopped total
send_loop (sent zero ∷ rs) total = if leb order_size total then complete else stopped total
send_loop (sent (suc n) ∷ rs) total =
    let rest = send_loop rs (total + suc n) in if leb order_size total then complete else rest
send_loop (interrupted ∷ rs) total =
    let rest = send_loop rs total in if leb order_size total then complete else rest
send_loop (failed ∷ rs) total = if leb order_size total then complete else stopped total

-- -1 is added to a `size_t`.
abbrev pub minus_one : ℕ → ℕ
minus_one total = u64 (total + (2 ^ 64 - 1))

-- The loop of `DrainBuffer`: the result of `send` is added to the total before it is tested.
unfoldable pub drain_loop : List SendResult → ℕ → BytesBuffer → Sending
drain_loop [] total b = if leb b total then complete else stopped (minus_one total)
drain_loop (sent zero ∷ rs) total b = if leb b total then complete else stopped total
drain_loop (sent (suc n) ∷ rs) total b =
    let rest = drain_loop rs (u64 (total + suc n)) b in if leb b total then complete else rest
drain_loop (interrupted ∷ rs) total b =
    let rest = drain_loop rs (minus_one total) b in if leb b total then complete else rest
drain_loop (failed ∷ rs) total b = if leb b total then complete else stopped (minus_one total)

-- `std::div` of the total as an `int` by the size of an order: the number of orders, and the bytes
-- beyond them as a `size_t`. The only negative total is -1.
abbrev pub div_orders : ℕ → ℕ × ℕ
div_orders total =
    if leb (2 ^ 63) total then (0, total) else (total / order_size, total % order_size)

-- The resend buffer of an asset's engine, with `OrderOffset`, which all assets share.
pub record Resend : Type 0 where
  pub buffer : BytesBuffer
  pub offset : ℕ

-- `DrainBuffer<Order>`: whether the buffer was drained.
abbrev pub after_drain : Resend → Sending → Bool × Resend
after_drain s complete = (true, record { buffer = 0; offset = 0 })
after_drain s (stopped total) =
    let d = div_orders total in
    (false, record { buffer = shift (d.0 * order_size) s.buffer; offset = d.1 })

unfoldable pub drain_buffer : List SendResult → Resend → Bool × Resend
unfolding drain_loop
drain_buffer rs s = after_drain s (drain_loop rs s.offset s.buffer)

pub record OrderConfirmation : Type 0 where
  pub order_id : ℕ
  pub client_order_id : ℕ
  pub status : OrderConfirmationStatus

-- The members that `consumeOrder` uses, those of clients for one file descriptor; what it has pushed
-- to `OutgoingConfirmation`; and the orders that it has sent whole.
pub record Router : Type 0 where
  pub gateway_id : ℕ
  pub orders_count : ℕ
  pub local : Local
  pub confirmation_buffer : BytesBuffer
  pub order_buffer : ℕ → BytesBuffer
  pub order_offset : ℕ
  pub confirmations : List OrderConfirmation
  pub sent_orders : List Order

-- One order of a batch, with what the router finds when it comes to it: the client's state, the word
-- of the engine's descriptor before and after, and what the calls of `send` return.
pub record Turn : Type 0 where
  pub order : Order
  pub client : ClientState
  pub engine : ℕ
  pub engine_after : ℕ
  pub drain_results : List SendResult
  pub send_results : List SendResult

-- The member function `CheckOrderRisk`
abbrev pub clear_if : OrderConfirmationStatus → BytesBuffer → BytesBuffer
clear_if bad_client_id b = 0
clear_if _ b = b

abbrev pub checked : Router → OrderConfirmationStatus × Local → OrderConfirmationStatus × Router
checked g r =
    (r.0, record g { local = r.1; confirmation_buffer = clear_if r.0 g.confirmation_buffer })

unfoldable pub check_risk : Turn → ℕ → Router → OrderConfirmationStatus × Router
unfolding check_order_risk
check_risk t auth g =
    let r = check_order_risk t.client g.local t.order auth in
    if auth == 0 then (user_not_connected, g) else checked g r

-- `OrderId` of the confirmation: the halves do not overlap, so that `|` is a sum; the member has 32
-- bits.
unfoldable pub next_order_id : Router → ℕ
next_order_id g = u32 (u64 (g.gateway_id * 2 ^ 48) + g.orders_count % 2 ^ 48)

unfoldable pub is_connected : Turn → Bool
is_connected t = not (eqb_ℤ (fd_of t.engine) (negsuc 0))

unfoldable pub confirm : Turn → ℕ → OrderConfirmationStatus → Router → Router
confirm t id status g = record g {
  confirmations =
      g.confirmations
      ++ record { order_id = id; client_order_id = t.order.client_order_id; status = status } ∷ [];
}

-- `SendOrder`: whether the order was sent to an engine that is still the same one.
abbrev pub after_send : Turn → ℕ → Router → Sending → Bool × Router
after_send t id g complete = (
  t.engine_after == t.engine,
  record g { sent_orders = g.sent_orders ++ record (t.order) { order_id = id } ∷ [] },
)
after_send t id g (stopped total) =
    let asset = t.order.asset_id in
    (
      false,
      record g {
        order_buffer = update asset (add_bytes order_size (g.order_buffer asset)) g.order_buffer;
        order_offset = total;
      },
    )

unfoldable pub send_order : Turn → ℕ → Router → Bool × Router
unfolding send_loop update
send_order t id g = after_send t id g (send_loop t.send_results 0)

abbrev pub kept : Turn → BytesBuffer → Router → Router
kept t b g =
    let asset = t.order.asset_id in
    record g {
      order_buffer =
          update asset (if can_add order_size b then add_bytes order_size b else b) g.order_buffer;
    }

abbrev pub confirm_sent : Turn → ℕ → Bool × Router → Router
unfolding confirm
confirm_sent t id (true, g) = confirm t id accepted g
confirm_sent t id (false, g) = g

abbrev pub after_drained : Turn → ℕ → Router → Bool × Resend → Router
unfolding send_order confirm_sent
after_drained t id g (drained, s) =
    let h = record g {
      order_buffer = update t.order.asset_id s.buffer g.order_buffer;
      order_offset = s.offset;
    } in
    let sent = confirm_sent t id (send_order t id h) in if drained then sent else kept t s.buffer h

-- An accepted order: first what is kept for its engine, then the order.
unfoldable pub forward : Turn → ℕ → Router → Router
unfolding drain_buffer after_drained
forward t id g = after_drained t id g (
    drain_buffer t.drain_results
      (record { buffer = g.order_buffer t.order.asset_id; offset = g.order_offset }))

unfoldable pub answer_order : Turn → ℕ → OrderConfirmationStatus × Router → Router
unfolding confirm forward
answer_order t id (accepted, g) = forward t id g
answer_order t id (status, g) = confirm t id status g

unfoldable pub check_turn : Turn → ℕ → Router → OrderConfirmationStatus × Router
unfolding check_risk is_connected
check_turn t auth g = if is_connected t then check_risk t auth g else (technical_failure, g)

abbrev pub counted : Router → Router
counted g = record g { orders_count = u64 (g.orders_count + 1) }

-- One turn of the loop of `consumeOrder`.
unfoldable pub route : ℕ → Turn → Router → Router
unfolding check_turn next_order_id answer_order
route auth t g = let r = check_turn t auth g in answer_order t (next_order_id g) (r.0, counted r.1)

-- `consumeOrder` on a batch of one client.
unfoldable pub consume_order : ℕ → List Turn → Router → Router
unfolding route
consume_order auth [] g = g
consume_order auth (t ∷ ts) g = consume_order auth ts (route auth t g)
