-- ===== src/Gateway/Router/Drains.antt =====
-- What becomes of orders that are kept for an engine.
use naoto_exchange.Common.{
  ℕ, zero, suc, ◌+◌, ◌-◌, ◌*◌, ◌^◌, ◌<◌, List, [], ◌∷◌, true, false, ◌≡◌, refl, arith, leb,
  if◌then◌else◌, ap, ◌∙◌,
}
use naoto_exchange.Wire.{u64}
use naoto_exchange.Gateway.Router.{
  BytesBuffer, SendResult, sent, interrupted, failed, Sending, complete, stopped, drain_loop,
  after_drain, drain_buffer, shift, order_size,
}

-- Bytes are waiting.
abbrev pub Waiting : BytesBuffer → Type 0
Waiting b = (0 < b) × (b < 2 ^ 63)

failed_first :
    (b : BytesBuffer) (rs : List SendResult)
    → Waiting b
    → drain_loop (failed ∷ rs) 0 b ≡ stopped (2 ^ 64 - 1)
unfolding drain_loop
failed_first b rs h =
    let e : leb b 0 ≡ false = ground (arith, h.0) in rw e (ap stopped (omega arith))

shift_none : (b : BytesBuffer) → b < 2 ^ 63 → shift (0 * order_size) b ≡ b
shift_none b h = omega (arith, h)

past :
    (b : BytesBuffer) (r : Sending)
    → b < 2 ^ 63
    → (if leb b (2 ^ 64 - 1) then complete else r) ≡ complete
past b r h = ground (arith, h)

past_the_end :
    (b : BytesBuffer) (rs : List SendResult) → b < 2 ^ 63 → drain_loop rs (2 ^ 64 - 1) b ≡ complete
unfolding drain_loop
past_the_end b [] h = past b _ h
past_the_end b (sent zero ∷ rs) h = past b _ h
past_the_end b (sent (suc n) ∷ rs) h = past b _ h
past_the_end b (interrupted ∷ rs) h = past b _ h
past_the_end b (failed ∷ rs) h = past b _ h

-- Calls that each take at least one byte, one more than the number given, and what they take.
abbrev pub all_sent : List ℕ → List SendResult
all_sent [] = []
all_sent (n ∷ ns) = sent (suc n) ∷ all_sent ns

abbrev pub taken : List ℕ → ℕ
taken [] = 0
taken (n ∷ ns) = suc n + taken ns

sends_all :
    (b : BytesBuffer) (ns : List ℕ) (total : ℕ)
    → b < 2 ^ 63
    → total + taken ns ≡ b
    → drain_loop (all_sent ns) total b ≡ complete
unfolding drain_loop
sends_all b [] total h e = let f : leb b total ≡ true = ground (arith, e) in rw f refl
sends_all b (n ∷ ns) total h e =
    let f : leb b total ≡ false = ground (arith, e) in
    let w : u64 (total + suc n) ≡ total + suc n = omega (arith, e, h) in
    rw (f, w) (sends_all b ns (total + suc n) h (omega (arith, e)))

-- When the calls of `send` take, a part each, all that is waiting beyond the offset, the buffer is
-- drained and the offset is reset.
drain_buffer_sends :
    (b offset : ℕ) (ns : List ℕ)
    → b < 2 ^ 63
    → offset + taken ns ≡ b
    → drain_buffer (all_sent ns) (record { buffer = b; offset = offset })
      ≡ (true, record { buffer = 0; offset = 0 })
unfolding drain_buffer
drain_buffer_sends b offset ns h e =
    ap (after_drain (record { buffer = b; offset = offset })) (sends_all b ns offset h e)

-- When the first call of `send` for what is waiting fails, nothing is sent and what is waiting is kept;
-- but the offset becomes the greatest number, and the next time, whatever `send` would return, the
-- buffer is emptied without a call of it, as if all had been sent.
pub drain_buffer_drops :
    (b : BytesBuffer) (rs rs' : List SendResult)
    → Waiting b
    → (drain_buffer (failed ∷ rs) (record { buffer = b; offset = 0 })
        ≡ (false, record { buffer = b; offset = 2 ^ 64 - 1 }))
      × (drain_buffer rs' (record { buffer = b; offset = 2 ^ 64 - 1 })
          ≡ (true, record { buffer = 0; offset = 0 }))
unfolding drain_buffer
drain_buffer_drops b rs rs' h = (
  ap (after_drain (record { buffer = b; offset = 0 })) (failed_first b rs h)
      ∙ ap (λ c. (false, record { buffer = c; offset = 2 ^ 64 - 1 })) (shift_none b h.1),
  ap (after_drain (record { buffer = b; offset = 2 ^ 64 - 1 })) (past_the_end b rs' h.1),
)
