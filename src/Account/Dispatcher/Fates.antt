-- ===== src/Account/Dispatcher/Fates.antt =====
-- What becomes of each answer that the dispatcher takes off its queue.
use naoto_exchange.Common.{
  ℕ, zero, suc, ◌+◌, ◌≤◌, ◌<◌, List, [], ◌∷◌, ◌++◌, some, ◌≡◌, refl, sym, ◌∙◌, subst, inl, inr,
  arith, length, length-append, take, drop, append_assoc, append-nil,
}
use naoto_exchange.Queue.{try_pop}
use naoto_exchange.Queue.Fifo.{IsFifoAt, pop_spec, try_pop_lem}
use naoto_exchange.Pool.Owned.{remove}
use naoto_exchange.Mempool.{release}
use naoto_exchange.Mempool.Owned.{releases_succeed}
use naoto_exchange.Mempool.Operations.{IsUsed, released}
use naoto_exchange.Consumer.Batches.{remove_all, Held}
use naoto_exchange.Account.Dispatcher.{Response, Attempt, Dispatcher, consume_messages}
use naoto_exchange.Account.Dispatcher.Steps.{
  is_delivered, is_kept, chosen, objects, send_message-Ends, Dispatched, chosen_yes, chosen_no,
  Held-first, Held-rest, Held-remove, consume_none, consume_some, finish-some, keep-some,
}

-- What a batch of at most `n` responses comes to, from a turn on.
abbrev Comes : ℕ → ℕ → ℕ → (ℕ → Attempt) → ℕ → ℕ → List Response → List ℕ → Dispatcher → Type 0
Comes queue pool capacity attempts n turn xs held d =
    (e : Dispatcher) × (consume_messages queue pool capacity attempts n turn d ≡ some e)
    × Dispatched queue pool (drop n xs) held (chosen is_delivered attempts turn (take n xs))
        (chosen is_kept attempts turn (take n xs)) d e

module _ (queue pool capacity : ℕ) (attempts : ℕ → Attempt) (low : queue ≤ 63)
    (small : pool ≤ 63) where
  one_more :
      (n turn : ℕ) (r : Response) (rs : List Response) (held : List ℕ) (d d' e : Dispatcher)
      (ds ks : List Response)
      → consume_messages queue pool capacity attempts (suc n) turn d
        ≡ consume_messages queue pool capacity attempts n (suc turn) d'
      → consume_messages queue pool capacity attempts n (suc turn) d' ≡ some e
      → chosen is_delivered attempts turn (r ∷ take n rs) ≡ ds
      → chosen is_kept attempts turn (r ∷ take n rs) ≡ ks
      → Dispatched queue pool (drop n rs) held ds ks d e
      → Comes queue pool capacity attempts (suc n) turn (r ∷ rs) held d
  one_more n turn r rs held d d' e ds ks step done y z end = (
    e,
    step ∙ done,
    subst
        (λ l.
          Dispatched queue pool (drop n rs) held l (chosen is_kept attempts turn (r ∷ take n rs)) d
            e)
        (sym y) (subst (λ l. Dispatched queue pool (drop n rs) held ds l d e) (sym z) end),
  )

  -- A batch, of a queue and a pool of at most 2 ^ 63 places and objects, whose messages are held in the
  -- pool, and for whose kept responses there are places in the array: it ends, the queue is left with what
  -- is behind the batch, the messages that were delivered and no others are back in the pool, and the
  -- responses that are kept stand behind the others in the array. So a message that was neither delivered
  -- nor kept is still held, and nothing is left that would release it.
  pub consume_messages_lem :
      (n turn : ℕ) (xs : List Response) (held : List ℕ) (d : Dispatcher)
      → IsFifoAt queue d.responses xs
      → IsUsed pool d.responses_pool held
      → Held (objects (take n xs)) held
      → length d.responses_resend + length (chosen is_kept attempts turn (take n xs)) ≤ capacity
      → Comes queue pool capacity attempts n turn xs held d
  unfolding chosen remove_all pop_spec consume_messages
  consume_messages_lem zero turn xs held d f u h room = (
    d,
    refl,
    record { taken_off = f; given_back = u; to_resend = sym (append-nil d.responses_resend) },
  )
  consume_messages_lem (suc n) turn [] held d f u h room =
      let t = try_pop_lem queue low d.responses [] f in
      (
        record d { responses = (try_pop queue d.responses).1 },
        consume_none queue pool capacity attempts n turn d t.0,
        record { taken_off = t.1; given_back = u; to_resend = sym (append-nil d.responses_resend) },
      )
  consume_messages_lem (suc n) turn (r ∷ rs) held d f u h room =
      let t = try_pop_lem queue low d.responses (r ∷ rs) f in
      let d' : Dispatcher = record d { responses = (try_pop queue d.responses).1 } in
      let batch = take n rs in
      let ds = chosen is_delivered attempts (suc turn) batch in
      let ks = chosen is_kept attempts (suc turn) batch in
      elim (send_message-Ends pool capacity r d' (attempts turn)) [
        | inl (y, z, x) ↦
            let own = Held-first r.object (objects batch) held h in
            let back = (releases_succeed pool small d.responses_pool held r.object u own).0 in
            let d2 : Dispatcher = record d' {
              responses_pool = (release pool (some r.object) d.responses_pool).1;
            } in
            let z' = chosen_no is_kept attempts turn r batch z in
            let (e, done, end) =
              consume_messages_lem n (suc turn) rs (remove r.object held) d2 t.1
                (released d.responses_pool held r.object u own)
                (Held-remove r.object (objects batch) held h)
                (subst (λ l. length d.responses_resend + length l ≤ capacity) z' room) in
            one_more n turn r rs held d d2 e (r ∷ ds) ks
              (consume_some queue pool capacity attempts n turn d r d2 t.0
                (x ∙ finish-some pool r d' back))
              done (chosen_yes is_delivered attempts turn r batch y) z'
              (record {
                taken_off = end.taken_off;
                given_back = end.given_back;
                to_resend = end.to_resend;
              })
        | inr (inl (y, z, x)) ↦
            let z' = chosen_yes is_kept attempts turn r batch z in
            let d2 : Dispatcher = record d' { responses_resend = d.responses_resend ++ (r ∷ []) } in
            let room' = subst (λ l. length d.responses_resend + length l ≤ capacity) z' room in
            let longer = length-append d.responses_resend (r ∷ []) in
            let place : length d.responses_resend < capacity = omega (arith, room') in
            let (e, done, end) =
              consume_messages_lem n (suc turn) rs held d2 t.1 u
                (Held-rest r.object (objects batch) held h) (omega (arith, longer, room')) in
            one_more n turn r rs held d d2 e ds (r ∷ ks)
              (consume_some queue pool capacity attempts n turn d r d2 t.0
                (x ∙ keep-some capacity r d' place))
              done (chosen_no is_delivered attempts turn r batch y) z'
              (record {
                taken_off = end.taken_off;
                given_back = end.given_back;
                to_resend = end.to_resend ∙ append_assoc d.responses_resend (r ∷ []) ks;
              })
        | inr (inr (y, z, x)) ↦
            let z' = chosen_no is_kept attempts turn r batch z in
            let (e, done, end) =
              consume_messages_lem n (suc turn) rs held d' t.1 u
                (Held-rest r.object (objects batch) held h)
                (subst (λ l. length d.responses_resend + length l ≤ capacity) z' room) in
            one_more n turn r rs held d d' e ds ks
              (consume_some queue pool capacity attempts n turn d r d' t.0 x) done
              (chosen_no is_delivered attempts turn r batch y) z'
              (record {
                taken_off = end.taken_off;
                given_back = end.given_back;
                to_resend = end.to_resend;
              })
      ]
