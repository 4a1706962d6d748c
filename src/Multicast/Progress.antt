-- ===== src/Multicast/Progress.antt =====
-- The report that is to be read next is passed on when it comes.
use naoto_exchange.Common.{
  ℕ, ◌%◌, ◌^◌, ◌≤◌, ◌<◌, List, [], ◌∷◌, true, false, Option, none, some, ◌==◌, ◌≡◌, refl, ap, sym,
  ◌∙◌, subst, arith, update, length,
}
use mathlib.Core.Option.{none-ne-some}
use naoto_exchange.Wire.{OrderStateReport}
use naoto_exchange.Queue.Fifo.{IsFifoAt}
use naoto_exchange.Mempool.{StoragePool, acquire}
use naoto_exchange.Multicast.Ring.{get_slot, is_too_old, add_slot}
use naoto_exchange.Multicast.{Sizes, Receiver, store_from, store_object, drain_all}
use naoto_exchange.Multicast.Order.{IsEmpty, Drained, drain_all_lem}

-- The report finds a free object and is not too old for the buffer.
pub record IsTaken (z : Sizes) (x : OrderStateReport) (r : Receiver) : Type 0 where
  pub object : ℕ
  pub available : (acquire z.pool r.pool).0 ≡ some object
  pub recent : is_too_old z.ring x.sequence_id r.receive_buffer ≡ false

-- What storing it leaves unchanged, and that it can be read.
pub record Stored (x : OrderStateReport) (z : Sizes) (r r' : Receiver) : Type 0 where
  pub object : ℕ
  pub found : get_slot z.ring r'.objects x.sequence_id r'.receive_buffer ≡ some object
  pub next : r'.next_to_read ≡ r.next_to_read
  pub outgoing : r'.outgoing ≡ r.outgoing

updated : (a : ℕ) (x : OrderStateReport) (f : ℕ → OrderStateReport) → update a x f a ≡ x
unfolding update
updated a x f = ground arith

same_test : (n m : ℕ) → n ≡ m → (n == m) ≡ true
same_test n m e = ground arith

same_place : (n : ℕ) (v : Option ℕ) (f : ℕ → Option ℕ) → update n v f n ≡ v
unfolding update
same_place n v f = ground arith

store_taken :
    (z : Sizes) (x : OrderStateReport) (r : Receiver) (a : ℕ) (o : Option ℕ × StoragePool)
    → o.0 ≡ some a
    → is_too_old z.ring x.sequence_id r.receive_buffer ≡ false
    → Stored x z r (store_from z x r o)
unfolding add_slot get_slot
store_taken z x r a (none, pool) e h = absurd (none-ne-some a e)
store_taken z x r a (some b, pool) e h =
    let id = ap (λ o. o.sequence_id) (updated b x r.objects) in
    rw (id, h)
      (record {
        object = b;
        found =
            rw
              (
                same_place (x.sequence_id % 2 ^ z.ring) (some b) r.receive_buffer.buffer,
                same_test x.sequence_id _ (sym id),
              )
              refl;
        next = refl;
        outgoing = refl;
      })

some_read :
    (z : Sizes) (r : Receiver) (ys xs : List ℕ) (a : ℕ) (r' : Receiver)
    → get_slot z.ring r.objects r.next_to_read r.receive_buffer ≡ some a
    → r.next_to_read < 2 ^ 32
    → Drained z r ys xs r'
    → IsEmpty z r'
    → 0 < length xs
some_read z r ys [] a r' e l d h =
    let n : r'.next_to_read ≡ r.next_to_read = omega (arith, d.next, l) in
    let i : get_slot z.ring r.objects r.next_to_read r.receive_buffer ≡ none =
      subst (λ m. get_slot z.ring r.objects m r.receive_buffer ≡ none) n
        (subst (λ b. get_slot z.ring r.objects r'.next_to_read b ≡ none) d.buffer
          (subst (λ o. get_slot z.ring o r'.next_to_read r'.receive_buffer ≡ none) d.kept h)) in
    absurd (none-ne-some a (sym i ∙ e))
some_read z r ys (b ∷ xs) a r' e l d h = omega arith

-- The report that is to be read next, if it finds a free object and is not too old for the buffer, is
-- handed on at once, and with it all those that waited behind it: the loop that empties the buffer tries to
-- push a run of objects with consecutive sequence ids, the first with the one that was to be read, and
-- ends when the next one is not there. What a full queue refuses is lost.
pub store_object_passes_on :
    (z : Sizes) (x : OrderStateReport) (r : Receiver) (ys : List ℕ)
    → z.ring ≤ 31
    → z.queue ≤ 63
    → r.next_to_read < 2 ^ 32
    → IsFifoAt z.queue r.outgoing ys
    → x.sequence_id ≡ r.next_to_read
    → IsTaken z x r
    → (xs : List ℕ) × Drained z (store_object z x r) ys xs (drain_all z (store_object z x r))
      × (0 < length xs)
      × IsEmpty z (drain_all z (store_object z x r))
      × ((store_object z x r).next_to_read ≡ r.next_to_read)
unfolding store_object
store_object_passes_on z x r ys small wide l f e t =
    let s = store_taken z x r t.object (acquire z.pool r.pool) t.available t.recent in
    let r' = store_object z x r in
    let d =
      drain_all_lem z r' ys small wide (subst (λ n. n < 2 ^ 32) (sym s.next) l)
        (subst (λ q. IsFifoAt z.queue q ys) (sym s.outgoing) f) in
    (
      d.0,
      d.1,
      some_read z r' ys d.0 s.object (drain_all z r')
          (subst (λ n. get_slot z.ring r'.objects n r'.receive_buffer ≡ some s.object)
            (e ∙ sym s.next) s.found)
          (subst (λ n. n < 2 ^ 32) (sym s.next) l) d.1 d.2,
      d.2,
      s.next,
    )
