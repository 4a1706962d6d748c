-- ===== src/Mempool/Fresh.antt =====
-- A new pool: every object is free.
use naoto_exchange.Common.{
  ℕ, zero, suc, ◌+◌, ◌^◌, ◌≤◌, List, [], ◌∷◌, ◌++◌, none, some, ◌≡◌, subst, refl, ap, sym, ◌∙◌, ltb,
  if◌then◌else◌, length, arith, length-append, append_assoc, append-nil,
}
use mathlib.Core.Option.{some-injective}
use naoto_exchange.Queue.{SpscQueue, new_queue, try_push}
use naoto_exchange.Queue.Fifo.{IsFifoAt, try_push_lem, new_queue-IsFifo}
use naoto_exchange.Pool.Owned.{count}
use naoto_exchange.Mempool.{StoragePool, fill, new_pool}
use naoto_exchange.Mempool.Operations.{ids_from, IsOwned, push_room}

pub fill_lem :
    (k : ℕ) (small : k ≤ 63) (left first : ℕ) (q : SpscQueue ℕ) (xs : List ℕ)
    → IsFifoAt k q xs
    → length xs + left ≤ 2 ^ k
    → (q' : SpscQueue ℕ) × (fill k first left q ≡ some q')
      × IsFifoAt k q' (xs ++ ids_from first left)
unfolding fill
fill_lem k small zero first q xs f h = (q, refl, subst (IsFifoAt k q) (sym (append-nil xs)) f)
fill_lem k small (suc left) first q xs f h =
    let t = try_push_lem k small first q xs f in
    let s = push_room k small first xs (omega (arith, h)) in
    let r =
      fill_lem k small left (suc first) (try_push k first q).1 (xs ++ first ∷ [])
        (subst (λ r. IsFifoAt k (try_push k first q).1 r.1) s t.1)
        (omega (arith, h, length-append xs (first ∷ []))) in
    (
      r.0,
      rw (t.0 ∙ ap (λ r. r.0) s) r.1,
      subst (IsFifoAt k r.0) (append_assoc xs (first ∷ []) (ids_from (suc first) left)) r.2,
    )

pub length-ids : (first left : ℕ) → length (ids_from first left) ≡ left
length-ids first zero = refl
length-ids first (suc left) = ap suc (length-ids (suc first) left)

pub count-ids :
    (first left a : ℕ)
    → count a (ids_from first left)
      ≡ (if ltb a first then 0 else if ltb a (first + left) then 1 else 0)
unfolding count
count-ids first zero a = ground arith
count-ids first (suc left) a = ground (arith, count-ids (suc first) left a)

pub unwrap : (p p' : StoragePool) (P : StoragePool → Type 0) → some p ≡ some p' → P p → P p'
unwrap p p' P e h = subst P (some-injective p p' e) h

pub new_pool-IsOwned :
    (k : ℕ)
    → k ≤ 63
    → (places : ℕ → ℕ) → (p : StoragePool) × (new_pool k places ≡ some p) × IsOwned k p []
unfolding new_pool count
new_pool-IsOwned k small places =
    let f =
      fill_lem k small (2 ^ k) 0 (new_queue places) [] (new_queue-IsFifo k places) (omega arith) in
    (
      record { free = f.0; local_reuse_buffer = λ i. none; local_reuse_size = 0 },
      rw f.1 refl,
      (
        [],
        ids_from 0 (2 ^ k),
        record {
          kept_size = refl;
          keeps = tt;
          fifo = f.2;
          total = omega (arith, length-ids 0 (2 ^ k));
          once = λ a. ground (arith, count-ids 0 (2 ^ k) a);
        },
      ),
    )
