-- ===== src/Consumer/Batches.antt =====
-- What a consumer takes, handles and returns.
use naoto_exchange.Common.{
  take, drop, ℕ, zero, suc, ◌+◌, ◌≤◌, ◌<◌, List, [], ◌∷◌, Option, some, ◌≡◌, refl, ap, arith,
}
use naoto_exchange.Queue.{SpscQueue, try_pop}
use naoto_exchange.Queue.Fifo.{IsFifoAt, pop_spec, try_pop_lem}
use naoto_exchange.Pool.Owned.{count, remove, count-remove}
use naoto_exchange.Mempool.{StoragePool, release}
use naoto_exchange.Mempool.Owned.{releases_succeed}
use naoto_exchange.Mempool.Operations.{IsUsed, released}
use naoto_exchange.Consumer.{
  Consumer, consume_batch, fill_buffer, free_elements, try_consume, try_consume_one,
}

unfoldable pub remove_all : List ℕ → List ℕ → List ℕ
remove_all [] held = held
remove_all (a ∷ batch) held = remove_all batch (remove a held)

pub fill_buffer_lem :
    (k : ℕ)
    → k ≤ 63
    → (n : ℕ) (q : SpscQueue ℕ) (xs : List ℕ) → IsFifoAt k q xs
    → ((fill_buffer k n q).0 ≡ take n xs) × IsFifoAt k (fill_buffer k n q).1 (drop n xs)
unfolding fill_buffer pop_spec
fill_buffer_lem k small zero q xs f = (refl, f)
fill_buffer_lem k small (suc n) q [] f =
    let t = try_pop_lem k small q [] f in rw (t.0, fill_buffer) (refl, t.1)
fill_buffer_lem k small (suc n) q (x ∷ xs) f =
    let t = try_pop_lem k small q (x ∷ xs) f in
    let r = fill_buffer_lem k small n (try_pop k q).1 xs t.1 in
    rw (t.0, fill_buffer) (ap (λ ys. x ∷ ys) r.0, r.1)

-- Every occurrence in the batch is one in what is held.
abbrev pub Held : List ℕ → List ℕ → Type 0
Held batch held = (a : ℕ) → count a batch ≤ count a held

pub free_elements_lem :
    (j : ℕ)
    → j ≤ 63
    → (batch : List ℕ) (p : StoragePool) (held : List ℕ) → IsUsed j p held
    → Held batch held
    → (p' : StoragePool) × (free_elements j batch p ≡ some p') × IsUsed j p' (remove_all batch held)
unfolding free_elements remove_all count
free_elements_lem j small [] p held r h = (p, refl, r)
free_elements_lem j small (a ∷ batch) p held r h =
    let own : 0 < count a held = ground (arith, h a) in
    let s = (releases_succeed j small p held a r own).0 in
    let q = (release j (some a) p).1 in
    let rest =
      free_elements_lem j small batch q (remove a held) (released p held a r own)
        (λ c. omega (arith, h c, count-remove a c held own)) in
    (rest.0, rw s rest.1, rest.2)

-- The consumer's queue and pool are in order: the queue stands for objects that are held.
pub record IsFed {ℓ} {S : Type ℓ} (k j : ℕ) (c : Consumer S) (xs held : List ℕ) : Type ℓ where
  pub queue : IsFifoAt k c.incoming xs
  pub pool : IsUsed j c.mempool held
  pub in_use : Held xs held

-- What a turn does: it does not end the program, it handles the batch as it should be, and it returns
-- the batch to the pool.
pub record Consumed {ℓ} {S : Type ℓ} (k j : ℕ) (xs held batch : List ℕ) (derived : S)
    (r : Option (Consumer S)) : Type ℓ where
  pub next : Consumer S
  pub runs : r ≡ some next
  pub handled : next.derived ≡ derived
  pub fed : IsFed k j next xs (remove_all batch held)

abbrev pub handle_some {ℓ} : {S : Type ℓ} → (List ℕ → S → S) → List ℕ → S → S
handle_some handle [] s = s
handle_some handle (a ∷ batch) s = handle (a ∷ batch) s

-- A handler of one element, at a batch.
abbrev pub handle_first {ℓ} : {S : Type ℓ} → (ℕ → S → S) → List ℕ → S → S
handle_first handle [] s = s
handle_first handle (a ∷ batch) s = handle a s

count-split : (n a : ℕ) (xs : List ℕ) → count a (take n xs) + count a (drop n xs) ≡ count a xs
unfolding count
count-split zero a xs = omega arith
count-split (suc n) a [] = omega arith
count-split (suc n) a (x ∷ xs) = omega (arith, count-split n a xs)

count-remove_all :
    (batch held : List ℕ) (c : ℕ)
    → Held batch held
    → count c batch + count c (remove_all batch held) ≡ count c held
unfolding count remove_all
count-remove_all [] held c h = omega arith
count-remove_all (a ∷ batch) held c h =
    let own : 0 < count a held = ground (arith, h a) in
    omega (
      arith,
      count-remove a c held own,
      count-remove_all batch (remove a held) c (λ d. omega (arith, h d, count-remove a d held own)),
    )

module _ {ℓ} {S : Type ℓ} (k j : ℕ) (k_small : k ≤ 63) (j_small : j ≤ 63) where
  consume_filled :
      (handle : List ℕ → S → S) (c : Consumer S) (xs held batch rest : List ℕ) (q : SpscQueue ℕ)
      → IsFed k j c xs held
      → ((a : ℕ) → count a batch + count a rest ≡ count a xs)
      → IsFifoAt k q rest
      → Consumed k j rest held batch
          (handle_some handle batch c.derived)
          (consume_batch j handle batch (record c { incoming = q }))
  unfolding remove_all count
  consume_filled handle c xs held [] rest q h e f = record {
    next = record c { incoming = q };
    runs = refl;
    handled = refl;
    fed = record { queue = f; pool = h.pool; in_use = λ a. omega (arith, e a, h.in_use a) };
  }
  consume_filled handle c xs held (a ∷ batch) rest q h e f =
      let own : Held (a ∷ batch) held = λ b. omega (arith, e b, h.in_use b) in
      let t = free_elements_lem j j_small (a ∷ batch) c.mempool held h.pool own in
      record {
        next = record { incoming = q; mempool = t.0; derived = handle (a ∷ batch) c.derived };
        runs = rw t.1 refl;
        handled = refl;
        fed = record {
          queue = f;
          pool = t.2;
          in_use = λ b. omega (arith, e b, h.in_use b, count-remove_all (a ∷ batch) held b own);
        };
      }

  -- From a queue and a pool in order, a turn takes the first elements of the queue, at most a batch,
  -- handles them together in their order, and returns each of them to the pool, without
  -- ending the program. If the queue is empty, nothing is handled.
  pub try_consume_lem :
      (handle : List ℕ → S → S) (batch_size : ℕ) (c : Consumer S) (xs held : List ℕ)
      → IsFed k j c xs held
      → Consumed k j
          (drop batch_size xs)
          held
          (take batch_size xs)
          (handle_some handle (take batch_size xs) c.derived)
          (try_consume k j batch_size handle c)
  unfolding try_consume
  try_consume_lem handle n c xs held h =
      let f = fill_buffer_lem k k_small n c.incoming xs h.queue in
      rw f.0 (
        consume_filled handle c xs held (take n xs) (drop n xs) (fill_buffer k n c.incoming).1 h
          (λ a. count-split n a xs) f.1)

  -- Without batches a turn takes, handles and returns the first element, if there is one.
  pub try_consume_one_lem :
      (handle : ℕ → S → S) (c : Consumer S) (xs held : List ℕ)
      → IsFed k j c xs held
      → Consumed k j
          (drop 1 xs)
          held
          (take 1 xs)
          (handle_some (handle_first handle) (take 1 xs) c.derived)
          (try_consume_one k j handle c)
  unfolding try_consume_one pop_spec
  try_consume_one_lem handle c [] held h =
      let t = try_pop_lem k k_small c.incoming [] h.queue in
      rw (t.0, try_consume_one)
        (consume_filled (handle_first handle) c [] held [] [] (try_pop k c.incoming).1 h
          (λ a. count-split 1 a []) t.1)
  try_consume_one_lem handle c (x ∷ xs) held h =
      let t = try_pop_lem k k_small c.incoming (x ∷ xs) h.queue in
      rw (t.0, try_consume_one)
        (consume_filled (handle_first handle) c (x ∷ xs) held (x ∷ []) xs (try_pop k c.incoming).1 h
          (λ a. count-split 1 a (x ∷ xs)) t.1)
