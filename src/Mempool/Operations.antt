-- ===== src/Mempool/Operations.antt =====
-- What each operation of the pool does to who has which object.
use naoto_exchange.Common.{
  ℕ, zero, suc, ◌+◌, ◌^◌, ◌≤◌, ◌<◌, List, [], ◌∷◌, ◌++◌, Bool, true, false, Option, none, some, ◌≡◌,
  subst, leb, refl, ap, ◌∙◌, ltb, if◌then◌else◌, length, update, arith, length-append,
}
use naoto_exchange.Queue.{SpscQueue, try_push, try_pop}
use naoto_exchange.Queue.Fifo.{IsFifoAt, push_spec, pop_spec, try_push_lem, try_pop_lem}
use naoto_exchange.Pool.Owned.{count, remove, length-remove, count-remove, not_held}
use naoto_exchange.Mempool.{StoragePool, new_pool, acquire, acquire_from, local_release, release}

-- The objects that are kept for reuse, the next one first.
abbrev pub Kept : (ℕ → Option ℕ) → List ℕ → Type 0
Kept f [] = Unit
Kept f (b ∷ bs) = (f (length bs) ≡ some b) × Kept f bs

-- The pool and what its users hold: one thread acquires, and releases what it cannot pass on; the
-- other releases what was passed on to it. Each releases only what is held.
pub data IsUsed (k : ℕ) : StoragePool → List ℕ → Type 0 where
  start : (places : ℕ → ℕ) (p : StoragePool) → new_pool k places ≡ some p → IsUsed k p []
  acquired :
      (p : StoragePool) (held : List ℕ) (a : ℕ)
      → IsUsed k p held
      → (acquire k p).0 ≡ some a
      → IsUsed k (acquire k p).1 (a ∷ held)
  found_none :
      (p : StoragePool) (held : List ℕ)
      → IsUsed k p held
      → (acquire k p).0 ≡ none
      → IsUsed k (acquire k p).1 held
  released_locally :
      (p : StoragePool) (held : List ℕ) (a : ℕ)
      → IsUsed k p held
      → 0 < count a held
      → IsUsed k (local_release k a p).1 (remove a held)
  released :
      (p : StoragePool) (held : List ℕ) (a : ℕ)
      → IsUsed k p held
      → 0 < count a held
      → IsUsed k (release k (some a) p).1 (remove a held)

abbrev pub ids_from : ℕ → ℕ → List ℕ
ids_from first zero = []
ids_from first (suc left) = first ∷ ids_from (suc first) left

-- Each object of the storage is held, kept or free, and only once.
pub record Owns (k : ℕ) (p : StoragePool) (held kept free : List ℕ) : Type 0 where
  pub kept_size : p.local_reuse_size ≡ length kept
  pub keeps : Kept p.local_reuse_buffer kept
  pub fifo : IsFifoAt k p.free free
  pub total : length free + length kept + length held ≡ 2 ^ k
  pub once : (a : ℕ) → count a free + count a kept + count a held ≡ (if ltb a (2 ^ k) then 1 else 0)

abbrev pub IsOwned : ℕ → StoragePool → List ℕ → Type 0
IsOwned k p held = (kept : List ℕ) × (free : List ℕ) × Owns k p held kept free

-- What an acquisition brings: an object that no one held, or none, and then all are held.
abbrev pub AcquiredFrom : ℕ → List ℕ → Option ℕ × StoragePool → Type 0
AcquiredFrom k held (none, p') = IsOwned k p' held × (length held ≡ 2 ^ k)
AcquiredFrom k held (some a, p') = IsOwned k p' (a ∷ held) × (count a held ≡ 0)

abbrev pub Released : ℕ → ℕ → List ℕ → Bool × StoragePool → Type 0
Released k a held (ok, p') = (ok ≡ true) × IsOwned k p' (remove a held)

pub count-append : (a : ℕ) (xs ys : List ℕ) → count a (xs ++ ys) ≡ count a xs + count a ys
unfolding count
count-append a [] ys = omega arith
count-append a (x ∷ xs) ys = omega (arith, count-append a xs ys)

pub Kept-update :
    (f : ℕ → Option ℕ) (n : ℕ) (v : Option ℕ) (bs : List ℕ)
    → length bs ≤ n
    → Kept f bs
    → Kept (update n v f) bs
unfolding update
Kept-update f n v [] h k = tt
Kept-update f n v (b ∷ bs) h k = (rw k.0 (ground arith), Kept-update f n v bs (omega arith) k.1)

pub updated : (n i : ℕ) (v : Option ℕ) (f : ℕ → Option ℕ) → n ≡ i → update n v f i ≡ v
unfolding update
updated n i v f e = ground arith

module _ (k : ℕ) (small : k ≤ 63) where
  pub take_free :
      (p : StoragePool) (held free : List ℕ) (r : Option ℕ × SpscQueue ℕ)
      → Owns k p held [] free
      → r.0 ≡ (pop_spec free).0
      → IsFifoAt k r.1 (pop_spec free).1
      → AcquiredFrom k held (r.0, record p { free = r.1 })
  unfolding pop_spec count
  take_free p held [] r h e f = rw e (
    (
      [],
      [],
      record { kept_size = h.kept_size; keeps = tt; fifo = f; total = h.total; once = h.once },
    ),
    omega (arith, h.total),
  )
  take_free p held (a ∷ free) r h e f = rw e (
    (
      [],
      free,
      record {
        kept_size = h.kept_size;
        keeps = tt;
        fifo = f;
        total = omega (arith, h.total);
        once = λ c. omega (arith, h.once c);
      },
    ),
    not_held a (count a free) (count a held) (ltb a (2 ^ k)) (omega (arith, h.once a)),
  )

  pub take_lem :
      (p : StoragePool) (held kept free : List ℕ) (n : ℕ)
      → p.local_reuse_size ≡ n
      → Owns k p held kept free
      → AcquiredFrom k held (acquire_from k n p)
  unfolding count
  take_lem p held [] free zero e h =
      let t = try_pop_lem k small p.free free h.fifo in
      take_free p held free (try_pop k p.free) h t.0 t.1
  take_lem p held [] free (suc n) e h = absurd (omega (arith, h.kept_size))
  take_lem p held (a ∷ kept) free zero e h = absurd (omega (arith, h.kept_size))
  take_lem p held (a ∷ kept) free (suc n) e h =
      let m : n ≡ length kept = omega (arith, h.kept_size) in
      rw (m, h.keeps.0)
        (
          (
            kept,
            free,
            record {
              kept_size = refl;
              keeps = h.keeps.1;
              fifo = h.fifo;
              total = omega (arith, h.total);
              once = λ c. omega (arith, h.once c);
            },
          ),
          not_held a (count a kept + count a free) (count a held) (ltb a (2 ^ k))
              (omega (arith, h.once a)),
        )

  pub local_release_lem :
      (p : StoragePool) (held kept free : List ℕ) (a : ℕ)
      → 0 < count a held
      → Owns k p held kept free
      → Released k a held (local_release k a p)
  unfolding local_release count
  local_release_lem p held kept free a c h =
      let room : ltb p.local_reuse_size (2 ^ k) ≡ true =
        ground (arith, h.kept_size, h.total, length-remove a held c) in
      rw (room, local_release)
        (
          refl,
          (
            a ∷ kept,
            free,
            record {
              kept_size = ap suc h.kept_size;
              keeps = (
                updated p.local_reuse_size (length kept) (some a) p.local_reuse_buffer h.kept_size,
                Kept-update p.local_reuse_buffer p.local_reuse_size (some a) kept
                    (omega (arith, h.kept_size)) h.keeps,
              );
              fifo = h.fifo;
              total = omega (arith, h.total, length-remove a held c);
              once = λ b. omega (arith, h.once b, count-remove a b held c);
            },
          ),
        )

  pub push_room :
      (a : ℕ) (xs : List ℕ) → length xs < 2 ^ k → push_spec (2 ^ k) a xs ≡ (true, xs ++ a ∷ [])
  unfolding push_spec
  push_room a xs h = let e : leb (2 ^ k) (length xs) ≡ false = ground arith in rw e refl

  pub release_lem :
      (p : StoragePool) (held kept free : List ℕ) (a : ℕ)
      → 0 < count a held
      → Owns k p held kept free
      → Released k a held (release k (some a) p)
  unfolding release count
  release_lem p held kept free a c h =
      let s = push_room a free (omega (arith, h.total, length-remove a held c)) in
      let t = try_push_lem k small a p.free free h.fifo in
      (
        t.0 ∙ ap (λ r. r.0) s,
        (
          kept,
          free ++ a ∷ [],
          record {
            kept_size = h.kept_size;
            keeps = h.keeps;
            fifo = subst (λ r. IsFifoAt k (try_push k a p.free).1 r.1) s t.1;
            total = omega (arith, h.total, length-remove a held c, length-append free (a ∷ []));
            once =
                λ b. omega (arith, h.once b, count-remove a b held c, count-append b free (a ∷ []));
          },
        ),
      )
