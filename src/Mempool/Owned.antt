-- ===== src/Mempool/Owned.antt =====
-- Every object is free, kept for reuse, or held by one user.
use naoto_exchange.Common.{
  ℕ, ◌^◌, ◌≤◌, ◌<◌, List, [], ◌∷◌, true, Option, none, some, ◌≡◌, subst, refl, sym, ◌∙◌, ltb,
  length, arith,
}
use mathlib.Core.Option.{some-injective, none-ne-some}
use naoto_exchange.Queue.Fifo.{get_size_lem}
use naoto_exchange.Pool.Owned.{count}
use naoto_exchange.Mempool.{StoragePool, acquire, local_release, release, get_available}
use naoto_exchange.Mempool.Fresh.{unwrap, new_pool-IsOwned}
use naoto_exchange.Mempool.Operations.{
  IsUsed, IsOwned, AcquiredFrom, take_lem, local_release_lem, release_lem, start, acquired,
  found_none, released_locally, released,
}

acquired_some :
    (k : ℕ) (held : List ℕ) (a : ℕ) (r : Option ℕ × StoragePool)
    → r.0 ≡ some a
    → AcquiredFrom k held r
    → IsOwned k r.1 (a ∷ held)
acquired_some k held a (none, p) e h = absurd (none-ne-some a e)
acquired_some k held a (some b, p) e h =
    subst (λ c. IsOwned k p (c ∷ held)) (some-injective b a e) h.0

acquired_none :
    (k : ℕ) (held : List ℕ) (r : Option ℕ × StoragePool)
    → r.0 ≡ none
    → AcquiredFrom k held r
    → IsOwned k r.1 held
acquired_none k held (none, p) e h = h.0
acquired_none k held (some b, p) e h = absurd (none-ne-some b (sym e))

-- With at most 2 ^ 63 objects and whatever its users did so far, each object of the pool is free, kept
-- for reuse or held, and only once, as long as users release only what they hold.
pub IsUsed-IsOwned :
    (k : ℕ) → k ≤ 63 → (p : StoragePool) (held : List ℕ) → IsUsed k p held → IsOwned k p held
unfolding acquire
IsUsed-IsOwned k small p held (start places q e) =
    let n = new_pool-IsOwned k small places in unwrap n.0 q (λ o. IsOwned k o []) (sym n.1 ∙ e) n.2
IsUsed-IsOwned k small p held (acquired q rest a r e) =
    let h = IsUsed-IsOwned k small q rest r in
    acquired_some k rest a _ e (take_lem k small q rest h.0 h.1 q.local_reuse_size refl h.2)
IsUsed-IsOwned k small p held (found_none q rest r e) =
    let h = IsUsed-IsOwned k small q rest r in
    acquired_none k rest _ e (take_lem k small q rest h.0 h.1 q.local_reuse_size refl h.2)
IsUsed-IsOwned k small p held (released_locally q rest a r c) =
    let h = IsUsed-IsOwned k small q rest r in (local_release_lem k small q rest h.0 h.1 a c h.2).1
IsUsed-IsOwned k small p held (released q rest a r c) =
    let h = IsUsed-IsOwned k small q rest r in (release_lem k small q rest h.0 h.1 a c h.2).1

-- In a pool used so, an acquisition yields an object that no one holds and that is then held, or
-- yields none, and then all objects are held.
pub acquire_lem :
    (k : ℕ)
    → k ≤ 63
    → (p : StoragePool) (held : List ℕ) → IsUsed k p held
    → AcquiredFrom k held (acquire k p)
unfolding acquire
acquire_lem k small p held r =
    let h = IsUsed-IsOwned k small p held r in
    take_lem k small p held h.0 h.1 p.local_reuse_size refl h.2

-- In a pool used so, the release of an object that is held succeeds, by either of its threads.
pub releases_succeed :
    (k : ℕ)
    → k ≤ 63
    → (p : StoragePool) (held : List ℕ) (a : ℕ) → IsUsed k p held
    → 0 < count a held
    → ((release k (some a) p).0 ≡ true) × ((local_release k a p).0 ≡ true)
releases_succeed k small p held a r c =
    let h = IsUsed-IsOwned k small p held r in
    (
      (release_lem k small p held h.0 h.1 a c h.2).0,
      (local_release_lem k small p held h.0 h.1 a c h.2).0,
    )

-- In a pool used so, the pool says that it has an object available exactly when not all are held.
pub get_available_lem :
    (k : ℕ)
    → k ≤ 63
    → (p : StoragePool) (held : List ℕ) → IsUsed k p held
    → get_available p ≡ ltb (length held) (2 ^ k)
unfolding get_available
get_available_lem k small p held r =
    let h = IsUsed-IsOwned k small p held r in
    let o = h.2 in
    rw (get_size_lem k small p.free h.1 o.fifo, o.kept_size) (ground (arith, o.total))
