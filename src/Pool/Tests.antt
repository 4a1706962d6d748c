-- ===== src/Pool/Tests.antt =====
-- A pool of two objects, of which one is in use.
use naoto_exchange.Common.{[], ◌∷◌, ◌≡◌, refl, some, update}
use naoto_exchange.Pool.{StoragePool, new_pool, acquire, release}
use naoto_exchange.Pool.Owned.{Reach, start, acquired, IsOwned, Reach-IsOwned}

abbrev one_left : StoragePool
one_left = record (new_pool 2) { free_size = 1 }

abbrev none_left : StoragePool
none_left = record (new_pool 2) { free_size = 0 }

one_used : Reach 2 one_left (1 ∷ [])
unfolding acquire
one_used = acquired (new_pool 2) one_left [] 1 start refl

both_used : Reach 2 none_left (0 ∷ 1 ∷ [])
unfolding acquire
both_used = acquired one_left none_left (1 ∷ []) 0 one_used refl

-- The object that is released comes next.
reused : (acquire (release (some 1) none_left).1).0 ≡ some 1
unfolding acquire release update
reused = refl

Reach-IsOwned_example : IsOwned 2 none_left (0 ∷ 1 ∷ [])
Reach-IsOwned_example = Reach-IsOwned 2 none_left (0 ∷ 1 ∷ []) both_used
