-- ===== src/HashMap/Table.antt =====
-- market_server/common/include/flat_hash_map.hpp: `FlatHashMap`, sixteen slots for each hash. An entry
-- stands at its home or behind it, and its tag is its distance from there.
use naoto_exchange.Common.{
  ℕ, zero, suc, ◌+◌, ◌*◌, ◌/◌, ◌%◌, List, [], ◌∷◌, Bool, Option, none, some, ◌==◌, ltb, ◌&&◌, ◌||◌,
  if◌then◌else◌, update,
}

-- `Tags[i]`, `FootPrints[i]`, `Keys[i]` and `Data[i]`.
pub record Slot : Type 0 where
  pub tag : ℕ
  pub foot_print : ℕ
  pub key : ℕ
  pub value : ℕ

abbrev pub empty_marker : ℕ
empty_marker = 128

-- The four arrays, which are always written together, at one index. There are
-- `(size + 1) * 16` of them.
abbrev pub Slots : Type 0
Slots = ℕ → Slot

-- The constructor.
abbrev pub empty_slot : Slot
empty_slot = record { tag = empty_marker; foot_print = 0; key = 0; value = 0 }

abbrev pub new_table : Slots
new_table = λ i. empty_slot

-- `hash_64`, in 64 bits.
unfoldable pub hash_64 : ℕ → ℕ
hash_64 k = (k * 11400714819323198485) % 18446744073709551616

-- `hash_64(key) >> 56`
unfoldable pub foot_of : ℕ → ℕ
unfolding hash_64
foot_of k = hash_64 k / 72057594037927936

-- `h & (Size - 1)`, where `size` is a power of two.
unfoldable pub bucket_of : ℕ → ℕ → ℕ
unfolding hash_64
bucket_of size k = hash_64 k % size

abbrev pub entry : ℕ → ℕ → ℕ → Slot
entry dib k v = record { tag = dib % 256; foot_print = foot_of k; key = k; value = v }

-- A write, and its copy in the padding behind the last slot.
unfoldable pub write_slot : ℕ → ℕ → Slot → Slots → Slots
unfolding update
write_slot size i s t = if ltb i 16 then update (size * 16 + i) s (update i s t) else update i s t

-- `PaddingSafeWrite`
unfoldable pub padding_safe_write : ℕ → ℕ → ℕ → ℕ → ℕ → Slots → Slots
unfolding write_slot
padding_safe_write size i dib k v t = write_slot size i (entry dib k v) t

-- `_mm_cmplt_epi8` on one lane: bytes with a sign.
abbrev pub signed_lt : ℕ → ℕ → Bool
signed_lt a b = ltb ((a + 128) % 256) ((b + 128) % 256)

-- `expected_dibs` on one lane.
abbrev pub expected_dib : ℕ → ℕ → ℕ
expected_dib dib lane = (lane + dib) % 256

-- `match_mask` on one lane of the sixteen slots from `i`.
unfoldable pub is_match : Slots → ℕ → ℕ → ℕ → ℕ → Bool
is_match t i dib foot lane =
    ((t (i + lane)).tag == expected_dib dib lane) && ((t (i + lane)).foot_print == foot)

-- `stop_slots` and `available_slots` on one lane.
unfoldable pub is_stop : Slots → ℕ → ℕ → ℕ → Bool
is_stop t i dib lane =
    ((t (i + lane)).tag == empty_marker) || signed_lt (t (i + lane)).tag (expected_dib dib lane)

-- The first lane of a mask, by `__builtin_ctz`, and 16 where there is none.
unfoldable pub first_lane : (ℕ → Bool) → ℕ → ℕ → ℕ
first_lane p zero lane = 16
first_lane p (suc n) lane = let later = first_lane p n (suc lane) in if p lane then lane else later

-- The lanes of a mask, from the lowest.
unfoldable pub lanes_of : (ℕ → Bool) → ℕ → ℕ → List ℕ
lanes_of p zero lane = []
lanes_of p (suc n) lane =
    let later = lanes_of p n (suc lane) in if p lane then lane ∷ later else later

-- What sixteen slots say of a key.
pub data Probe : Type 0 where
  found : ℕ → Probe
  absent : Probe
  go_on : Probe

-- The inner loop of `GetVal`, over the lanes of `matches`.
unfoldable pub check_matches : ℕ → Slots → ℕ → ℕ → ℕ → List ℕ → Probe
check_matches size t i stop k [] = if stop == 16 then go_on else absent
check_matches size t i stop k (lane ∷ lanes) =
    let s = t ((i + lane) % (size * 16)) in
    let rest = check_matches size t i stop k lanes in
    if ltb lane stop
    then (if (s.foot_print == foot_of k) && (s.key == k) then found s.value else rest)
    else absent

-- One round of `GetVal`.
unfoldable pub probe : ℕ → Slots → ℕ → ℕ → ℕ → Probe
unfolding check_matches first_lane lanes_of is_match is_stop
probe size t i dib k =
    check_matches size t i (first_lane (is_stop t i dib) 16 0) k
      (lanes_of (is_match t i dib (foot_of k)) 16 0)

-- The loop of `GetVal`. `cur_dib` starts at 0 and grows by 16: `rounds` is what is left of `size`.
unfoldable pub get_from : ℕ → Slots → ℕ → ℕ → ℕ → ℕ → Option ℕ
unfolding probe
get_from size t k zero i dib = none
get_from size t k (suc rounds) i dib = elim (probe size t i dib k) [
  | found v ↦ some v
  | absent ↦ none
  | go_on ↦ get_from size t k rounds ((i + 16) % (size * 16)) (dib + 16)
]

-- `GetVal`
unfoldable pub get_val : ℕ → ℕ → Slots → Option ℕ
unfolding get_from bucket_of
get_val size k t = get_from size t k size (bucket_of size k * 16) 0
