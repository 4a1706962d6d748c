-- ===== src/HashMap/Update.antt =====
-- market_server/common/include/flat_hash_map.hpp: `AddNode` and `DeleteNode`. The loops whose length
-- the code does not bound take fuel, and give none where it runs out.
use naoto_exchange.Common.{
  ℕ, zero, suc, ◌+◌, ◌-◌, ◌*◌, ◌%◌, true, false, Option, none, some, ◌==◌, ltb, ◌&&◌, ◌||◌,
  if◌then◌else◌,
}
use naoto_exchange.HashMap.Table.{
  Slots, empty_marker, foot_of, bucket_of, entry, write_slot, padding_safe_write, is_stop,
  first_lane, get_val,
}

-- The entry that `AddNode` still has to place, where it stands, and its distance from its home.
pub record Carried : Type 0 where
  pub cur_idx : ℕ
  pub cur_dib : ℕ
  pub held_key : ℕ
  pub held_value : ℕ
  pub slots : Slots

pub data Placing : Type 0 where
  placed : Slots → Placing
  carried : Carried → Placing

abbrev pub move_to : ℕ → ℕ → Carried → Carried
move_to i dib c = record c { cur_idx = i; cur_dib = dib }

-- `PaddingSafeSwap`: the poorer entry takes the slot, and the one that stood there is carried on.
unfoldable pub padding_safe_swap : ℕ → Carried → Carried
unfolding write_slot
padding_safe_swap size c =
    let s = c.slots c.cur_idx in
    record {
      cur_idx = c.cur_idx;
      cur_dib = s.tag;
      held_key = s.key;
      held_value = s.value;
      slots = write_slot size c.cur_idx (entry c.cur_dib c.held_key c.held_value) c.slots;
    }

unfoldable pub place : ℕ → ℕ → ℕ → Carried → Placing
unfolding padding_safe_write
place size i dib c = placed (padding_safe_write size i dib c.held_key c.held_value c.slots)

-- One slot of the two loops that go slot by slot: a free one is taken, a richer one is swapped.
unfoldable pub try_slot : ℕ → Carried → Placing
unfolding place padding_safe_swap
try_slot size c =
    let s = c.slots c.cur_idx in
    if s.tag == empty_marker
    then place size c.cur_idx c.cur_dib c
    else if ltb s.tag c.cur_dib
    then carried (padding_safe_swap size c)
    else carried c

-- The first loop of `AddNode`, through the sixteen slots of the home.
unfoldable pub home_loop : ℕ → ℕ → Carried → Option Placing
unfolding try_slot
home_loop size zero c = none
home_loop size (suc fuel) c = elim (ltb c.cur_dib 16) [
  | true ↦ elim (try_slot size c) [
    | placed t ↦ some (placed t)
    | carried d ↦ home_loop size fuel (move_to (d.cur_idx + 1) (d.cur_dib + 1) d)
  ]
  | false ↦ some (carried c)
]

-- The loop of the second one that goes on to the next multiple of 16, which it meets within 16 rounds.
unfoldable pub align_loop : ℕ → ℕ → Carried → Placing
unfolding try_slot
align_loop size zero c = carried c
align_loop size (suc rounds) c = elim (c.cur_idx % 16 == 0) [
  | true ↦ carried c
  | false ↦ elim (try_slot size c) [
    | placed t ↦ placed t
    | carried d ↦ align_loop size rounds (move_to ((d.cur_idx + 1) % (size * 16)) (d.cur_dib + 1) d)
  ]
]

-- Sixteen slots of the second loop at once.
unfoldable pub try_lanes : ℕ → Carried → Placing
unfolding place padding_safe_swap first_lane is_stop
try_lanes size c =
    let free = first_lane (λ lane. (c.slots (c.cur_idx + lane)).tag == empty_marker) 16 0 in
    let available = first_lane (is_stop c.slots c.cur_idx c.cur_dib) 16 0 in
    let slot_idx = (c.cur_idx + available) % (size * 16) in
    let next = carried (move_to ((c.cur_idx + 16) % (size * 16)) (c.cur_dib + 16) c) in
    if available == 16
    then next
    else if free == available
    then place size slot_idx (c.cur_dib + available) c
    else if available == 0
    then next
    else (let d = padding_safe_swap size (move_to slot_idx (c.cur_dib + available) c) in
        carried (move_to ((slot_idx + 1) % (size * 16)) (d.cur_dib + 1) d))

-- The second loop of `AddNode`. Where no slot is left, the entry that is carried is lost.
unfoldable pub spill_loop : ℕ → ℕ → Carried → Option Slots
unfolding align_loop try_lanes
spill_loop size zero c = none
spill_loop size (suc fuel) c = elim (ltb c.cur_dib (size * 16)) [
  | true ↦ elim (align_loop size 16 c) [
    | placed t ↦ some t
    | carried d ↦ elim (try_lanes size d) [ placed t ↦ some t | carried e ↦ spill_loop size fuel e ]
  ]
  | false ↦ some c.slots
]

abbrev pub spill_rest : ℕ → ℕ → Option Placing → Option Slots
spill_rest size fuel none = none
spill_rest size fuel (some (placed t)) = some t
spill_rest size fuel (some (carried c)) = spill_loop size fuel c

abbrev pub carry : ℕ → ℕ → ℕ → Slots → Carried
carry i k v t = record { cur_idx = i; cur_dib = 0; held_key = k; held_value = v; slots = t }

-- `AddNode`
unfoldable pub add_node : ℕ → ℕ → ℕ → ℕ → Slots → Option Slots
unfolding home_loop spill_loop bucket_of get_val
add_node size fuel k v t = elim (get_val size k t) [
  | some w ↦ some t
  | none ↦ spill_rest size fuel (home_loop size fuel (carry (bucket_of size k * 16) k v t))
]

-- The first loop of `DeleteNode`: the index of the key.
unfoldable pub find_from : ℕ → Slots → ℕ → ℕ → ℕ → ℕ → Option ℕ
find_from size t k zero i dib = none
find_from size t k (suc rounds) i dib =
    let s = t i in
    let later = find_from size t k rounds ((i + 1) % (size * 16)) (dib + 1) in
    if (s.tag == empty_marker) || ltb s.tag dib
    then none
    else if (s.foot_print == foot_of k) && (s.key == k)
    then some i
    else later

-- The second loop: each entry behind the hole that is not at its home moves up by one.
unfoldable pub shift_from : ℕ → ℕ → ℕ → Slots → Option Slots
unfolding padding_safe_write
shift_from size zero i t = none
shift_from size (suc fuel) i t =
    let next_idx = (i + 1) % (size * 16) in
    let s = t next_idx in
    let ended = padding_safe_write size i empty_marker 0 0 t in
    let moved = padding_safe_write size i (s.tag - 1) s.key s.value t in
    elim ((s.tag == empty_marker) || (s.tag == 0)) [
      | true ↦ some ended
      | false ↦ shift_from size fuel next_idx moved
    ]

-- `DeleteNode`. The first loop makes at most `Size * 16` rounds.
unfoldable pub delete_node : ℕ → ℕ → ℕ → Slots → Option Slots
unfolding find_from shift_from bucket_of
delete_node size fuel k t = elim (find_from size t k (size * 16) (bucket_of size k * 16) 0) [
  | some i ↦ shift_from size fuel i t
  | none ↦ some t
]
