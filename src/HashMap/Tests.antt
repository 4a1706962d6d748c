-- ===== src/HashMap/Tests.antt =====
-- Runs of the table of market_server/common/include/flat_hash_map.hpp.
use naoto_exchange.Common.{ℕ, List, [], ◌∷◌, Option, none, some, ◌≡◌, refl, arith, ◌*◌}
use naoto_exchange.HashMap.Table.{
  Slots, new_table, get_val, get_from, probe, check_matches, first_lane, lanes_of, is_match,
  is_stop, write_slot, padding_safe_write, bucket_of, hash_64, foot_of,
}
use naoto_exchange.HashMap.Update.{
  add_node, delete_node, home_loop, spill_loop, try_slot, try_lanes, align_loop, place,
  padding_safe_swap, find_from, shift_from,
}
use naoto_exchange.HashMap
use naoto_exchange.HashMap.Buckets.{put_entry, change_bucket}
use naoto_exchange.HashMap.Refines.{Change, put, remove, run, meaning, get_val-run}

add_all : List ℕ → Slots → Option Slots
unfolding add_node
add_all [] t = some t
add_all (k ∷ ks) t = elim (add_node 2 64 k (k * 10) t) [ none ↦ none | some u ↦ add_all ks u ]

get_after : ℕ → Option Slots → Option ℕ
unfolding get_val
get_after k none = none
get_after k (some t) = get_val 2 k t

delete_after : ℕ → Option Slots → Option Slots
unfolding delete_node
delete_after k none = none
delete_after k (some t) = delete_node 2 64 k t

abbrev evens : List ℕ
evens = 2 ∷ 4 ∷ 6 ∷ 8 ∷ 10 ∷ 12 ∷ 14 ∷ 16 ∷ 18 ∷ 20 ∷ 22 ∷ 24 ∷ 26 ∷ 28 ∷ 30 ∷ 32 ∷ []

reads_full : get_after 32 (add_all evens new_table) ≡ some 320
unfolding get_after add_all get_val get_from probe check_matches first_lane lanes_of is_match
    is_stop write_slot padding_safe_write bucket_of hash_64 foot_of home_loop spill_loop try_slot
    try_lanes align_loop place padding_safe_swap find_from shift_from
reads_full = refl

-- The seventeenth entry stands in the next sixteen slots where these are free.
reads_spilled :
    get_after 34
      (add_all (34 ∷ []) (elim (add_all evens new_table) [ none ↦ new_table | some t ↦ t ]))
    ≡ some 340
unfolding get_after add_all get_val get_from probe check_matches first_lane lanes_of is_match
    is_stop write_slot padding_safe_write bucket_of hash_64 foot_of home_loop spill_loop try_slot
    try_lanes align_loop place padding_safe_swap find_from shift_from
reads_spilled = refl

deletes : get_after 6 (delete_after 4 (add_all evens new_table)) ≡ some 60
unfolding get_after add_all get_val get_from probe check_matches first_lane lanes_of is_match
    is_stop write_slot padding_safe_write bucket_of hash_64 foot_of home_loop spill_loop try_slot
    try_lanes align_loop place padding_safe_swap find_from shift_from delete_after
deletes = refl

loses :
    get_after 34
      (add_all (1 ∷ 34 ∷ []) (elim (add_all evens new_table) [ none ↦ new_table | some t ↦ t ]))
    ≡ none
unfolding get_after add_all get_val get_from probe check_matches first_lane lanes_of is_match
    is_stop write_slot padding_safe_write bucket_of hash_64 foot_of home_loop spill_loop try_slot
    try_lanes align_loop place padding_safe_swap find_from shift_from
loses = refl

abbrev three_changes : List Change
three_changes = put 3 30 ∷ put 5 50 ∷ remove 3 ∷ []

get_val-run_example :
    (u : Slots) × (run 2 16 three_changes new_table ≡ some u)
    × ((j : ℕ) → get_val 2 j u ≡ meaning three_changes (λ k. none) j)
unfolding put_entry change_bucket bucket_of hash_64 HashMap.get_val HashMap.delete_node
get_val-run_example = get_val-run 2 16 three_changes (omega arith) (omega arith) (omega arith)
