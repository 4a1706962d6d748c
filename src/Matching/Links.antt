-- ===== src/Matching/Links.antt =====
-- market_server/matching_engine/include/price_level.hpp: the doubly linked list of a level, with the
-- pointers of its nodes. Matching/Level has the same list as a list of nodes.
pub mod Segments
pub mod Refines
pub mod Levels
mod Tests
use naoto_exchange.Common.{ℕ, suc, ◌-◌, Option, none, some, update}

-- `Head`, `Tail` and `Size`, with `Prev` and `Next` of every node by its address. A null pointer is
-- `none`.
pub record Links : Type 0 where
  pub head : Option ℕ
  pub tail : Option ℕ
  pub size : ℕ
  pub prev : ℕ → Option ℕ
  pub next : ℕ → Option ℕ

-- The constructors.
abbrev pub new_links : (ℕ → Option ℕ) → (ℕ → Option ℕ) → Links
new_links prev next = record { head = none; tail = none; size = 0; prev = prev; next = next }

-- A write through a pointer. One through a null pointer does not occur.
abbrev pub write : Option ℕ → Option ℕ → (ℕ → Option ℕ) → ℕ → Option ℕ
unfolding update
write none v f = f
write (some a) v f = update a v f

abbrev pub append : Option ℕ → ℕ → Links → Links
unfolding write update
append none a l = record l {
  head = some a;
  tail = some a;
  size = suc l.size;
  prev = update a none l.prev;
  next = update a none l.next;
}
append (some h) a l = record l {
  tail = some a;
  size = suc l.size;
  prev = update a l.tail l.prev;
  next = update a none (write l.tail (some a) l.next);
}

-- `AddOrder`
unfoldable pub add_node : ℕ → Links → Links
unfolding append
add_node a l = append l.head a l

abbrev pub relink_next : Option ℕ → Option ℕ → Links → Links
unfolding update
relink_next none n l = record l { head = n }
relink_next (some p) n l = record l { next = update p n l.next }

abbrev pub relink_prev : Option ℕ → Option ℕ → Links → Links
unfolding update
relink_prev none p l = record l { tail = p }
relink_prev (some n) p l = record l { prev = update n p l.prev }

-- `DeleteOrder`; `next` and `prev` of the node itself stay as they were.
unfoldable pub delete_node : ℕ → Links → Links
unfolding relink_next relink_prev
delete_node a l =
    let m = relink_next (l.prev a) (l.next a) (record l { size = l.size - 1 }) in
    relink_prev (m.next a) (m.prev a) m
