-- ===== src/Matching/Links/Levels.antt =====
-- A level with pointers beside the level of Matching/Level.
use naoto_exchange.Common.{
  ℕ, List, [], ◌∷◌, ◌++◌, Option, ◌==◌, ◌≡◌, refl, ap, sym, ◌∙◌, subst, arith, length, true, false,
  ℤ,
}
use naoto_exchange.Matching.Level.{
  OrderNode, PriceLevel, new_level, add_order, delete_order, unlink, is_empty,
}
use naoto_exchange.Matching.Links.{Links, new_links, add_node, delete_node}
use naoto_exchange.Matching.Links.Segments.{Lacks, Lacks-later}
use naoto_exchange.Matching.Links.Refines.{IsLinked, add_node-IsLinked, delete_node-IsLinked}

abbrev pub addresses : List OrderNode → List ℕ
addresses [] = []
addresses (n ∷ ns) = n.addr ∷ addresses ns

-- The node stands in the list.
pub record Has (n : OrderNode) (ns : List OrderNode) : Type 0 where
  pub before : List OrderNode
  pub after : List OrderNode
  pub stands : ns ≡ before ++ n ∷ after

-- The two levels, taken through the same operations: a node that is added is not in the level, one
-- that is deleted is.
pub data Paired : Links → PriceLevel → Type 0 where
  start : (prev next : ℕ → Option ℕ) (p : ℤ) → Paired (new_links prev next) (new_level p)
  added :
      (k : Links) (l : PriceLevel) (n : OrderNode)
      → Paired k l
      → Lacks n.addr (addresses l.orders)
      → Paired (add_node n.addr k) (add_order n l)
  deleted :
      (k : Links) (l : PriceLevel) (n : OrderNode)
      → Paired k l
      → Has n l.orders
      → Paired (delete_node n.addr k) (delete_order n l)

addresses-append : (xs ys : List OrderNode) → addresses (xs ++ ys) ≡ addresses xs ++ addresses ys
addresses-append [] ys = refl
addresses-append (x ∷ xs) ys = ap (λ r. x.addr ∷ r) (addresses-append xs ys)

unlink-middle :
    (n : OrderNode) (xs ys : List OrderNode)
    → Lacks n.addr (addresses xs)
    → unlink n.addr (xs ++ n ∷ ys) ≡ xs ++ ys
unfolding unlink
unlink-middle n [] ys h = let e : (n.addr == n.addr) ≡ true = ground arith in rw e refl
unlink-middle n (x ∷ xs) ys h =
    let e : (n.addr == x.addr) ≡ false = ground (arith, h.0) in
    rw e (ap (λ r. x ∷ r) (unlink-middle n xs ys h.1))

empty_size :
    (size : ℕ) (ns : List OrderNode)
    → size ≡ length (addresses ns)
    → (size == 0) ≡ elim ns [ [] ↦ true | n ∷ rest ↦ false ]
empty_size size [] h = ground (arith, h)
empty_size size (n ∷ ns) h = ground (arith, h)

linked : (k : Links) (l : PriceLevel) → Paired k l → IsLinked k (addresses l.orders)
unfolding add_order delete_order
linked k l (start prev next p) = record {
  head = refl;
  tail = refl;
  size = refl;
  segment = tt;
  distinct = tt;
}
linked k l (added j m n r h) =
    subst (IsLinked (add_node n.addr j)) (sym (addresses-append m.orders (n ∷ [])))
      (add_node-IsLinked n.addr (addresses m.orders) j h (linked j m r))
linked k l (deleted j m n r h) =
    let at = ap addresses h.stands ∙ addresses-append h.before (n ∷ h.after) in
    let i = subst (IsLinked j) at (linked j m r) in
    let d = Lacks-later (addresses h.before) (addresses h.after) n.addr i.distinct in
    subst (IsLinked (delete_node n.addr j))
      (sym (
        ap addresses (ap (unlink n.addr) h.stands ∙ unlink-middle n h.before h.after d)
        ∙ addresses-append h.before h.after))
      (delete_node-IsLinked (addresses h.before) n.addr (addresses h.after) j i)

-- Taken through the same operations, the pointers of the one level link the nodes of the other in their
-- order, forwards and backwards, and the size is 0 exactly when the other is empty: what
-- `DeleteOrder` returns.
pub Paired-IsLinked :
    (k : Links) (l : PriceLevel)
    → Paired k l
    → IsLinked k (addresses l.orders) × ((k.size == 0) ≡ is_empty l)
Paired-IsLinked k l r = let h = linked k l r in (h, empty_size k.size l.orders h.size)
