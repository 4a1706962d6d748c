-- ===== src/HashMap/Delete.antt =====
-- `DeleteNode` of market_server/common/include/flat_hash_map.hpp, in a table none of whose hashes has
-- more than sixteen keys.
use naoto_exchange.Common.{
  ℕ, zero, suc, ◌+◌, ◌*◌, ◌%◌, ◌≤◌, ◌<◌, List, [], ◌∷◌, none, some, ◌≡◌, inl, inr, refl, sym, subst,
  ◌∙◌, arith, ◌==◌, Bool-cases, Option-cases,
}
use naoto_exchange.HashMap
use naoto_exchange.HashMap.Table.{Slots, bucket_of}
use naoto_exchange.HashMap.Update.{find_from, shift_from, delete_node}
use naoto_exchange.HashMap.Buckets.{
  Buckets, change_bucket, delete_node-missing, All-delete_node, Distinct-delete_node,
}
use naoto_exchange.HashMap.Rows.{Row}
use naoto_exchange.HashMap.Lookup.{Represents, bucket_within, next_bucket, next_bucket_lem}
use naoto_exchange.HashMap.Insert.{Represents-change}
use naoto_exchange.HashMap.Find.{
  IsHead, next-IsHead, index_of, index_of-same, index_of-other, find_from-absent, find_from-present,
  present_cons, none_of_nil,
}
use naoto_exchange.HashMap.Shift.{Frame, shift_from-Row}

delete_at :
    (size k x fuel : ℕ) (t : Slots) (b n c i : ℕ) (es : List (ℕ × ℕ))
    → b < size
    → n < size
    → (b * 16 + 16) % (size * 16) ≡ n * 16
    → i + c ≡ 16
    → 16 ≤ fuel
    → IsHead (t (n * 16))
    → Row t (b * 16) c i es
    → HashMap.get_val k es ≡ some x
    → (u : Slots) × (shift_from size fuel (b * 16 + (i + index_of k es)) t ≡ some u)
      × Row u (b * 16) c i (HashMap.delete_node k es)
      × Frame size (b * 16 + i) (b * 16 + 16) t u
unfolding HashMap.delete_node
delete_at size k x fuel t b n c i [] h nh e l f head r g = absurd (none_of_nil k x g)
delete_at size k x fuel t b n zero i (y ∷ es) h nh e l f head r g = absurd r
delete_at size k x fuel t b n (suc c) i (y ∷ es) h nh e l f head (p, r) g =
    elim (Bool-cases (k == y.0)) [
      | inl z ↦
          let at : i + 0 ≡ i = omega arith in
          rw (index_of-same k y es z, at, HashMap.delete_node, z)
            (shift_from-Row size fuel t b n c i es h nh e l (omega arith) head r)
      | inr z ↦
          let at : suc i + index_of k es ≡ i + suc (index_of k es) = omega arith in
          let (u, done, row, beyond) =
            delete_at size k x fuel t b n c (suc i) es h nh e (omega arith) f head r
              (present_cons k x y es z g) in
          rw (index_of-other k y es z, sym at, HashMap.delete_node, z)
            (
              u,
              done,
              (beyond (b * 16 + i) (omega arith) (inl (omega arith)) ∙ p, row),
              λ j q w. beyond j q (ground (arith, w)),
            )
    ]

module _ (size fuel k b : ℕ) (B : Buckets) (t : Slots) (w : Represents size B t)
    (h : b < size) where
  delete_node_absent :
      b ≡ bucket_of size k → HashMap.get_val k (B b) ≡ none → delete_node size fuel k t ≡ some t
  unfolding delete_node
  delete_node_absent e g =
      let missing =
        find_from-absent size k (size * 16) t (b * 16) 15 0 (B b) (omega arith) refl
          (next-IsHead size b B t w h) (w.row b h) g in
      let at : b * 16 + 0 ≡ b * 16 = omega arith in
      let start = subst (λ i. find_from size t k (size * 16) i 0 ≡ none) at missing in
      rw (delete_node, sym e, start) refl

  delete_node_present :
      (x : ℕ)
      → b ≡ bucket_of size k
      → HashMap.get_val k (B b) ≡ some x
      → delete_node size fuel k t ≡ shift_from size fuel (b * 16 + (0 + index_of k (B b))) t
  unfolding delete_node
  delete_node_present x e g =
      let there =
        find_from-present size k x (size * 16) t (b * 16) 15 0 (B b) (omega arith) refl
          (omega arith) (w.row b h) g in
      let at : b * 16 + 0 ≡ b * 16 = omega arith in
      let start =
        subst (λ i. find_from size t k (size * 16) i 0 ≡ some (b * 16 + (0 + index_of k (B b)))) at
          there in
      rw (delete_node, sym e, start) refl

-- `DeleteNode` in such a table.
pub delete_node-Represents :
    (size fuel k : ℕ) (B : Buckets) (t : Slots)
    → Represents size B t
    → 16 ≤ fuel
    → (u : Slots) × (delete_node size fuel k t ≡ some u)
      × Represents size (change_bucket size k (HashMap.delete_node k (B (bucket_of size k))) B) u
delete_node-Represents size fuel k B t w f =
    let b = bucket_of size k in
    let es = B b in
    let h = bucket_within size k w.positive in
    let homed = All-delete_node (λ e. bucket_of size e.0 ≡ b) k es (w.homed b h) in
    let distinct = Distinct-delete_node k es (w.distinct b h) in
    let (e, l) = next_bucket_lem size b h in
    elim (Option-cases (HashMap.get_val k es)) [
      | inl g ↦ (
        t,
        delete_node_absent size fuel k b B t w h refl g,
        Represents-change size k (HashMap.delete_node k es) B t t w
            (subst (λ l. Row t (b * 16) 16 0 l) (sym (delete_node-missing k es g)) (w.row b h))
            (λ j x y. refl) homed distinct,
      )
      | inr (x, g) ↦
          let head = subst (λ i. IsHead (t i)) e (next-IsHead size b B t w h) in
          let (u, done, row, beyond) =
            delete_at size k x fuel t b (next_bucket size b) 16 0 es h l e refl f head (w.row b h)
              g in
          (
            u,
            delete_node_present size fuel k b B t w h x refl g ∙ done,
            Represents-change size k (HashMap.delete_node k es) B t u w row
                (λ j y z. beyond j y (ground (arith, z))) homed distinct,
          )
    ]
