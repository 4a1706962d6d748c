-- ===== src/Matching/Links/Refines.antt =====
-- The pointers of a level stand for a list of nodes, and its operations for those on the list.
use naoto_exchange.Common.{
  ℕ, suc, ◌-◌, List, [], ◌∷◌, ◌++◌, none, some, ◌≡◌, refl, ap, sym, ◌∙◌, subst, update, arith,
  length, length-append,
}
use naoto_exchange.Matching.Links.{
  Links, append, relink_next, relink_prev, write, add_node, delete_node,
}
use naoto_exchange.Matching.Links.Segments.{
  head_or, last_or, Segment, Lacks, Distinct, update_other, update_same, update_next, update_prev,
  join, split, redirect_next, redirect_prev, last_some, last-append, head-append, Lacks-last,
  Lacks-later, Distinct-end, Distinct-start, Distinct-without, Distinct-with,
}

-- The pointers link the nodes of the list, in both directions.
pub record IsLinked (l : Links) (xs : List ℕ) : Type 0 where
  pub head : l.head ≡ head_or xs none
  pub tail : l.tail ≡ last_or none xs
  pub size : l.size ≡ length xs
  pub segment : Segment l.prev l.next none xs none
  pub distinct : Distinct xs

add_to :
    (a x t : ℕ) (xs : List ℕ) (l : Links)
    → Lacks a (x ∷ xs)
    → last_or (some x) xs ≡ some t
    → l.tail ≡ some t
    → IsLinked l (x ∷ xs)
    → IsLinked (append (some x) a l) (x ∷ xs ++ a ∷ [])
unfolding append write
add_to a x t xs l n e f h =
    let next = update t (some a) l.next in
    let s1 = redirect_next l.prev l.next x none none (some a) xs h.distinct h.segment t e in
    let s2 = update_next l.prev next a none none (some a) (x ∷ xs) n s1 in
    let s3 = update_prev l.prev (update a none next) a (some t) none (some a) (x ∷ xs) n s2 in
    rw f (record {
      head = h.head;
      tail = sym (last-append (some x) xs (a ∷ []));
      size = omega (arith, h.size, length-append xs (a ∷ []));
      segment =
          join (update a (some t) l.prev) (update a none next) none none (x ∷ xs) (a ∷ []) s3
            (update_same a (some t) l.prev ∙ sym e, update_same a none next, tt);
      distinct = Distinct-with (x ∷ xs) a n h.distinct;
    })

-- `AddOrder` of a node that is not in the list puts it at the end.
pub add_node-IsLinked :
    (a : ℕ) (xs : List ℕ) (l : Links)
    → Lacks a xs
    → IsLinked l xs
    → IsLinked (add_node a l) (xs ++ a ∷ [])
unfolding add_node append
add_node-IsLinked a [] l n h = rw h.head (record {
  head = refl;
  tail = refl;
  size = ap suc h.size;
  segment = (update_same a none l.prev, update_same a none l.next, tt);
  distinct = (tt, tt);
})
add_node-IsLinked a (x ∷ xs) l n h =
    let t = last_some x xs in
    subst (λ o. IsLinked (append o a l) (x ∷ xs ++ a ∷ [])) (sym h.head)
      (add_to a x t.0 xs l n t.1 (h.tail ∙ t.1) h)

-- Halfway through `DeleteOrder`: the nodes before go on with the one after.
record Forward (l : Links) (ys : List ℕ) (a : ℕ) (zs : List ℕ) : Type 0 where
  head : l.head ≡ head_or (ys ++ zs) none
  tail : l.tail ≡ last_or none (ys ++ a ∷ zs)
  size : l.size ≡ length (ys ++ zs)
  before : Segment l.prev l.next none ys (head_or zs none)
  after : Segment l.prev l.next (some a) zs none
  own_prev : l.prev a ≡ last_or none ys
  own_next : l.next a ≡ head_or zs none

length-without : (ys zs : List ℕ) (a : ℕ) → length (ys ++ a ∷ zs) - 1 ≡ length (ys ++ zs)
length-without ys zs a = omega (arith, length-append ys (a ∷ zs), length-append ys zs)

forward :
    (ys : List ℕ) (a : ℕ) (zs : List ℕ) (l : Links)
    → IsLinked l (ys ++ a ∷ zs)
    → Forward (relink_next (l.prev a) (l.next a) (record l { size = l.size - 1 })) ys a zs
unfolding relink_next
forward [] a zs l h =
    let s = h.segment in
    rw (s.0, s.1)
      (record {
        head = sym (head-append [] zs none);
        tail = h.tail;
        size = ap (λ n. n - 1) h.size ∙ length-without [] zs a;
        before = tt;
        after = s.2;
        own_prev = s.0;
        own_next = s.1;
      })
forward (y ∷ ys) a zs l h =
    let s = split l.prev l.next none none (y ∷ ys) (a ∷ zs) h.segment in
    let t = last_some y ys in
    let after_lacks = Lacks-last ys (a ∷ zs) y t.0 h.distinct t.1 in
    let v = head_or zs none in
    rw (s.1.0 ∙ t.1, s.1.1)
      (record {
        head = h.head;
        tail = h.tail;
        size = ap (λ n. n - 1) h.size ∙ length-without (y ∷ ys) zs a;
        before =
            redirect_next l.prev l.next y none (some a) v ys
              (Distinct-start (y ∷ ys) (a ∷ zs) h.distinct) s.0 t.0 t.1;
        after = update_next l.prev l.next t.0 v (some a) none zs after_lacks.1 s.1.2;
        own_prev = s.1.0;
        own_next = update_other t.0 a v l.next after_lacks.0 ∙ s.1.1;
      })

backward :
    (ys : List ℕ) (a : ℕ) (zs : List ℕ) (m : Links)
    → Distinct (ys ++ a ∷ zs)
    → Forward m ys a zs
    → IsLinked (relink_prev (m.next a) (m.prev a) m) (ys ++ zs)
unfolding relink_prev
backward ys a [] m d h =
    rw (h.own_next, h.own_prev)
      (record {
        head = h.head;
        tail = sym (last-append none ys []);
        size = h.size;
        segment = join m.prev m.next none none ys [] h.before tt;
        distinct = Distinct-without ys [] a d;
      })
backward ys a (z ∷ zs) m d h =
    let p = last_or none ys in
    let rest = Distinct-without ys (z ∷ zs) a d in
    rw (h.own_next, h.own_prev)
      (record {
        head = h.head;
        tail = h.tail ∙ last-append none ys (a ∷ z ∷ zs) ∙ sym (last-append none ys (z ∷ zs));
        size = h.size;
        segment =
            join (update z p m.prev) m.next none none ys (z ∷ zs)
              (update_prev m.prev m.next z p none (some z) ys (Lacks-later ys zs z rest) h.before)
              (redirect_prev m.prev m.next z (some a) none p zs (Distinct-end ys (z ∷ zs) rest)
                h.after);
        distinct = rest;
      })

-- `DeleteOrder` of a node of the list takes it out and leaves the others in their order.
pub delete_node-IsLinked :
    (ys : List ℕ) (a : ℕ) (zs : List ℕ) (l : Links)
    → IsLinked l (ys ++ a ∷ zs)
    → IsLinked (delete_node a l) (ys ++ zs)
unfolding delete_node
delete_node-IsLinked ys a zs l h =
    backward ys a zs (relink_next (l.prev a) (l.next a) (record l { size = l.size - 1 })) h.distinct
      (forward ys a zs l h)
