-- ===== src/Batch/Laws.antt =====
-- A batch shows each client as all its reports leave it.
use naoto_exchange.Common.{
  ℕ, List, [], ◌∷◌, Bool, true, false, Option, some, ◌==◌, ◌≡◌, if◌then◌else◌, inl, inr, refl, sym,
  ap, subst, ◌∙◌, arith, Bool-cases, Option-cases, All,
}
use naoto_exchange.Batch.{
  Buffered, member, is_at, set_at, receive, receive_all, flush_touched, account_all, IsSettled,
}

same : (i j : ℕ) → (j == i) ≡ true → i ≡ j
same i j h = ground arith

else_true : (p q : Bool) → p ≡ false → (if p then true else q) ≡ true → q ≡ true
else_true p q h k = ground arith

module _ {S C R : Type 0} (b : Buffered S C R) (target : R → Option ℕ) where
  set_at_self :
      (f : S → S) (i j : ℕ) (states : ℕ → S)
      → (j == i) ≡ true
      → set_at i (f (states i)) states j ≡ f (states j)
  set_at_self f i j states t = rw t (ap (λ m. f (states m)) (same i j t))

  set_at_other :
      (s : S) (i j : ℕ) (states : ℕ → S) → (j == i) ≡ false → set_at i s states j ≡ states j
  set_at_other s i j states t = rw t refl

  receive_at :
      (r : R) (states : ℕ → S) (j : ℕ)
      → receive b target r states j ≡ (if is_at j (target r) then b.book r (states j) else states j)
  unfolding receive
  receive_at r states j = elim (Option-cases (target r)) [
    | inl n ↦ rw (n, receive) refl
    | inr (i, e) ↦ elim (Bool-cases (j == i)) [
      | inl t ↦ rw (e, receive, t) (ap (λ m. b.book r (states m)) (same i j t))
      | inr t ↦ rw (e, receive, t) refl
    ]
  ]

  -- What the first loop leaves of a buffer.
  Booked : C → S → S → Type 0
  Booked c s s' = b.IsSynced s' × (b.pending s' ≡ c) × (b.shown s' ≡ b.shown s)

  receive-Booked :
      (r : R) (states : ℕ → S) (j : ℕ)
      → b.IsSynced (states j)
      → Booked
          (if is_at j (target r) then b.account r (b.pending (states j)) else b.pending (states j))
          (states j)
          (receive b target r states j)
  unfolding Booked
  receive-Booked r states j h = rw (receive_at r states j) (elim (Bool-cases (is_at j (target r))) [
    | inl t ↦ rw t (b.book_lem r (states j) h)
    | inr t ↦ rw t (h, refl, refl)
  ])

  receive_all-Booked :
      (rs : List R) (states : ℕ → S) (j : ℕ)
      → b.IsSynced (states j)
      → Booked
          (account_all b target j rs (b.pending (states j)))
          (states j)
          (receive_all b target rs states j)
  unfolding receive_all account_all Booked
  receive_all-Booked [] states j h = (h, refl, refl)
  receive_all-Booked (r ∷ rs) states j h =
      let x = receive-Booked r states j h in
      let y = receive_all-Booked rs (receive b target r states) j x.0 in
      (y.0, y.1 ∙ ap (account_all b target j rs) x.1, y.2 ∙ x.2)

  -- A buffer after the second loop: flushed, or left alone because no report concerns it.
  data Flushed (j : ℕ) (rs : List R) (s s' : S) : Type 0 where
    flushed :
        b.IsSynced s' → b.pending s' ≡ b.pending s → b.shown s' ≡ b.pending s → Flushed j rs s s'
    untouched : s' ≡ s → All (λ r. is_at j (target r) ≡ false) rs → Flushed j rs s s'

  skip :
      (j : ℕ) (r : R) (rs : List R) (s s' : S)
      → is_at j (target r) ≡ false
      → Flushed j rs s s'
      → Flushed j (r ∷ rs) s s'
  skip j r rs s s' n (flushed h p q) = flushed h p q
  skip j r rs s s' n (untouched e h) = untouched e (n, h)

  -- A buffer that is settled, or flushed, counts as flushed whatever follows.
  settle :
      (j : ℕ) (r : R) (rs : List R) (s s1 s' : S)
      → b.IsSynced s1
      → b.pending s1 ≡ b.pending s
      → b.shown s1 ≡ b.pending s
      → Flushed j rs s1 s'
      → Flushed j (r ∷ rs) s s'
  settle j r rs s s1 s' h p q (flushed k x y) = flushed k (x ∙ p) (y ∙ p)
  settle j r rs s s1 s' h p q (untouched e k) =
      flushed (subst b.IsSynced (sym e) h) (ap b.pending e ∙ p) (ap b.shown e ∙ q)

  -- The indices that are touched are settled.
  Fresh : ℕ → List ℕ → S → Type 0
  Fresh j touched s = member j touched ≡ true → b.pending s ≡ b.shown s

  seen :
      (rs : List R) (touched : List ℕ) (i j : ℕ) (r : R) (s s' : S)
      → b.IsSynced s
      → target r ≡ some i
      → member i touched ≡ true
      → Fresh j touched s
      → Flushed j rs s s'
      → Flushed j (r ∷ rs) s s'
  unfolding Fresh
  seen rs touched i j r s s' h e u k z = elim (Bool-cases (j == i)) [
    | inl t ↦
        settle j r rs s s s' h refl (sym (k (subst (λ x. member x touched ≡ true) (same i j t) u)))
          z
    | inr t ↦ skip j r rs s s' (ap (is_at j) e ∙ t) z
  ]

  unseen :
      (rs : List R) (touched : List ℕ) (i j : ℕ) (r : R) (states : ℕ → S) (s' : S)
      → b.IsSynced (states j)
      → target r ≡ some i
      → Fresh j touched (states j)
      → (let s1 = set_at i (b.flush (states i)) states j in
          b.IsSynced s1 → Fresh j (i ∷ touched) s1 → Flushed j rs s1 s')
      → Flushed j (r ∷ rs) (states j) s'
  unfolding Fresh
  unseen rs touched i j r states s' h e k ih = elim (Bool-cases (j == i)) [
    | inl t ↦
        let q = set_at_self b.flush i j states t in
        let g = b.flush_lem (states j) h in
        let h1 = subst b.IsSynced (sym q) g.0 in
        let p1 = ap b.pending q ∙ g.1 in
        let s1 = ap b.shown q ∙ g.2 in settle j r rs _ _ s' h1 p1 s1 (ih h1 (λ m. p1 ∙ sym s1))
    | inr t ↦
        let q = set_at_other (b.flush (states i)) i j states t in
        let k1 =
          λ (m : (if j == i then true else member j touched) ≡ true). k (else_true _ _ t m) in
        let even = subst (λ x. b.pending x ≡ b.shown x) (sym q) in
        skip j r rs _ s' (ap (is_at j) e ∙ t)
          (subst (λ x. Flushed j rs x s') q (ih (subst b.IsSynced (sym q) h) (λ m. even (k1 m))))
  ]

  flush_touched-Flushed :
      (rs : List R) (touched : List ℕ) (states : ℕ → S) (j : ℕ)
      → b.IsSynced (states j)
      → Fresh j touched (states j)
      → Flushed j rs (states j) (flush_touched b target rs touched states j)
  unfolding flush_touched
  flush_touched-Flushed [] touched states j h k = untouched refl tt
  flush_touched-Flushed (r ∷ rs) touched states j h k = elim (Option-cases (target r)) [
    | inl n ↦
        rw (n, flush_touched)
          (skip j r rs _ _ (ap (is_at j) n) (flush_touched-Flushed rs touched states j h k))
    | inr (i, e) ↦ elim (Bool-cases (member i touched)) [
      | inl t ↦
          rw (e, flush_touched, t)
            (seen rs touched i j r _ _ h e t k (flush_touched-Flushed rs touched states j h k))
      | inr t ↦
          rw (e, flush_touched, t)
            (unseen rs touched i j r states _ h e k
              (flush_touched-Flushed rs (i ∷ touched) (set_at i (b.flush (states i)) states) j))
    ]
  ]

  -- A client that no report concerns keeps its state.
  account_none :
      (j : ℕ) (rs : List R) (c : C)
      → All (λ r. is_at j (target r) ≡ false) rs
      → account_all b target j rs c ≡ c
  unfolding account_all
  account_none j [] c h = refl
  account_none j (r ∷ rs) c h = rw (h.0) (account_none j rs c h.1)

  -- What a batch leaves of a buffer that was settled.
  unfoldable pub Shows : S → C → Type 0
  Shows s c = IsSettled b target s × (b.shown s ≡ c)

  conclude :
      (j : ℕ) (rs : List R) (s s1 s' : S)
      → IsSettled b target s
      → Booked (account_all b target j rs (b.pending s)) s s1
      → Flushed j rs s1 s'
      → Shows s' (account_all b target j rs (b.shown s))
  unfolding Booked Shows
  conclude j rs s s1 s' h k (flushed x p q) =
      ((x, p ∙ sym q), q ∙ k.1 ∙ ap (account_all b target j rs) h.1)
  conclude j rs s s1 s' h k (untouched e n) =
      let idle = account_none j rs (b.shown s) n in
      let p : b.pending s' ≡ b.shown s =
        ap b.pending e ∙ k.1 ∙ ap (account_all b target j rs) h.1 ∙ idle in
      let q : b.shown s' ≡ b.shown s = ap b.shown e ∙ k.2 in
      ((subst b.IsSynced (sym e) k.0, p ∙ sym q), q ∙ sym idle)

  pub batch-Shows :
      (rs : List R) (states : ℕ → S) (j : ℕ)
      → IsSettled b target (states j)
      → Shows
          (flush_touched b target rs [] (receive_all b target rs states) j)
          (account_all b target j rs (b.shown (states j)))
  unfolding Booked Fresh
  batch-Shows rs states j h =
      let x = receive_all-Booked rs states j h.0 in
      conclude j rs (states j) _ _ h x (
        flush_touched-Flushed rs [] (receive_all b target rs states) j x.0
          (λ m. absurd (ground arith)))
