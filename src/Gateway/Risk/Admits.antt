-- ===== src/Gateway/Risk/Admits.antt =====
-- What `CheckOrderRisk` admits.
use naoto_exchange.Common.{
  update, subst, ℕ, Option, none, some, ◌==◌, if◌then◌else◌, ℤ, ◌+ℤ◌, ◌-ℤ◌, ◌≤ℤ◌, ltb_ℤ, ◌≡◌, ◌≢◌,
  ◌⊎◌, inl, inr, refl, arith, true, false, -ℤ_parts, +ℤ_parts, Bool-cases, Option-cases,
}
use naoto_exchange.Wire.{Order}
use naoto_exchange.Gateway.Client.{ClientState, get_asset_idx}
use naoto_exchange.Gateway.Risk.{
  OrderConfirmationStatus, Local, accepted, insufficient_funds, order_asset, locked_amount,
  sync_session, check_funds, check_client, check_order_risk,
}

-- The conditions under which an order is admitted.
pub record Admits (c : ClientState) (l : Local) (o : Order) (auth : ℕ) : Type 0 where
  pub authenticated : auth ≢ 0
  pub own : c.client_id ≡ o.client_id
  pub index : ℕ
  pub position : get_asset_idx c (order_asset o) ≡ some index
  pub funded :
      (c.attempt index +ℤ (sync_session c l).attempts index +ℤ locked_amount o) ≤ℤ c.confirmed index

-- The test of the code, and what it says.
exceeds-true : (cf att amount : ℤ) → ltb_ℤ (cf -ℤ att) amount ≡ true → ¬ ((att +ℤ amount) ≤ℤ cf)
exceeds-true cf att amount h k = ground (arith, -ℤ_parts cf att, +ℤ_parts att amount)

exceeds-false : (cf att amount : ℤ) → ltb_ℤ (cf -ℤ att) amount ≡ false → (att +ℤ amount) ≤ℤ cf
exceeds-false cf att amount h = ground (arith, -ℤ_parts cf att, +ℤ_parts att amount)

-- The two ends of the check of the funds.
abbrev pub Funded : ClientState → Order → ℕ → Local → Type 0
Funded c o i l = (c.attempt i +ℤ l.attempts i +ℤ locked_amount o) ≤ℤ c.confirmed i

abbrev pub charge : Order → ℕ → Local → Local
charge o i l = record l { attempts = update i (l.attempts i +ℤ locked_amount o) l.attempts }

check_funds_cases :
    (c : ClientState) (o : Order) (i : ℕ) (l : Local)
    → Funded c o i l × (check_funds c o i l ≡ (accepted, charge o i l))
      ⊎ ¬ Funded c o i l × (check_funds c o i l ≡ (insufficient_funds, l))
unfolding check_funds
check_funds_cases c o i l =
    let att = c.attempt i +ℤ l.attempts i in
    elim (Bool-cases (ltb_ℤ (c.confirmed i -ℤ att) (locked_amount o))) [
      | inl h ↦ inr (exceeds-true (c.confirmed i) att (locked_amount o) h, rw (h, check_funds) refl)
      | inr h ↦
          inl (exceeds-false (c.confirmed i) att (locked_amount o) h, rw (h, check_funds) refl)
    ]

-- What a check comes to. Only an admitted order is charged; a refused one leaves the attempts as
-- they are, but for those of an older session.
pub record Refused (c : ClientState) (l : Local) (o : Order) (auth : ℕ)
    (r : OrderConfirmationStatus × Local) : Type 0 where
  pub status : r.0 ≢ accepted
  pub not_admitted : ¬ (Admits c l o auth)
  pub kept : r.1 ≡ (if auth == 0 then l else sync_session c l)

abbrev pub Checked : ClientState → Local → Order → ℕ → OrderConfirmationStatus × Local → Type 0
Checked c l o auth r =
    ((a : Admits c l o auth) × (r ≡ (accepted, charge o a.index (sync_session c l))))
    ⊎ Refused c l o auth r

same_index : (o : Option ℕ) (i j : ℕ) → o ≡ some i → o ≡ some j → j ≡ i
same_index o i j h k = cc

no_index : (o : Option ℕ) (i : ℕ) → o ≡ none → ¬ (o ≡ some i)
no_index o i h k = cc

kept_session : (auth : ℕ) (l l' : Local) → auth ≢ 0 → l' ≡ (if auth == 0 then l else l')
kept_session auth l l' h = ground arith

check_found :
    (c : ClientState) (l : Local) (o : Order) (auth i : ℕ)
    → auth ≢ 0
    → c.client_id ≡ o.client_id
    → get_asset_idx c (order_asset o) ≡ some i
    → Checked c l o auth (check_funds c o i (sync_session c l))
check_found c l o auth i ha hc hi = elim (check_funds_cases c o i (sync_session c l)) [
  | inl (h, e) ↦
      inl (record { authenticated = ha; own = hc; index = i; position = hi; funded = h }, e)
  | inr (h, e) ↦ rw e (
      inr (record {
        status = ground arith;
        not_admitted = λ a. h (
            subst (λ j. Funded c o j (sync_session c l)) (same_index _ i a.index hi a.position)
              a.funded);
        kept = kept_session auth l (sync_session c l) ha;
      }))
]

refuse :
    (c : ClientState) (l : Local) (o : Order) (auth : ℕ) (s : OrderConfirmationStatus)
    → auth ≢ 0
    → s ≢ accepted
    → ¬ (Admits c l o auth)
    → Checked c l o auth (s, sync_session c l)
refuse c l o auth s ha hs hn =
    inr
      (record { status = hs; not_admitted = hn; kept = kept_session auth l (sync_session c l) ha })

check_own :
    (c : ClientState) (l : Local) (o : Order) (auth : ℕ)
    → auth ≢ 0
    → Checked c l o auth (check_client c o (sync_session c l))
unfolding check_client
check_own c l o auth ha = elim (Bool-cases (c.client_id == o.client_id)) [
  | inr k ↦
      rw (k, check_client)
        (refuse c l o auth OrderConfirmationStatus.bad_client_id ha (ground arith)
          (λ a. ground arith))
  | inl k ↦ elim (Option-cases (get_asset_idx c (order_asset o))) [
    | inl n ↦
        rw (k, check_client, n)
          (refuse c l o auth _ ha (ground arith) (λ a. no_index _ a.index n a.position))
    | inr (i, s) ↦ rw (k, check_client, s) (check_found c l o auth i ha (ground arith) s)
  ]
]

-- An order is accepted exactly under the conditions of `Admits`, with what it locks charged to its
-- position; any other order is refused and charged nothing.
pub check_order_risk_admits :
    (c : ClientState) (l : Local) (o : Order) (auth : ℕ)
    → Checked c l o auth (check_order_risk c l o auth)
unfolding check_order_risk
check_order_risk_admits c l o auth = elim (Bool-cases (auth == 0)) [
  | inl k ↦
      rw (k, check_order_risk)
        (inr (record {
          status = ground arith;
          not_admitted = λ a. a.authenticated (ground arith);
          kept = rw k refl;
        }))
  | inr k ↦ rw (k, check_order_risk) (check_own c l o auth (ground arith))
]
