-- ===== src/Gateway/Connections/Tracks.antt =====
-- The open sockets after a run of the watchers are those of the slots, but for those whose handshake failed.
use naoto_exchange.Common.{
  ℕ, zero, suc, ◌+◌, ◌-◌, ◌<◌, ◌≤◌, List, [], ◌∷◌, true, false, some, ◌≡◌, refl, sym, subst, ap,
  ◌∙◌, inl, inr, arith, ltb, if◌then◌else◌, if_true, length, length-set, get_or, set, ℤ, pos,
  negsuc, eqb_ℤ, ◌≤ℤ◌, ◌<ℤ◌, Bool-cases, All,
}
use naoto_exchange.VersionedFd.{fd_of, switch_fd}
use naoto_exchange.VersionedFd.Switches.{switch_fd_lem}
use naoto_exchange.Gateway.Connections.{
  minus_one, Connections, connect_to_service, close_old, EngineEvent, engine_put, engine_delete,
  switch_engine, on_engine_event, on_me_response, send_handshake, AccountEvent, account_put,
  account_delete, switch_account, on_account_service_response, Notice, me_response,
  account_service_response, on_notices,
}
use naoto_exchange.Gateway.Connections.Sockets.{hit, count, slots, switched, slots-set, hit-connect}

-- A descriptor is an `int32_t`.
unfoldable pub IsInt32 : ℤ → Type 0
IsInt32 fd = (negsuc 2147483647 ≤ℤ fd) × (fd <ℤ pos 2147483648)

-- An engine's number is one of the array's.
unfoldable pub EngineFits : ℕ → EngineEvent → Type 0
unfolding IsInt32
EngineFits n (engine_put asset fd) = (asset < n) × IsInt32 fd
EngineFits n (engine_delete asset) = asset < n

unfoldable pub AccountFits : AccountEvent → Type 0
unfolding IsInt32
AccountFits (account_put fd rs) = IsInt32 fd
AccountFits account_delete = 0 < 1

unfoldable pub NoticeFits : ℕ → Notice → Type 0
unfolding EngineFits AccountFits
NoticeFits n (me_response evs) = All (EngineFits n) evs
NoticeFits n (account_service_response evs) = All AccountFits evs

-- How often a descriptor is among those whose handshake failed in a run of the account service's watcher.
unfoldable pub account_lost : ℕ → ℤ → List AccountEvent → ℕ
unfolding hit
account_lost size g [] = 0
account_lost size g (account_put fd rs ∷ evs) =
    let rest = account_lost size g evs in if send_handshake size 0 rs then rest else hit fd g
account_lost size g (account_delete ∷ evs) = account_lost size g evs

unfoldable pub lost : ℕ → ℤ → List Notice → ℕ
unfolding account_lost
lost size g [] = 0
lost size g (me_response evs ∷ ns) = lost size g ns
lost size g (account_service_response evs ∷ ns) = account_lost size g evs + lost size g ns

-- Every descriptor but -1 is open as often as the slots hold it, and as `extra` says beside.
unfoldable pub Tracks : (ℤ → ℕ) → Connections → Type 0
unfolding hit fd_of count slots
Tracks extra c =
    (g : ℤ)
    → eqb_ℤ g minus_one ≡ false
    → count g c.sockets ≡ (slots g c.engines + hit (fd_of c.account) g) + extra g

pub below : (a n : ℕ) → a < n → ltb a n ≡ true
below a n h = ground arith

held : (g : ℤ) (ws : List ℕ) (i : ℕ) → i < length ws → hit (fd_of (get_or ws i 0)) g ≤ slots g ws
unfolding slots
held g [] i h = absurd (omega arith)
held g (v ∷ ws) zero h = omega arith
held g (v ∷ ws) (suc i) h = omega (arith, held g ws i (omega arith))

switch_engine-Tracks :
    (extra : ℤ → ℕ) (asset : ℕ) (fd : ℤ) (c : Connections)
    → asset < length c.engines
    → IsInt32 fd
    → Tracks extra c
    → (d : Connections) × (switch_engine asset fd
          (record c { sockets = connect_to_service fd c.sockets })
        ≡ some d)
      × (length d.engines ≡ length c.engines)
      × Tracks extra d
unfolding switch_engine IsInt32 Tracks
switch_engine-Tracks extra asset fd c h i t =
    let word = get_or c.engines asset 0 in
    let new = switch_fd fd word in
    let engines' = set c.engines asset new in
    let now : (g : ℤ) → hit (fd_of new) g ≡ hit fd g =
      λ g. ap (λ a. hit a g) ((switch_fd_lem fd word i.0 i.1).0) in
    let in_slots : (g : ℤ) → hit (fd_of word) g ≤ slots g c.engines =
      λ g. held g c.engines asset h in
    let others : ℤ → ℕ =
      λ g. (slots g c.engines - hit (fd_of word) g + hit (fd_of c.account) g) + extra g in
    let base = record c {
      engines = engines';
      sockets = close_old (fd_of word) (connect_to_service fd c.sockets);
    } in
    (
      base,
      if_true (ltb asset (length c.engines)) _ _ (below asset (length c.engines) h),
      length-set c.engines asset new,
      λ g n. omega (
        arith,
        switched others fd (fd_of word) c.sockets (λ g n. omega (arith, t g n, in_slots g)) g n,
        slots-set g c.engines asset new h,
        now g,
        in_slots g,
      ),
    )

switch_account-Tracks :
    (extra : ℤ → ℕ) (fd : ℤ) (c : Connections)
    → IsInt32 fd
    → Tracks extra c
    → Tracks extra (switch_account fd (record c { sockets = connect_to_service fd c.sockets }))
unfolding IsInt32 Tracks
switch_account-Tracks extra fd c i t g n =
    let others : ℤ → ℕ = λ g. slots g c.engines + extra g in
    let now : hit (fd_of (switch_fd fd c.account)) g ≡ hit fd g =
      ap (λ a. hit a g) ((switch_fd_lem fd c.account i.0 i.1).0) in
    omega
      (arith, switched others fd (fd_of c.account) c.sockets (λ g n. omega (arith, t g n)) g n, now)

minus_one-IsInt32 : IsInt32 minus_one
unfolding IsInt32
minus_one-IsInt32 = (omega arith, omega arith)

on_engine_event-Tracks :
    (extra : ℤ → ℕ) (ev : EngineEvent) (c : Connections)
    → EngineFits (length c.engines) ev
    → Tracks extra c
    → (d : Connections) × (on_engine_event ev c ≡ some d)
      × (length d.engines ≡ length c.engines)
      × Tracks extra d
unfolding on_engine_event EngineFits
on_engine_event-Tracks extra (engine_put asset fd) c f t =
    switch_engine-Tracks extra asset fd c f.0 f.1 t
on_engine_event-Tracks extra (engine_delete asset) c f t =
    switch_engine-Tracks extra asset minus_one c f minus_one-IsInt32 t

on_me_response-Tracks :
    (extra : ℤ → ℕ) (evs : List EngineEvent) (c : Connections)
    → All (EngineFits (length c.engines)) evs
    → Tracks extra c
    → (d : Connections) × (on_me_response evs c ≡ some d)
      × (length d.engines ≡ length c.engines)
      × Tracks extra d
unfolding on_me_response
on_me_response-Tracks extra [] c a t = (c, refl, refl, t)
on_me_response-Tracks extra (ev ∷ evs) c a t =
    let (d, e, l, u) = on_engine_event-Tracks extra ev c a.0 t in
    let (d', e', l', u') =
      on_me_response-Tracks extra evs d (subst (λ n. All (EngineFits n) evs) (sym l) a.1) u in
    (d', rw (on_me_response, e) e', l' ∙ l, u')

on_account_service_response-Tracks :
    (size : ℕ) (extra : ℤ → ℕ) (evs : List AccountEvent) (c : Connections)
    → All AccountFits evs
    → Tracks extra c
    → Tracks (λ g. extra g + account_lost size g evs) (on_account_service_response size evs c)
unfolding on_account_service_response AccountFits account_lost Tracks
on_account_service_response-Tracks size extra [] c a t g n = omega (arith, t g n)
on_account_service_response-Tracks size extra (account_put fd rs ∷ evs) c a t g n =
    let d = record c { sockets = connect_to_service fd c.sockets } in
    let rest =
      on_account_service_response-Tracks size extra evs (switch_account fd d) a.1
        (switch_account-Tracks extra fd c a.0 t) in
    elim (Bool-cases (send_handshake size 0 rs)) [
      | inl y ↦ rw y (rest g n)
      | inr y ↦ rw y (omega (arith, hit-connect fd g c.sockets n, t g n))
    ]
on_account_service_response-Tracks size extra (account_delete ∷ evs) c a t g n =
    on_account_service_response-Tracks size extra evs (switch_account minus_one c) a.1
      (switch_account-Tracks extra minus_one c minus_one-IsInt32 t) g n

length-on_account_service_response :
    (size : ℕ) (evs : List AccountEvent) (c : Connections)
    → length (on_account_service_response size evs c).engines ≡ length c.engines
unfolding on_account_service_response
length-on_account_service_response size [] c = refl
length-on_account_service_response size (account_put fd rs ∷ evs) c =
    elim (Bool-cases (send_handshake size 0 rs)) [
      | inl y ↦ rw y (
          length-on_account_service_response size evs
            (switch_account fd (record c { sockets = connect_to_service fd c.sockets })))
      | inr y ↦ rw y refl
    ]
length-on_account_service_response size (account_delete ∷ evs) c =
    length-on_account_service_response size evs (switch_account minus_one c)

pub on_notices-Tracks :
    (size : ℕ) (extra : ℤ → ℕ) (ns : List Notice) (c : Connections)
    → All (NoticeFits (length c.engines)) ns
    → Tracks extra c
    → (d : Connections) × (on_notices size ns c ≡ some d) × Tracks (λ g. extra g + lost size g ns) d
unfolding on_notices NoticeFits lost Tracks
on_notices-Tracks size extra [] c a t = (c, refl, λ g n. omega (arith, t g n))
on_notices-Tracks size extra (me_response evs ∷ ns) c a t =
    let (d, e, l, u) = on_me_response-Tracks extra evs c a.0 t in
    let (d', e', u') =
      on_notices-Tracks size extra ns d (subst (λ n. All (NoticeFits n) ns) (sym l) a.1) u in
    (d', rw (on_notices, e) e', u')
on_notices-Tracks size extra (account_service_response evs ∷ ns) c a t =
    let now = on_account_service_response size evs c in
    let l = length-on_account_service_response size evs c in
    let more : ℤ → ℕ = λ g. extra g + account_lost size g evs in
    let (d, e, u) =
      on_notices-Tracks size more ns now (subst (λ n. All (NoticeFits n) ns) (sym l) a.1)
        (on_account_service_response-Tracks size extra evs c a.0 t) in
    (d, e, λ g n. omega (arith, u g n))

-- Where the open sockets of a router, -1 aside, are those of its slots and `extra` ones, its watchers take
-- any events about engines of its array and leave it with the sockets of the slots, `extra`, and one for
-- each connection whose handshake failed.
pub on_notices_sockets :
    (size : ℕ) (extra : ℤ → ℕ) (ns : List Notice) (c : Connections) (g : ℤ)
    → All (NoticeFits (length c.engines)) ns
    → Tracks extra c
    → eqb_ℤ g minus_one ≡ false
    → (d : Connections) × (on_notices size ns c ≡ some d)
      × (count g d.sockets
          ≡ (slots g d.engines + hit (fd_of d.account) g) + (extra g + lost size g ns))
unfolding Tracks
on_notices_sockets size extra ns c g a t n =
    let (d, e, u) = on_notices-Tracks size extra ns c a t in (d, e, u g n)
