-- ===== src/Gateway/Connections/Opens.antt =====
-- What a slot names is open, from the start of the router on.
use naoto_exchange.Common.{
  ℕ, zero, suc, ◌+◌, ◌-◌, ◌<◌, ◌≤◌, List, [], ◌∷◌, Bool, true, false, some, ◌≡◌, refl, sym, subst,
  ap, ◌∙◌, inl, inr, arith, ltb, if◌then◌else◌, if_true, if_false, length, length-set, get_or, set,
  ℤ, eqb_ℤ, Bool-cases, All,
}
use naoto_exchange.VersionedFd.{fd_of, switch_fd, new_versioned_fd, pack, unsigned_32, signed_32}
use naoto_exchange.VersionedFd.Switches.{switch_fd_lem}
use naoto_exchange.Gateway.Connections.{
  minus_one, Connections, connect_to_service, SendResult, send_handshake, Notice, new_slots,
  new_connections, find_engine, find_engines, find_account, find_accounts, watch,
  etcd_client_set_up, start_connections,
}
use naoto_exchange.Gateway.Connections.Sockets.{hit, count, slots, slots-set, hit-connect, hit_none}
use naoto_exchange.Gateway.Connections.Tracks.{
  IsInt32, NoticeFits, Tracks, below, on_notices-Tracks,
}

-- Every descriptor but -1 is open at least as often as the slots hold it.
unfoldable pub Opens : Connections → Type 0
unfolding hit fd_of count slots
Opens c =
    (g : ℤ)
    → eqb_ℤ g minus_one ≡ false
    → slots g c.engines + hit (fd_of c.account) g ≤ count g c.sockets

unfoldable pub FoundFits : ℕ → (ℕ × ℤ) → Type 0
unfolding IsInt32
FoundFits n kv = (kv.0 < n) × IsInt32 kv.1

unfoldable pub AccountFound : (ℤ × List SendResult) → Type 0
unfolding IsInt32
AccountFound kv = IsInt32 kv.0

slots-new_slots : (n : ℕ) (g : ℤ) → eqb_ℤ g minus_one ≡ false → slots g (new_slots n) ≡ 0
unfolding slots new_slots new_versioned_fd pack unsigned_32 fd_of signed_32
slots-new_slots zero g h = refl
slots-new_slots (suc n) g h = omega (arith, slots-new_slots n g h, hit_none g h)

new_connections-Opens : (n : ℕ) → Opens (new_connections n)
unfolding Opens new_connections count new_versioned_fd pack unsigned_32 fd_of signed_32
new_connections-Opens n g h = omega (arith, slots-new_slots n g h, hit_none g h)

find_engine-Opens :
    (asset : ℕ) (fd : ℤ) (c : Connections)
    → FoundFits (length c.engines) (asset, fd)
    → Opens c
    → (d : Connections) × (find_engine asset fd c ≡ some d)
      × (length d.engines ≡ length c.engines)
      × Opens d
unfolding find_engine FoundFits Opens IsInt32
find_engine-Opens asset fd c f t =
    let d = record c { sockets = connect_to_service fd c.sockets } in
    let word = get_or c.engines asset 0 in
    let new = switch_fd fd word in
    let now : (g : ℤ) → hit (fd_of new) g ≡ hit fd g =
      λ g. ap (λ a. hit a g) ((switch_fd_lem fd word f.1.0 f.1.1).0) in
    elim (Bool-cases (eqb_ℤ fd minus_one)) [
      | inl y ↦ (
        d,
        if_true (eqb_ℤ fd minus_one) _ _ y,
        refl,
        λ g n. omega (arith, t g n, hit-connect fd g c.sockets n),
      )
      | inr y ↦ (
        record d { engines = set c.engines asset new },
        if_false (eqb_ℤ fd minus_one) _ _ y
            ∙ if_true (ltb asset (length c.engines)) _ _ (below asset (length c.engines) f.0),
        length-set c.engines asset new,
        λ g n. omega (
          arith,
          t g n,
          hit-connect fd g c.sockets n,
          slots-set g c.engines asset new f.0,
          now g,
        ),
      )
    ]

find_engines-Opens :
    (kvs : List (ℕ × ℤ)) (c : Connections)
    → All (FoundFits (length c.engines)) kvs
    → Opens c
    → (d : Connections) × (find_engines kvs c ≡ some d)
      × (length d.engines ≡ length c.engines)
      × Opens d
unfolding find_engines
find_engines-Opens [] c a t = (c, refl, refl, t)
find_engines-Opens (kv ∷ kvs) c a t =
    let (d, e, l, u) = find_engine-Opens kv.0 kv.1 c a.0 t in
    let (d', e', l', u') =
      find_engines-Opens kvs d (subst (λ n. All (FoundFits n) kvs) (sym l) a.1) u in
    (d', rw (find_engines, e) e', l' ∙ l, u')

connected-Opens :
    (fd : ℤ) (c : Connections)
    → Opens c
    → Opens (record c { sockets = connect_to_service fd c.sockets })
unfolding Opens
connected-Opens fd c t g n = omega (arith, t g n, hit-connect fd g c.sockets n)

either-Opens :
    (b : Bool) (n : ℕ) (d e : Connections)
    → (length d.engines ≡ n) × Opens d
    → (length e.engines ≡ n) × Opens e
    → (length (if b then d else e).engines ≡ n) × Opens (if b then d else e)
either-Opens true n d e p q = p
either-Opens false n d e p q = q

find_account-Opens :
    (fd : ℤ) (c : Connections)
    → IsInt32 fd
    → Opens c
    → (length (find_account fd (record c { sockets = connect_to_service fd c.sockets })).engines
        ≡ length c.engines)
      × Opens (find_account fd (record c { sockets = connect_to_service fd c.sockets }))
unfolding find_account IsInt32 Opens
find_account-Opens fd c i t =
    let d = record c { sockets = connect_to_service fd c.sockets } in
    let now : (g : ℤ) → hit (fd_of (switch_fd fd c.account)) g ≡ hit fd g =
      λ g. ap (λ a. hit a g) ((switch_fd_lem fd c.account i.0 i.1).0) in
    either-Opens (eqb_ℤ fd minus_one) (length c.engines) d
      (record d { account = switch_fd fd c.account }) (refl, connected-Opens fd c t)
      (refl, λ g n. omega (arith, t g n, hit-connect fd g c.sockets n, now g))

length-new_slots : (n : ℕ) → length (new_slots n) ≡ n
unfolding new_slots
length-new_slots zero = refl
length-new_slots (suc n) = ap suc (length-new_slots n)

afterwards :
    (size : ℕ) (ns : List Notice) (r : Bool × Connections)
    → All (NoticeFits (length r.1.engines)) ns
    → Opens r.1
    → (d : Connections) × (watch size ns r ≡ some d) × Opens d
unfolding watch Opens Tracks
afterwards size ns (true, c) a t =
    let extra : ℤ → ℕ = λ g. count g c.sockets - (slots g c.engines + hit (fd_of c.account) g) in
    let (d, e, u) = on_notices-Tracks size extra ns c a (λ g n. omega (arith, t g n)) in
    (d, e, λ g n. omega (arith, u g n))
afterwards size ns (false, c) a t = (c, refl, t)

find_accounts-Opens :
    (size : ℕ) (kvs : List (ℤ × List SendResult)) (c : Connections)
    → All AccountFound kvs
    → Opens c
    → (length (find_accounts size kvs c).1.engines ≡ length c.engines)
      × Opens ((find_accounts size kvs c).1)
unfolding find_accounts AccountFound
find_accounts-Opens size [] c a t = (refl, t)
find_accounts-Opens size (kv ∷ kvs) c a t =
    let d = record c { sockets = connect_to_service kv.0 c.sockets } in
    let kept = find_account-Opens kv.0 c a.0 t in
    let (l, u) = find_accounts-Opens size kvs (find_account kv.0 d) a.1 kept.1 in
    elim (Bool-cases (send_handshake size 0 kv.1)) [
      | inl y ↦ rw y (l ∙ kept.0, u)
      | inr y ↦ rw y (refl, connected-Opens kv.0 c t)
    ]

-- Whatever engines of the array and account services are found, and whatever the watchers are told then,
-- the connections are defined, and every descriptor but -1 that slots hold is open at least as often.
pub start_connections_open :
    (size n : ℕ) (engines : List (ℕ × ℤ)) (accounts : List (ℤ × List SendResult)) (ns : List Notice)
    (g : ℤ)
    → All (FoundFits n) engines
    → All AccountFound accounts
    → All (NoticeFits n) ns
    → eqb_ℤ g minus_one ≡ false
    → (d : Connections) × (start_connections size engines accounts ns n ≡ some d)
      × (slots g d.engines + hit (fd_of d.account) g ≤ count g d.sockets)
unfolding start_connections etcd_client_set_up Opens watch
start_connections_open size n engines accounts ns g a b t h =
    let c = new_connections n in
    let len = length-new_slots n in
    let (d, e, l, u) =
      find_engines-Opens engines c (subst (λ n. All (FoundFits n) engines) (sym len) a)
        (new_connections-Opens n) in
    let (l', u') = find_accounts-Opens size accounts d b u in
    let fits = subst (λ n. All (NoticeFits n) ns) (sym (l' ∙ l ∙ len)) t in
    let (r, e', w) = afterwards size ns (find_accounts size accounts d) fits u' in
    (r, rw (start_connections, etcd_client_set_up, e) e', w g h)
