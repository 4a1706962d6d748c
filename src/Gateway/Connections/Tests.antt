-- ===== src/Gateway/Connections/Tests.antt =====
-- A router with one engine connected, and the theorems at three notices.
use naoto_exchange.Common.{◌+◌, ◌≤◌, List, [], ◌∷◌, All, ◌≡◌, refl, arith, some, pos}
use naoto_exchange.VersionedFd.{pack, fd_of, unsigned_32, signed_32}
use naoto_exchange.Gateway.Connections.{
  minus_one, Connections, engine_put, sent, interrupted, failed, send_handshake, account_put,
  account_delete, Notice, me_response, account_service_response, on_notices, start_connections,
}
use naoto_exchange.Gateway.Connections.Sockets.{hit, count, slots, hit_none}
use naoto_exchange.Gateway.Connections.Opens.{FoundFits, AccountFound, start_connections_open}
use naoto_exchange.Gateway.Connections.Tracks.{
  lost, EngineFits, AccountFits, NoticeFits, Tracks, on_notices_sockets,
}

abbrev router : Connections
unfolding pack unsigned_32
router = record {
  engines = pack (pos 5) 1 ∷ pack minus_one 0 ∷ [];
  account = pack minus_one 0;
  sockets = pos 5 ∷ [];
}

-- The second engine comes, the first is replaced, an account service answers in two pieces, and another
-- refuses the handshake.
abbrev notices : List Notice
notices =
    me_response (engine_put 1 (pos 6) ∷ engine_put 0 (pos 7) ∷ [])
    ∷ account_service_response (account_put (pos 8) (sent 1 ∷ interrupted ∷ sent 1 ∷ []) ∷ [])
    ∷ account_service_response (account_put (pos 9) (failed ∷ []) ∷ account_delete ∷ [])
    ∷ []

router-Tracks : Tracks (λ g. 0) router
unfolding Tracks count slots fd_of signed_32 router
router-Tracks g n = omega (arith, hit_none g n)

notices_fit : All (NoticeFits 2) notices
unfolding NoticeFits EngineFits AccountFits
notices_fit = (
  ((omega arith, (omega arith, omega arith)), ((omega arith, (omega arith, omega arith)), tt)),
  (((omega arith, omega arith), tt), (((omega arith, omega arith), (omega arith, tt)), tt)),
)

on_notices_sockets_example :
    (d : Connections) × (on_notices 2 notices router ≡ some d)
    × (count (pos 9) d.sockets
        ≡ (slots (pos 9) d.engines + hit (fd_of d.account) (pos 9)) + (0 + lost 2 (pos 9) notices))
unfolding router
on_notices_sockets_example =
    on_notices_sockets 2 (λ g. 0) notices router (pos 9) notices_fit router-Tracks refl

lost_one : lost 2 (pos 9) notices ≡ 1
unfolding lost send_handshake hit
lost_one = refl

start_connections_open_example :
    (d : Connections) × (start_connections 2
        ((0, pos 5) ∷ (1, minus_one) ∷ [])
        ((pos 8, sent 2 ∷ []) ∷ [])
        notices
        2
      ≡ some d)
    × (slots (pos 8) d.engines + hit (fd_of d.account) (pos 8) ≤ count (pos 8) d.sockets)
unfolding FoundFits AccountFound
start_connections_open_example =
    start_connections_open 2 2 ((0, pos 5) ∷ (1, minus_one) ∷ []) ((pos 8, sent 2 ∷ []) ∷ [])
      notices (pos 8)
      ((omega arith, (omega arith, omega arith)), ((omega arith, (omega arith, omega arith)), tt))
      ((omega arith, omega arith), tt) notices_fit refl
