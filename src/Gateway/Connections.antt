-- ===== src/Gateway/Connections.antt =====
-- market_server/order_gateway/include/order_router.hpp: the router's connections to the engines and to the
-- account service, as the watchers of etcd announce them, in the build over sockets.
pub mod Sockets
pub mod Tracks
pub mod Opens
mod Tests
use naoto_exchange.Common.{
  ℕ, zero, suc, not, ◌==◌, ◌+◌, List, [], ◌∷◌, Bool, true, false, Option, none, some, ltb,
  if◌then◌else◌, length, get_or, set, ℤ, negsuc, eqb_ℤ,
}
use naoto_exchange.VersionedFd.{fd_of, switch_fd, new_versioned_fd}

abbrev pub minus_one : ℤ
minus_one = negsuc 0

-- `MatchingEngines` and `AccountFd`, as their words, and the sockets that were opened and not closed.
pub record Connections : Type 0 where
  pub engines : List ℕ
  pub account : ℕ
  pub sockets : List ℤ

-- `close`
unfoldable pub close_fd : ℤ → List ℤ → List ℤ
close_fd fd [] = []
close_fd fd (s ∷ ss) = let rest = close_fd fd ss in if eqb_ℤ fd s then ss else s ∷ rest

-- What `connectToService` returns is -1 or a socket that it has opened.
abbrev pub connect_to_service : ℤ → List ℤ → List ℤ
connect_to_service fd ss = if eqb_ℤ fd minus_one then ss else fd ∷ ss

unfoldable pub close_old : ℤ → List ℤ → List ℤ
unfolding close_fd
close_old old ss = if eqb_ℤ old minus_one then ss else close_fd old ss

-- The events of etcd, with what `connectToService` returns.
pub data EngineEvent : Type 0 where
  engine_put : ℕ → ℤ → EngineEvent
  engine_delete : ℕ → EngineEvent

-- An engine's slot is switched, and the old socket is closed. None where the number is not one of the array's.
unfoldable pub switch_engine : ℕ → ℤ → Connections → Option Connections
unfolding fd_of switch_fd close_old
switch_engine asset fd c =
    let word = get_or c.engines asset 0 in
    if ltb asset (length c.engines)
    then some (record c {
      engines = set c.engines asset (switch_fd fd word);
      sockets = close_old (fd_of word) c.sockets;
    })
    else none

unfoldable pub on_engine_event : EngineEvent → Connections → Option Connections
unfolding switch_engine
on_engine_event (engine_put asset fd) c =
    switch_engine asset fd (record c { sockets = connect_to_service fd c.sockets })
on_engine_event (engine_delete asset) c = switch_engine asset minus_one c

-- `etcdOnMEResponse`
unfoldable pub on_me_response : List EngineEvent → Connections → Option Connections
unfolding on_engine_event
on_me_response [] c = some c
on_me_response (ev ∷ evs) c = elim (on_engine_event ev c) [
  | none ↦ none
  | some d ↦ on_me_response evs d
]

-- What a call of `send` returns: a number of bytes, or an error, of being interrupted or another.
pub data SendResult : Type 0 where
  sent : ℕ → SendResult
  interrupted : SendResult
  failed : SendResult

-- The loop that sends the handshake of `size` bytes, and whether it sends it all. The calls after those
-- listed fail, and so does one that sends nothing; `interrupted` is an `errno` of `EINTR`, whoever left it.
unfoldable pub send_handshake : ℕ → ℕ → List SendResult → Bool
send_handshake size total [] = not (ltb total size)
send_handshake size total (sent n ∷ rs) =
    let rest = send_handshake size (total + n) rs in
    if ltb total size then (if n == 0 then false else rest) else true
send_handshake size total (interrupted ∷ rs) =
    let rest = send_handshake size total rs in if ltb total size then rest else true
send_handshake size total (failed ∷ rs) = not (ltb total size)

pub data AccountEvent : Type 0 where
  account_put : ℤ → List SendResult → AccountEvent
  account_delete : AccountEvent

abbrev pub switch_account : ℤ → Connections → Connections
switch_account fd c = record c {
  account = switch_fd fd c.account;
  sockets = close_old (fd_of c.account) c.sockets;
}

-- `etcdOnAccountServiceResponse`, with handshakes of `size` bytes: after one that fails, the function returns.
unfoldable pub on_account_service_response : ℕ → List AccountEvent → Connections → Connections
unfolding switch_fd fd_of close_old send_handshake
on_account_service_response size [] c = c
on_account_service_response size (account_put fd rs ∷ evs) c =
    let d = record c { sockets = connect_to_service fd c.sockets } in
    let rest = on_account_service_response size evs (switch_account fd d) in
    if send_handshake size 0 rs then rest else d
on_account_service_response size (account_delete ∷ evs) c =
    on_account_service_response size evs (switch_account minus_one c)

-- A run of the two watchers.
pub data Notice : Type 0 where
  me_response : List EngineEvent → Notice
  account_service_response : List AccountEvent → Notice

unfoldable pub on_notices : ℕ → List Notice → Connections → Option Connections
unfolding on_me_response on_account_service_response
on_notices size [] c = some c
on_notices size (me_response evs ∷ ns) c = elim (on_me_response evs c) [
  | none ↦ none
  | some d ↦ on_notices size ns d
]
on_notices size (account_service_response evs ∷ ns) c =
    on_notices size ns (on_account_service_response size evs c)

-- A router before `EtcdClientSetUp`, with `n` slots for engines.
unfoldable pub new_slots : ℕ → List ℕ
unfolding new_versioned_fd
new_slots zero = []
new_slots (suc n) = new_versioned_fd minus_one ∷ new_slots n

unfoldable pub new_connections : ℕ → Connections
unfolding new_slots new_versioned_fd
new_connections n = record {
  engines = new_slots n;
  account = new_versioned_fd minus_one;
  sockets = [];
}

-- The engines that `ls` lists, each with what `connectToService` returns.
unfoldable pub find_engine : ℕ → ℤ → Connections → Option Connections
unfolding switch_fd
find_engine asset fd c =
    let d = record c { sockets = connect_to_service fd c.sockets } in
    let word = get_or c.engines asset 0 in
    if eqb_ℤ fd minus_one
    then some d
    else if ltb asset (length c.engines)
    then some (record d { engines = set c.engines asset (switch_fd fd word) })
    else none

unfoldable pub find_engines : List (ℕ × ℤ) → Connections → Option Connections
unfolding find_engine
find_engines [] c = some c
find_engines (kv ∷ kvs) c = elim (find_engine kv.0 kv.1 c) [
  | none ↦ none
  | some d ↦ find_engines kvs d
]

unfoldable pub find_account : ℤ → Connections → Connections
unfolding switch_fd
find_account fd c = if eqb_ℤ fd minus_one then c else record c { account = switch_fd fd c.account }

-- The account services that `ls` lists, and whether the function goes on behind them.
unfoldable pub find_accounts : ℕ → List (ℤ × List SendResult) → Connections → Bool × Connections
unfolding find_account send_handshake
find_accounts size [] c = (true, c)
find_accounts size (kv ∷ kvs) c =
    let d = record c { sockets = connect_to_service kv.0 c.sockets } in
    let rest = find_accounts size kvs (find_account kv.0 d) in
    if send_handshake size 0 kv.1 then rest else (false, d)

-- `EtcdClientSetUp`, and whether it creates the watchers.
unfoldable pub etcd_client_set_up :
    ℕ → List (ℕ × ℤ) → List (ℤ × List SendResult) → Connections → Option (Bool × Connections)
unfolding find_engines find_accounts
etcd_client_set_up size engines accounts c = elim (find_engines engines c) [
  | none ↦ none
  | some d ↦ some (find_accounts size accounts d)
]

-- The notices that the watchers get, if they are there.
unfoldable pub watch : ℕ → List Notice → Bool × Connections → Option Connections
unfolding on_notices
watch size ns (true, c) = on_notices size ns c
watch size ns (false, c) = some c

-- The router's connections, from before `EtcdClientSetUp` to the last of its notices.
unfoldable pub start_connections :
    ℕ → List (ℕ × ℤ) → List (ℤ × List SendResult) → List Notice → ℕ → Option Connections
unfolding etcd_client_set_up watch new_connections
start_connections size engines accounts ns n =
    elim (etcd_client_set_up size engines accounts (new_connections n)) [
      | none ↦ none
      | some r ↦ watch size ns r
    ]
