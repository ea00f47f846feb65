-- ===== src/AltServers/Health.antt =====
-- How a server's failures and round-trip times are kept, and the check that may switch an uplink to a
-- better server: src/server/altservers.c from `altservers_updateRtt` on. What the network answers to a
-- test is a parameter.
use dnbd.Base.{
  ℕ, ◌+◌, ◌*◌, ◌/◌, ◌%◌, ◌^◌, Bool, true, ◌&&◌, ◌||◌, not, Option, none, some, List, [], ◌∷◌, ltb,
  leb, ◌==◌, if◌then◌else◌, length, get_or, set, replicate,
}
use dnbd.Timing.Defs.{Ticks, diff}
use dnbd.AltServers.Defs.{
  AltServer, AltLocal, no_server, no_local, server_global_dup_time, server_bad_uplink_max,
  server_rtt_probes,
}

-- `altservers_serverFailed`, of one entry.
unfoldable pub server_failed : Ticks → AltServer → AltServer
server_failed now s =
    if ltb server_global_dup_time (diff s.last_fail now)
    then record s {
      last_fail = now;
      fails = s.fails + 1;
      blocked = if leb server_bad_uplink_max s.fails then true else s.blocked;
    }
    else s

-- `altservers_imageFailed`
unfoldable pub image_failed : AltLocal → AltLocal
image_failed l = record l {
  fails = l.fails + 1;
  blocked = if leb server_bad_uplink_max l.fails then true else l.blocked;
}

abbrev pub sum : List ℕ → ℕ
sum [] = 0
sum (x ∷ xs) = x + sum xs

-- `altservers_updateRtt`, of the uplink's entry: the average and the new entry. The sum has 32 bits.
unfoldable pub update_local : ℕ → AltLocal → ℕ × AltLocal
update_local rtt l =
    if l.init_done
    then (let probes = set l.rtt ((l.rtt_index + 1) % server_rtt_probes) rtt in
        (
          sum probes % 2 ^ 32 / server_rtt_probes,
          record l { rtt_index = l.rtt_index + 1; rtt = probes },
        ))
    else (rtt, record l { rtt = replicate server_rtt_probes rtt; init_done = true })

-- The average goes into the history of the global entry.
unfoldable pub update_global : ℕ → AltServer → AltServer
update_global avg s = record s {
  rtt_index = s.rtt_index + 1;
  rtt = set s.rtt ((s.rtt_index + 1) % server_rtt_probes) avg;
}

-- What testing a server comes to: no connection; the image is refused or the transfer breaks off; the
-- server is too old or its reply makes no sense; the time in µs that the first block took. All but the
-- first name the socket.
pub data Outcome : Type 0 where
  unreachable : Outcome
  image_refused broken : ℕ → Outcome
  measured : (sock rtt version : ℕ) → Outcome

-- `RTT_UNREACHABLE`
abbrev pub rtt_unreachable : ℕ
rtt_unreachable = 0x7ffffff

-- `best`, with `bestRtt`.
pub record Best : Type 0 where
  pub sock : ℕ
  pub rtt : ℕ
  pub index : ℕ
  pub version : ℕ

-- The variables of the test loop, and the sockets that it closed.
pub record Check : Type 0 where
  pub servers : List AltServer
  pub locals : List AltLocal
  pub best : Option Best
  pub current_rtt : ℕ
  pub closed : List ℕ

-- What the loop reads of the uplink.
pub record Setup : Type 0 where
  pub now : Ticks
  pub panic : Bool
  pub cycle_detected : Bool
  pub current : ℕ

unfoldable pub fail_server : Setup → ℕ → Check → Check
unfolding server_failed
fail_server u i k = record k {
  servers = set k.servers i (server_failed u.now (get_or k.servers i no_server));
}

unfoldable pub fail_image : ℕ → Check → Check
unfolding image_failed
fail_image i k = record k { locals = set k.locals i (image_failed (get_or k.locals i no_local)) }

abbrev pub close : ℕ → Check → Check
close sock k = record k { closed = sock ∷ k.closed }

unfoldable pub best_rtt : Option Best → ℕ
best_rtt none = rtt_unreachable
best_rtt (some b) = b.rtt

unfoldable pub close_best : Option Best → Check → Check
close_best none k = k
close_best (some b) k = close b.sock k

-- A measured server takes part in the comparison.
unfoldable pub compare_best : Setup → ℕ → ℕ → ℕ → ℕ → Check → Check
unfolding best_rtt close_best
compare_best u i sock avg version k =
    if not u.panic && (u.current == i)
    then close sock (record k { current_rtt = avg })
    else if ltb avg (best_rtt k.best)
    then record (close_best k.best k) {
      best = some (record { sock = sock; rtt = avg; index = i; version = version });
    }
    else close sock k

-- Once, a server that lost the connection or closes a cycle counts as slower than it is.
unfoldable pub penalize : Setup → ℕ → ℕ → ℕ
penalize u i avg =
    if (u.cycle_detected || u.panic) && (u.current == i) then (avg * 2 + 50000) % 2 ^ 32 else avg

unfoldable pub record_rtt : ℕ → ℕ → Check → ℕ × Check
unfolding update_local update_global
record_rtt i rtt k =
    let l = update_local rtt (get_or k.locals i no_local) in
    (
      l.0,
      record k {
        locals = set k.locals i l.1;
        servers = set k.servers i (update_global l.0 (get_or k.servers i no_server));
      },
    )

-- The body of the loop.
unfoldable pub test_one : Setup → ℕ → Outcome → Check → Check
unfolding fail_server fail_image compare_best penalize record_rtt
test_one u i unreachable k = fail_server u i k
test_one u i (image_refused sock) k = close sock (fail_image i k)
test_one u i (broken sock) k = close sock (fail_server u i k)
test_one u i (measured sock rtt version) k =
    let r = record_rtt i rtt k in compare_best u i sock (penalize u i r.0) version r.1

unfoldable pub test_all : Setup → List (ℕ × Outcome) → Check → Check
unfolding test_one
test_all u [] k = k
test_all u ((i, o) ∷ rest) k = test_all u rest (test_one u i o k)

-- `rttTestResult`, with the connection to change to.
pub data Verdict : Type 0 where
  change : Best → Verdict
  dont_change not_reachable : Verdict

-- Is the best server good enough to switch to it?
unfoldable pub is_better : Setup → Best → ℕ → Bool
is_better u b current_rtt = u.panic || (ltb b.rtt 10000000 && ltb b.rtt (current_rtt * 2 / 3))

unfoldable pub decide : Setup → Option Best → Check → Verdict × Check
unfolding is_better
decide u none k = (if k.current_rtt == rtt_unreachable then not_reachable else dont_change, k)
decide u (some b) k =
    if is_better u b k.current_rtt then (change b, k) else (dont_change, close b.sock k)

-- `altservers_findUplinkInternal`, over the servers of `altservers_getListForUplink` with what each test
-- comes to. With one server only there is nothing to compare.
unfoldable pub find_uplink :
    Setup → List (ℕ × Outcome) → List AltServer → List AltLocal → Verdict × Check
unfolding test_all decide
find_uplink u tests servers locals =
    let start : Check = record {
      servers = servers;
      locals = locals;
      best = none;
      current_rtt = rtt_unreachable;
      closed = [];
    } in
    if (length tests == 0) || ((length tests == 1) && not u.panic)
    then (dont_change, start)
    else (let k = test_all u tests start in decide u k.best k)
