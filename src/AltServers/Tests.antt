-- ===== src/AltServers/Tests.antt =====
-- Concrete runs.
use dnbd.Base.{
  ℕ, suc, ◌+◌, ◌*◌, ◌≤◌, ◌≡◌, ◌≢◌, refl, Bool, true, false, none, some, List, [], ◌∷◌, length, map,
  min, replicate, arith,
}
use dnbd.Timing.Defs.{Ticks, diff}
use dnbd.AltServers.Defs.{
  Host, AltServer, AltLocal, no_server, no_local, server_rtt_probes, net_closeness, add,
}
use dnbd.AltServers.Lists.{Pool, score, list_for_client, pass_local, pass_global}
use dnbd.AltServers.Uplinks.{Query}
use dnbd.AltServers.Health.{
  Outcome, unreachable, measured, Setup, server_failed, image_failed, update_local, find_uplink,
}
use dnbd.AltServers.Ranking.{Ranking, ScoreIsRight, list_for_client-Ranking}
use dnbd.AltServers.Closeness.{Close, net_closeness_iff}
use dnbd.AltServers.Added.{AddIsRight, add_lem}
use dnbd.AltServers.Counters.{
  asked_local, asked_global, pass_local-ends, pass_global-ends, ServerIsValid, LocalIsValid,
  counters-IsValid, Within, update_local_bounds,
}
use dnbd.AltServers.Sockets.{handed_over}

abbrev host_at : ℕ → Host
host_at x = record { addr = 10 ∷ 0 ∷ 0 ∷ x ∷ replicate 12 0; port = 5003; kind = 2 }

abbrev server_at : ℕ → Bool → List (List ℕ) → AltServer
server_at x private names = record no_server {
  host = host_at x;
  is_private = private;
  name_spaces = names;
}

abbrev three_servers : List AltServer
three_servers =
    server_at 1 false [] ∷ server_at 33 false ((97 ∷ []) ∷ []) ∷ server_at 2 true [] ∷ []

abbrev name_ab : List ℕ
name_ab = 97 ∷ 98 ∷ []

list_for_client-Ranking_example :
    Ranking
      (map (score (host_at 35) name_ab) three_servers)
      (min 2 3)
      (list_for_client (host_at 35) name_ab 2 three_servers)
    × ScoreIsRight (host_at 35) name_ab
list_for_client-Ranking_example =
    list_for_client-Ranking (host_at 35) name_ab 2 three_servers (omega arith)

net_closeness_iff_example :
    ((host_at 1).kind ≡ (host_at 33).kind → Close (host_at 1) (host_at 33))
    × ((host_at 1).kind ≢ (host_at 33).kind → net_closeness (host_at 1) (host_at 33) ≡ none)
net_closeness_iff_example = net_closeness_iff (host_at 1) (host_at 33) refl refl

add_lem_example :
    let r = add (host_at 7) true false three_servers in
    AddIsRight (host_at 7) three_servers r.index r
add_lem_example = add_lem (host_at 7) true false three_servers (omega arith)

abbrev weak_local : AltLocal
weak_local = record no_local { fails = 20; blocked = true }

abbrev weak_server : AltServer
weak_server = record no_server { fails = 20; blocked = true }

pass_local-ends_example :
    let r = pass_local (asked_local 19 weak_local) in
    (r.0 ≡ true) × (r.1.blocked ≡ false) × (r.1.fails ≡ 0)
pass_local-ends_example = pass_local-ends weak_local 19 refl (omega arith)

abbrev each_minute : ℕ → Ticks
each_minute n = record { sec = 60 * n + 60; nsec = 0 }

each_minute-later : (n : ℕ) → 6 ≤ diff (each_minute n) (each_minute (suc n))
unfolding diff
each_minute-later n = ground arith

minute_is_late : 6 ≤ diff weak_server.last_fail (each_minute 0)
unfolding diff
minute_is_late = omega arith

pass_global-ends_example :
    let r = pass_global (each_minute 19) (asked_global each_minute 19 weak_server) in
    (r.0 ≡ true) × (r.1.blocked ≡ false) × (r.1.fails ≡ 0)
pass_global-ends_example =
    pass_global-ends each_minute weak_server 19 (minute_is_late, λ n. each_minute-later n) refl
      (omega arith)

counters-IsValid_example :
    (ServerIsValid (server_failed (each_minute 0) weak_server)
      × LocalIsValid (image_failed weak_local))
    × (ServerIsValid (pass_global (each_minute 0) weak_server).1
        × LocalIsValid (pass_local weak_local).1)
counters-IsValid_example =
    counters-IsValid (each_minute 0) weak_server weak_local (λ e. omega arith) (λ e. omega arith)

abbrev measured_local : AltLocal
measured_local = record no_local { rtt = replicate server_rtt_probes 300; init_done = true }

update_local_bounds_example :
    let r = update_local 500 measured_local in
    ((300 ≤ r.0) × (r.0 ≤ 500))
    × (Within 300 500 r.1.rtt × (length r.1.rtt ≡ server_rtt_probes))
    × (r.1.init_done ≡ true)
    × (true ≡ false → r.0 ≡ 500)
update_local_bounds_example =
    update_local_bounds 300 500 500 measured_local refl (omega arith) (omega arith, omega arith)
      (λ e. (
        (omega arith, omega arith),
        (
          (omega arith, omega arith),
          (
            (omega arith, omega arith),
            ((omega arith, omega arith), ((omega arith, omega arith), tt)),
          ),
        ),
      ))

abbrev pool : Pool
pool = record { servers = three_servers; locals = none; rand = λ n. n; drawn = 0 }

abbrev query : Query
query = record {
  private_only = false;
  image = name_ab;
  size = 2;
  now = each_minute 0;
  current = some 1;
}

abbrev setup : Setup
setup = record { now = each_minute 0; panic = false; cycle_detected = false; current = 1 }

-- The current server takes 3 ms, and server 2 takes 1 ms.
abbrev tests : List (ℕ × Outcome)
tests = (0, unreachable) ∷ (1, measured 7 3000 3) ∷ (2, measured 8 1000 3) ∷ []

abbrev some_locals : List AltLocal
some_locals = replicate 3 no_local

changes_to_8 : handed_over 8 (find_uplink setup tests three_servers some_locals).0 ≡ 1
unfolding find_uplink
changes_to_8 = refl
