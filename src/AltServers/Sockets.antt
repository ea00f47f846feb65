-- ===== src/AltServers/Sockets.antt =====
-- The check for a better server leaks no socket, and settles on the fastest server.
use dnbd.Base.{
  ℕ, ◌+◌, ◌*◌, ◌/◌, ◌≤◌, ◌<◌, ◌≡◌, ◌≢◌, false, ◌&&◌, not, Option, none, some, List, [], ◌∷◌, ◌++◌,
  ◌==◌, if◌then◌else◌, All, ◌⊎◌,
}
use dnbd.AltServers.Defs.{AltServer, AltLocal}
use dnbd.AltServers.Health.{
  Outcome, unreachable, image_refused, broken, measured, rtt_unreachable, Best, Check, Setup,
  record_rtt, best_rtt, penalize, test_one, Verdict, change, dont_change, not_reachable,
}

-- How often a socket is in a list, and in an option.
abbrev pub count : ℕ → List ℕ → ℕ
count x [] = 0
count x (y ∷ ys) = (if y == x then 1 else 0) + count x ys

abbrev pub sock_of : Outcome → List ℕ
sock_of unreachable = []
sock_of (image_refused sock) = sock ∷ []
sock_of (broken sock) = sock ∷ []
sock_of (measured sock rtt version) = sock ∷ []

-- The sockets that the tests opened.
abbrev pub opened : List (ℕ × Outcome) → List ℕ
opened [] = []
opened ((i, o) ∷ rest) = sock_of o ++ opened rest

abbrev count_best : ℕ → Option Best → ℕ
count_best x none = 0
count_best x (some b) = if b.sock == x then 1 else 0

-- Sockets that the loop has open or has closed.
abbrev known : ℕ → Check → ℕ
known x k = count x k.closed + count_best x k.best

-- What the servers other than the current one offer, as the loop compares it.
abbrev pub offer_of : Setup → ℕ → Outcome → Check → List ℕ
offer_of u i unreachable k = []
offer_of u i (image_refused sock) k = []
offer_of u i (broken sock) k = []
offer_of u i (measured sock rtt version) k =
    if not u.panic && (u.current == i) then [] else penalize u i (record_rtt i rtt k).0 ∷ []

abbrev pub offers : Setup → List (ℕ × Outcome) → Check → List ℕ
offers u [] k = []
offers u ((i, o) ∷ rest) k = offer_of u i o k ++ offers u rest (test_one u i o k)

-- The best does not get worse, and is as good as what was offered.
abbrev Improves : Check → Check → List ℕ → Type 0
Improves k k' found = (best_rtt k'.best ≤ best_rtt k.best) × All (λ a. best_rtt k'.best ≤ a) found

-- What a test makes of a candidate, and the candidates of all tests.
abbrev Candidate : Setup → ℕ → Outcome → Check → Best → Type 0
Candidate u i unreachable k b = ⊥
Candidate u i (image_refused sock) k b = ⊥
Candidate u i (broken sock) k b = ⊥
Candidate u i (measured sock rtt version) k b =
    ((not u.panic && (u.current == i)) ≡ false)
    × (b.sock ≡ sock)
    × (b.index ≡ i)
    × (b.version ≡ version)
    × (b.rtt ≡ penalize u i (record_rtt i rtt k).0)

abbrev pub IsCandidate : Setup → List (ℕ × Outcome) → Check → Best → Type 0
IsCandidate u [] k b = ⊥
IsCandidate u ((i, o) ∷ rest) k b = Candidate u i o k b ⊎ IsCandidate u rest (test_one u i o k) b

-- The best is the one from before, or a candidate.
abbrev Stems : Check → Check → (Best → Type 0) → Type 0
Stems k k' P = (b : Best) → k'.best ≡ some b → (k.best ≡ some b) ⊎ (P b × (b.rtt < best_rtt k.best))

-- The socket that the uplink is told to change to.
abbrev pub handed_over : ℕ → Verdict → ℕ
handed_over x (change b) = if b.sock == x then 1 else 0
handed_over x dont_change = 0
handed_over x not_reachable = 0

-- Is a time good enough to leave the current server for it?
abbrev IsWorthwhile : ℕ → ℕ → Type 0
IsWorthwhile current_rtt a = (a < 10000000) × (a < current_rtt * 2 / 3)

-- What a verdict says of the servers that were measured: `found` is what they offer, `P` holds of the
-- candidates.
abbrev pub VerdictIsRight : Setup → List ℕ → (Best → Type 0) → ℕ → Verdict → Type 0
VerdictIsRight u found P current_rtt (change b) =
    P b
    × (b.rtt < rtt_unreachable)
    × All (λ a. b.rtt ≤ a) found
    × (u.panic ≡ false → IsWorthwhile current_rtt b.rtt)
VerdictIsRight u found P current_rtt dont_change =
    (u.panic ≡ false)
    × All (λ a. (10000000 ≤ a) ⊎ (current_rtt * 2 / 3 ≤ a)) found
    × ((current_rtt ≢ rtt_unreachable) ⊎ ((b : Best) × P b × (b.rtt < rtt_unreachable)))
VerdictIsRight u found P current_rtt not_reachable =
    All (λ a. rtt_unreachable ≤ a) found × (current_rtt ≡ rtt_unreachable)

abbrev Settled : Setup → List ℕ → (Best → Type 0) → ℕ → Check → Verdict × Check → Type 0
Settled u found P current_rtt k r =
    VerdictIsRight u found P current_rtt r.0
    × ((x : ℕ) → count x r.1.closed + handed_over x r.0 ≡ known x k)

-- The loop's variables at its start.
abbrev pub check_start : List AltServer → List AltLocal → Check
check_start servers locals = record {
  servers = servers;
  locals = locals;
  best = none;
  current_rtt = rtt_unreachable;
  closed = [];
}
