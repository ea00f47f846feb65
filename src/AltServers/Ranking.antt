-- ===== src/AltServers/Ranking.antt =====
-- A client is offered the closest servers.
use dnbd.Base.{
  ℕ, zero, suc, ◌+◌, ◌-◌, ◌≤◌, ◌<◌, ◌≡◌, ◌≢◌, ◌⊎◌, inl, inr, refl, sym, ap, subst, Bool, true,
  false, Option, none, some, List, [], ◌∷◌, map, ltb, ◌==◌, if◌then◌else◌, min, ◌↔◌, Bool-cases,
  Option-cases, length, get_or, set, All, All-get_or, All-map, get_or-set_ne, arith,
}
use dnbd.AltServers.Defs.{Host, AltServer, is_image_allowed, net_closeness}
use dnbd.AltServers.Lists.{score, highest, by_score, list_for_client}

abbrev pub at : List ℕ → ℕ → ℕ
at s i = get_or s i 0

-- What `highest` finds: the candidate, or a place of the list that is better.
abbrev IsAbove : Option (ℕ × ℕ) → ℕ → Type 0
IsAbove none v = 0 < v
IsAbove (some (b, w)) v = w ≤ v

abbrev Top : List ℕ → ℕ → Option (ℕ × ℕ) → Option (ℕ × ℕ) → Type 0
Top xs i best none = (best ≡ none) × All (λ x. x ≡ 0) xs
Top xs i best (some (k, v)) =
    All (λ x. x ≤ v) xs × IsAbove best v × ((best ≡ some (k, v)) ⊎ ((i ≤ k) × (at xs (k - i) ≡ v)))

at_cons :
    (x : ℕ) (xs : List ℕ) (i k v : ℕ)
    → i + 1 ≤ k
    → at xs (k - (i + 1)) ≡ v
    → at (x ∷ xs) (k - i) ≡ v
at_cons x xs i k v h e = let q : k - i ≡ suc (k - (i + 1)) = omega arith in rw q e

-- An element that is not above the candidate.
abbrev IsBelow : Option (ℕ × ℕ) → ℕ → Type 0
IsBelow none x = x ≡ 0
IsBelow (some (b, w)) x = x ≤ w

below_le : (best : Option (ℕ × ℕ)) (x v : ℕ) → IsBelow best x → IsAbove best v → x ≤ v
below_le none x v h k = omega arith
below_le (some (b, w)) x v h k = omega arith

Top-skip :
    (x : ℕ) (xs : List ℕ) (i : ℕ) (best r : Option (ℕ × ℕ))
    → IsBelow best x
    → Top xs (i + 1) best r
    → Top (x ∷ xs) i best r
Top-skip x xs i none none h t = (refl, (h, t.1))
Top-skip x xs i (some (b, w)) none h t = cc
Top-skip x xs i best (some (k, v)) h t = (
  (below_le best x v h t.1, t.0),
  t.1,
  elim t.2 [ inl e ↦ inl e | inr q ↦ inr (omega (arith, q.0), at_cons x xs i k v q.0 q.1) ],
)

Top-take :
    (x : ℕ) (xs : List ℕ) (i : ℕ) (best r : Option (ℕ × ℕ))
    → IsAbove best x
    → Top xs (i + 1) (some (i, x)) r
    → Top (x ∷ xs) i best r
Top-take x xs i best none h t = cc
Top-take x xs i best (some (k, v)) h t = (
  (t.1, t.0),
  above_trans best h t.1,
  elim t.2 [
    | inl e ↦ inr (ground arith, at_here e)
    | inr q ↦ inr (omega (arith, q.0), at_cons x xs i k v q.0 q.1)
  ],
)
  where
    above_trans : (best : Option (ℕ × ℕ)) → IsAbove best x → x ≤ v → IsAbove best v
    above_trans none h l = omega arith
    above_trans (some (b, w)) h l = omega arith

    at_here : ◌≡◌ {A = Option (ℕ × ℕ)} (some (i, x)) (some (k, v)) → at (x ∷ xs) (k - i) ≡ v
    at_here e = let z : k - i ≡ 0 = ground arith in rw z (ground arith)

highest-Top : (xs : List ℕ) (i : ℕ) (best : Option (ℕ × ℕ)) → Top xs i best (highest xs i best)
unfolding highest
highest-Top [] i none = (refl, tt)
highest-Top [] i (some (b, w)) = (tt, omega arith, inl refl)
highest-Top (x ∷ xs) i none = elim (Bool-cases (x == 0)) [
  | inl z ↦
      rw z (
        Top-skip x xs i none (highest xs (i + 1) none) (ground arith) (highest-Top xs (i + 1) none))
  | inr p ↦ rw p (
      Top-take x xs i none (highest xs (i + 1) (some (i, x))) (ground arith)
        (highest-Top xs (i + 1) (some (i, x))))
]
highest-Top (x ∷ xs) i (some (b, w)) = elim (Bool-cases (ltb w x)) [
  | inl z ↦ rw z (
      Top-take x xs i (some (b, w)) (highest xs (i + 1) (some (i, x))) (ground arith)
        (highest-Top xs (i + 1) (some (i, x))))
  | inr p ↦ rw p (
      Top-skip x xs i (some (b, w)) (highest xs (i + 1) (some (b, w))) (ground arith)
        (highest-Top xs (i + 1) (some (b, w))))
]

-- Is an index in a list?
unfoldable pub is_in : ℕ → List ℕ → Bool
is_in k [] = false
is_in k (i ∷ r) = if i == k then true else is_in k r

abbrev pub Once : List ℕ → Type 0
Once [] = Unit
Once (i ∷ r) = (is_in i r ≡ false) × Once r

abbrev pub Descending : List ℕ → List ℕ → Type 0
Descending s [] = Unit
Descending s (i ∷ r) = All (λ j. at s j ≤ at s i) r × Descending s r

-- A ranking of at most `n` of the indices whose score is not 0, the highest first.
pub record Ranking (s : List ℕ) (n : ℕ) (r : List ℕ) : Type 0 where
  pub few : length r ≤ n
  pub offered : All (λ i. 0 < at s i) r
  pub once : Once r
  pub ordered : Descending s r
  pub others :
      (k : ℕ) → is_in k r ≡ false → All (λ i. at s k ≤ at s i) r × (length r < n → at s k ≡ 0)

pub All-at : (s : List ℕ) (v k : ℕ) → All (λ x. x ≤ v) s → at s k ≤ v
All-at s v k h = All-get_or (λ x. x ≤ v) s k 0 (omega arith) h

at-clear_self : (s : List ℕ) (i : ℕ) → at (set s i 0) i ≡ 0
at-clear_self [] i = refl
at-clear_self (x ∷ s) zero = refl
at-clear_self (x ∷ s) (suc i) = at-clear_self s i

Descending-eq :
    (s s' : List ℕ) (r : List ℕ) → All (λ j. at s' j ≡ at s j) r → Descending s' r → Descending s r
Descending-eq s s' [] same d = tt
Descending-eq s s' (i ∷ r) same d = (go r same.1 d.0, Descending-eq s s' r same.1 d.1)
  where
    go :
        (q : List ℕ)
        → All (λ j. at s' j ≡ at s j) q
        → All (λ j. at s' j ≤ at s' i) q
        → All (λ j. at s j ≤ at s i) q
    go [] e h = tt
    go (j ∷ q) e h = (omega (arith, e.0, h.0, same.0), go q e.1 h.1)

not_in : (i : ℕ) (r : List ℕ) → All (λ j. j ≢ i) r → is_in i r ≡ false
unfolding is_in
not_in i [] h = refl
not_in i (j ∷ r) h = ground (arith, h.0, not_in i r h.1)

-- The best index in front of a ranking of the rest.
module _ (s : List ℕ) (n i : ℕ) (r : List ℕ) (top : All (λ x. x ≤ at s i) s)
    (some_score : 0 < at s i) where
  Ranking-cons : Ranking (set s i 0) n r → Ranking s (suc n) (i ∷ r)
  unfolding is_in
  Ranking-cons k =
      let s' = set s i 0 in
      let clear = at-clear_self s i in
      let same : (j : ℕ) → j ≢ i → at s' j ≡ at s j =
        λ j h. get_or-set_ne s i j 0 0 (λ e. h (sym e)) in
      let apart : All (λ j. j ≢ i) r =
        All-map (λ j. 0 < at s' j) r (λ j p e. absurd (omega (arith, ap (at s') e, clear, p)))
          k.offered in
      let equal : All (λ j. at s' j ≡ at s j) r = All-map (λ j. j ≢ i) r same apart in
      let below : (j : ℕ) → at s j ≤ at s i = λ j. All-at s (at s i) j top in
      record {
        few = omega (arith, k.few);
        offered = (some_score, All-both r k.offered equal);
        once = (not_in i r apart, k.once);
        ordered =
            (All-map (λ j. j ≢ i) r (λ j h. below j) apart, Descending-eq s s' r equal k.ordered);
        others = λ m h.
            let ne : m ≢ i = ground arith in
            let out : is_in m r ≡ false = ground arith in
            let o = k.others m out in
            (
              (below m, All-le r m (same m ne) o.0 equal),
              λ l. ground (arith, o.1 (omega (arith, l)), same m ne),
            );
      }
    where
      All-both :
          (q : List ℕ)
          → All (λ j. 0 < at (set s i 0) j) q
          → All (λ j. at (set s i 0) j ≡ at s j) q
          → All (λ j. 0 < at s j) q
      All-both [] p e = tt
      All-both (j ∷ q) p e = (omega (arith, p.0, e.0), All-both q p.1 e.1)

      All-le :
          (q : List ℕ) (m : ℕ)
          → at (set s i 0) m ≡ at s m
          → All (λ j. at (set s i 0) m ≤ at (set s i 0) j) q
          → All (λ j. at (set s i 0) j ≡ at s j) q
          → All (λ j. at s m ≤ at s j) q
      All-le [] m sm p e = tt
      All-le (j ∷ q) m sm p e = (omega (arith, p.0, e.0, sm), All-le q m sm p.1 e.1)

-- One round of the outer loop.
ranked :
    (n : ℕ) (s : List ℕ) (r : Option (ℕ × ℕ)) (rest : ℕ → List ℕ)
    → Top s 0 none r
    → ((i : ℕ) → Ranking (set s i 0) n (rest i))
    → Ranking s (suc n) (elim r [ none ↦ [] | some (i, value) ↦ i ∷ rest i ])
unfolding is_in
ranked n s none rest t k = record {
  few = omega arith;
  offered = tt;
  once = tt;
  ordered = tt;
  others = λ m h. (tt, λ l. All-get_or (λ x. x ≡ 0) s m 0 refl t.1);
}
ranked n s (some (i, v)) rest t k =
    let found : at s i ≡ v = elim t.2 [
      | inl e ↦ cc
      | inr q ↦ subst (λ m. at s m ≡ v) (omega arith) q.1
    ] in
    Ranking-cons s n i (rest i) (subst (λ w. All (λ x. x ≤ w) s) (sym found) t.0)
      (omega (arith, found, t.1)) (k i)

by_score-Ranking : (n : ℕ) (s : List ℕ) → Ranking s n (by_score n s)
unfolding by_score
by_score-Ranking zero s = record {
  few = omega arith;
  offered = tt;
  once = tt;
  ordered = tt;
  others = λ k h. (tt, λ l. absurd (omega arith));
}
by_score-Ranking (suc n) s =
    ranked n s (highest s 0 none) (λ i. by_score n (set s i 0)) (highest-Top s 0 none)
      (λ i. by_score-Ranking n (set s i 0))

abbrev pub IsOffered : List ℕ → AltServer → Type 0
IsOffered image s = (s.host.kind ≢ 0) × (s.is_private ≡ false) × (is_image_allowed s image ≡ true)

score_iff :
    (host : Host) (image : List ℕ) (s : AltServer) → (0 < score host image s) ↔ IsOffered image s
unfolding score
score_iff host image s = elim (Option-cases (net_closeness host s.host)) [
  | inl e ↦ rw e (λ h. ground arith, λ h. ground arith)
  | inr (c, e) ↦ rw e (λ h. ground arith, λ h. ground arith)
]

-- One closeness is at most another; `none` stands for -1.
abbrev pub IsNoCloser : Option ℕ → Option ℕ → Type 0
IsNoCloser none d = Unit
IsNoCloser (some c) none = ⊥
IsNoCloser (some c) (some d) = c ≤ d

score_offered :
    (host : Host) (image : List ℕ) (s : AltServer)
    → IsOffered image s
    → score host image s ≡ elim (net_closeness host s.host) [ none ↦ 9 | some c ↦ 10 + c ]
unfolding score
score_offered host image s h = ground (arith, h.0, h.1, h.2)

-- Among the servers that may be offered, the scores order as the closeness does.
score-closeness :
    (host : Host) (image : List ℕ) (s t : AltServer)
    → IsOffered image s
    → IsOffered image t
    → (score host image s ≤ score host image t)
      ↔ IsNoCloser (net_closeness host s.host) (net_closeness host t.host)
score-closeness host image s t hs ht =
    rw (score_offered host image s hs, score_offered host image t ht)
      (order (net_closeness host s.host) (net_closeness host t.host))
  where
    order :
        (c d : Option ℕ)
        → (elim c [ none ↦ 9 | some c ↦ 10 + c ] ≤ elim d [ none ↦ 9 | some d ↦ 10 + d ])
          ↔ IsNoCloser c d
    order none none = (λ h. tt, λ h. omega arith)
    order none (some d) = (λ h. tt, λ h. omega arith)
    order (some c) none = (λ h. absurd (omega arith), λ h. absurd h)
    order (some c) (some d) = (λ h. omega arith, λ h. omega arith)

-- What a score says of a server: a score above 0 that it may be offered, and the order of two such scores
-- which of the servers is closer to the host.
abbrev pub ScoreIsRight : Host → List ℕ → Type 0
ScoreIsRight host image =
    ((s : AltServer) → (0 < score host image s) ↔ IsOffered image s)
    × ((s t : AltServer)
        → IsOffered image s
        → IsOffered image t
        → (score host image s ≤ score host image t)
          ↔ IsNoCloser (net_closeness host s.host) (net_closeness host t.host))

-- For a client whose address is known, altservers_getListForClient offers at most `size` servers and
-- none twice. Each is in use, not for replication only, and allowed for the image; the closest by
-- `net_closeness` stand first, another address family being the farthest; a server that is left out is not closer than one that is offered; and if fewer than `size`
-- and fewer than all are offered, none that could be is left out.
pub list_for_client-Ranking :
    (host : Host) (image : List ℕ) (size : ℕ) (servers : List AltServer)
    → host.kind ≢ 0
    → Ranking
        (map (score host image) servers)
        (min size (length servers))
        (list_for_client host image size servers)
      × ScoreIsRight host image
unfolding list_for_client
list_for_client-Ranking host image size [] known =
    let kind : (host.kind == 0) ≡ false = ground arith in
    let none_left : min size 0 ≡ 0 = omega arith in
    (
      rw (kind, none_left) (by_score-Ranking 0 []),
      (score_iff host image, score-closeness host image),
    )
list_for_client-Ranking host image size (s ∷ servers) known =
    let kind : (host.kind == 0) ≡ false = ground arith in
    let n = length (s ∷ servers) in
    let some_left : (n == 0) ≡ false = ground arith in
    let least : (if ltb n size then n else size) ≡ min size n = ground arith in
    (
      rw (kind, some_left, least)
          (by_score-Ranking (min size n) (map (score host image) (s ∷ servers))),
      (score_iff host image, score-closeness host image),
    )
