-- ===== src/AltServers/Counters.antt =====
-- Failure counters and round-trip times.
use dnbd.Base.{
  ℕ, zero, suc, ◌+◌, ◌-◌, ◌*◌, ◌%◌, ◌^◌, ◌≤◌, ◌<◌, ◌≡◌, refl, ◌∙◌, true, false, List, [], ◌∷◌, ◌==◌,
  if◌then◌else◌, Bool-cases, inl, inr, length, set, All, All-set, length-set, subst, arith,
}
use dnbd.Timing.Defs.{Ticks, diff}
use dnbd.AltServers.Defs.{AltServer, AltLocal, server_global_dup_time, server_rtt_probes}
use dnbd.AltServers.Lists.{pass_local, pass_global}
use dnbd.AltServers.Health.{server_failed, image_failed, sum, update_local}

-- The state after `n` checks of one server, at the times given for them.
unfoldable pub asked_local : ℕ → AltLocal → AltLocal
asked_local zero l = l
asked_local (suc n) l = (pass_local (asked_local n l)).1

unfoldable pub asked_global : (ℕ → Ticks) → ℕ → AltServer → AltServer
asked_global times zero s = s
asked_global times (suc n) s = (pass_global (times n) (asked_global times n s)).1

asked_local_lem :
    (n : ℕ) (l : AltLocal)
    → l.blocked ≡ true
    → n < l.fails
    → ((asked_local n l).fails ≡ l.fails - n) × ((asked_local n l).blocked ≡ true)
unfolding asked_local pass_local
asked_local_lem zero l b h = (omega arith, b)
asked_local_lem (suc n) l b h = ground (arith, asked_local_lem n l b (omega arith))

-- A server that is blocked for an image is refused at each check but the last of as many checks as it
-- failed, and at that one it is let through and no longer blocked.
pub pass_local-ends :
    (l : AltLocal) (n : ℕ)
    → l.blocked ≡ true
    → n < l.fails
    → let r = pass_local (asked_local n l) in
      (r.0 ≡ (n + 1 == l.fails))
      × (r.1.blocked ≡ (if n + 1 == l.fails then false else true))
      × (r.1.fails ≡ l.fails - (n + 1))
unfolding pass_local
pass_local-ends l n b h = ground (arith, asked_local_lem n l b h)

-- Two checks of the global counter that both count.
abbrev pub IsSpaced : (ℕ → Ticks) → AltServer → Type 0
IsSpaced times s =
    (server_global_dup_time ≤ diff s.last_fail (times 0))
    × ((n : ℕ) → server_global_dup_time ≤ diff (times n) (times (suc n)))

pass_global-refuses :
    (now : Ticks) (s : AltServer)
    → s.blocked ≡ true
    → server_global_dup_time ≤ diff s.last_fail now
    → 1 < s.fails
    → pass_global now s ≡ (false, record s { last_fail = now; fails = s.fails - 1 })
unfolding pass_global
pass_global-refuses now s b d h = ground arith

asked_global_lem :
    (times : ℕ → Ticks) (n : ℕ) (s : AltServer)
    → IsSpaced times s
    → s.blocked ≡ true
    → n < s.fails
    → ((asked_global times n s).fails ≡ s.fails - n)
      × ((asked_global times n s).blocked ≡ true)
      × (server_global_dup_time ≤ diff (asked_global times n s).last_fail (times n))
unfolding asked_global
asked_global_lem times zero s sp b h = (omega arith, b, sp.0)
asked_global_lem times (suc n) s sp b h =
    let ih = asked_global_lem times n s sp b (omega arith) in
    rw
      (
        pass_global-refuses (times n) (asked_global times n s) ih.1 ih.2 (omega (arith, ih.0)),
        asked_global,
      )
      (omega (arith, ih.0), ih.1, sp.1 n)

-- A server that is blocked for all images is refused at each of the checks that lie at least
-- SERVER_GLOBAL_DUP_TIME seconds apart, but not at the last of as many as it failed: at that one it is
-- let through and no longer blocked.
pub pass_global-ends :
    (times : ℕ → Ticks) (s : AltServer) (n : ℕ)
    → IsSpaced times s
    → s.blocked ≡ true
    → n < s.fails
    → let r = pass_global (times n) (asked_global times n s) in
      (r.0 ≡ (n + 1 == s.fails))
      × (r.1.blocked ≡ (if n + 1 == s.fails then false else true))
      × (r.1.fails ≡ s.fails - (n + 1))
unfolding pass_global
pass_global-ends times s n sp b h = ground (arith, asked_global_lem times n s sp b h)

-- A blocked server has failures to count down.
abbrev pub LocalIsValid : AltLocal → Type 0
LocalIsValid l = l.blocked ≡ true → 0 < l.fails

abbrev pub ServerIsValid : AltServer → Type 0
ServerIsValid s = s.blocked ≡ true → 0 < s.fails

-- The functions that count failures up and down keep a blocked server's counters above 0, so none of
-- them counts below 0.
pub counters-IsValid :
    (now : Ticks) (s : AltServer) (l : AltLocal)
    → ServerIsValid s
    → LocalIsValid l
    → (ServerIsValid (server_failed now s) × LocalIsValid (image_failed l))
      × (ServerIsValid ((pass_global now s).1) × LocalIsValid ((pass_local l).1))
unfolding server_failed image_failed pass_global pass_local
counters-IsValid now s l vs vl =
    ((λ h. ground arith, λ h. ground arith), (λ h. ground arith, λ h. ground arith))

-- All measurements of a history lie between two bounds.
abbrev pub Within : ℕ → ℕ → List ℕ → Type 0
Within lo hi xs = All (λ x. (lo ≤ x) × (x ≤ hi)) xs

sum_bounds :
    (lo hi : ℕ) (xs : List ℕ)
    → Within lo hi xs
    → (lo * length xs ≤ sum xs) × (sum xs ≤ hi * length xs)
sum_bounds lo hi [] h = (grind arith, grind arith)
sum_bounds lo hi (x ∷ xs) h =
    let ih = sum_bounds lo hi xs h.1 in (grind (arith, ih, h.0), grind (arith, ih, h.0))

length-set_five :
    (xs : List ℕ) (i v : ℕ)
    → length xs ≡ server_rtt_probes
    → length (set xs i v) ≡ server_rtt_probes
length-set_five xs i v h = length-set xs i v ∙ h

-- If the measurements that altservers_updateRtt keeps and the new one lie between two bounds, the upper
-- of which is small enough for the sum of five to fit into 32 bits, then so do the average that it
-- returns and the measurements that it then keeps; the first measurement is its own average.
pub update_local_bounds :
    (lo hi rtt : ℕ) (l : AltLocal)
    → length l.rtt ≡ server_rtt_probes
    → 5 * hi < 2 ^ 32
    → (lo ≤ rtt) × (rtt ≤ hi)
    → (l.init_done ≡ true → Within lo hi l.rtt)
    → let r = update_local rtt l in
      ((lo ≤ r.0) × (r.0 ≤ hi))
      × (Within lo hi r.1.rtt × (length r.1.rtt ≡ server_rtt_probes))
      × (r.1.init_done ≡ true)
      × (l.init_done ≡ false → r.0 ≡ rtt)
unfolding update_local
update_local_bounds lo hi rtt l size small new old = elim (Bool-cases l.init_done) [
  | inl t ↦
      let i = (l.rtt_index + 1) % server_rtt_probes in
      let kept = All-set (λ x. (lo ≤ x) × (x ≤ hi)) l.rtt i rtt new (old t) in
      let five = length-set_five l.rtt i rtt size in
      let total = sum_bounds lo hi (set l.rtt i rtt) kept in
      let b : (lo * 5 ≤ sum (set l.rtt i rtt)) × (sum (set l.rtt i rtt) ≤ hi * 5) =
        subst (λ k. (lo * k ≤ sum (set l.rtt i rtt)) × (sum (set l.rtt i rtt) ≤ hi * k)) five
          total in
      rw t ((omega (arith, b.0, b.1), omega (arith, b.0, b.1)), (kept, five), refl, λ e. cc)
  | inr f ↦ rw f (new, ((new, (new, (new, (new, (new, tt))))), refl), refl, λ e. refl)
]
