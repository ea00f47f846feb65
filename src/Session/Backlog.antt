-- ===== src/Session/Backlog.antt =====
-- The counter of relayed requests of a client counts those that wait in the queue of the uplink.
use dnbd.Base.{
  ℕ, suc, ◌+◌, ◌-◌, ◌%◌, ◌≤◌, ◌<◌, ◌≡◌, refl, sym, ap, ◌∙◌, subst, true, false, ◌&&◌, List, [], ◌∷◌,
  Option, none, some, ltb, ◌==◌, if◌then◌else◌, length, arith, Bool-cases, inl, inr, ◌⊎◌, ==_refl,
}
use mathlib.Core.List.{foldr, Perm}
use mathlib.Core.List.Perm
use dnbd.Uplink.Defs.{Client}
use dnbd.Uplink.Entries.{pending}
use dnbd.Uplink.Reply.{is_of, remove_entry, Answer, fail_clients, data_of}
use dnbd.Uplink.Removal.{leaving, staying, remove_entry_lem}
use dnbd.Uplink.Request.{Outcome, request_internal}
use dnbd.Uplink.Valid.{IsValid}
use dnbd.Uplink.Pick.{IsSane}
use dnbd.Uplink.Clients.{Keeps, request_internal-Keeps}
use dnbd.Uplink.Laws.{request_internal-IsValid}
use dnbd.Session.Defs.{
  Request, Session, World, Handled, goes_on_with, drops, after_wait, throttle, callback,
  request_client, relay_block, uplink_callback, call_back, free_client,
}

abbrev one_if : ℕ → Client → ℕ → ℕ
one_if owner c n = (if is_of owner callback c then 1 else 0) + n

-- How many of the clients that wait are the owner's.
abbrev pub waiting : ℕ → List Client → ℕ
waiting owner cs = foldr (one_if owner) 0 cs

waiting-Perm : (owner : ℕ) {xs ys : List Client} → Perm xs ys → waiting owner xs ≡ waiting owner ys
waiting-Perm owner p = Perm.foldr-eq (hlevel) (one_if owner) (λ a b n. omega arith) p 0

-- The counter is the number of the client's requests that wait.
abbrev pub IsCounted : Session → Type 0
IsCounted s = s.relayed_count ≡ waiting s.owner (pending s.uplink.queue)

is_of_own :
    (owner handle from to : ℕ)
    → is_of owner callback
        (record { owner = owner; callback = 1; handle = handle; from = from; to = to })
      ≡ true
is_of_own owner handle from to = ground (arith, ==_refl owner)

-- What holds of a client before each of its requests.
pub record IsReady (w : World) (r : Request) (s : Session) : Type 0 where
  pub valid : IsValid s.uplink
  pub sane : IsSane w.config s.uplink
  pub within : r.offset + r.size ≤ s.uplink.virtual_filesize
  pub counted : IsCounted s
  pub fits : s.relayed_count ≤ 251

-- What a relayed request leaves: the counter and the queue agree, and the counter fits its 8 bits. `s` is
-- the session when the request is made.
pub record Relayed (s : Session) (h : Handled) : Type 0 where
  pub counted : IsCounted h.session
  pub valid : IsValid h.session.uplink
  pub fits : h.session.relayed_count ≤ 251
  pub accepted :
      h.goes_on ≡ true → (s.relayed_count ≤ 250) × (h.session.relayed_count ≡ s.relayed_count + 1)
  pub refused : h.goes_on ≡ false → h.session ≡ s

module _ (w : World) (r : Request) (s : Session) (v : IsValid s.uplink)
    (sane : IsSane w.config s.uplink) (within : r.offset + r.size ≤ s.uplink.virtual_filesize) where
  abbrev own_outcome : Outcome
  own_outcome =
      request_internal w.config w.wire s.uplink (some (s.owner, callback, r.handle)) r.offset r.size
        r.hops

  -- A request that is handed to the uplink, and one that is refused before.
  request_client_cases :
      (request_client w r s ≡ own_outcome)
      ⊎ ((request_client w r s).accepted ≡ false × (request_client w r s).uplink ≡ s.uplink)
  unfolding request_client
  request_client_cases = elim (Bool-cases (ltb 60 (r.hops % 64))) [
    | inl t ↦ rw t (inr (refl, refl))
    | inr f ↦ elim (Bool-cases w.has_uplink) [
      | inr t ↦ rw (f, t) (inr (refl, refl))
      | inl g ↦ elim (Bool-cases (ltb 1 r.hops && w.is_same_host)) [
        | inl t ↦ rw (f, g, t) (inr (refl, refl))
        | inr k ↦ rw (f, g, k) (inl refl)
      ]
    ]
  ]

  own-Keeps :
      Keeps s.uplink (some (s.owner, callback, r.handle)) r.offset (r.offset + r.size) own_outcome
  own-Keeps =
      request_internal-Keeps w.config w.wire s.uplink (some (s.owner, callback, r.handle)) r.offset
        r.size r.hops v sane within

  request_client_lem :
      IsValid (request_client w r s).uplink
      × ((request_client w r s).accepted ≡ true
          → waiting s.owner (pending (request_client w r s).uplink.queue)
            ≡ suc (waiting s.owner (pending s.uplink.queue)))
      × ((request_client w r s).accepted ≡ false → (request_client w r s).uplink ≡ s.uplink)
  request_client_lem = elim request_client_cases [
    | inl e ↦ rw e (
      request_internal-IsValid w.config w.wire s.uplink (some (s.owner, callback, r.handle))
          r.offset r.size r.hops v sane within,
      λ taken.
          waiting-Perm s.owner (own-Keeps.1 taken)
          ∙ ap (λ b. (if b then 1 else 0) + waiting s.owner (pending s.uplink.queue))
              (is_of_own s.owner r.handle r.offset (r.offset + r.size))
          ∙ omega arith,
      λ gone. (own-Keeps.0 gone).0,
    )
    | inr (gone, same) ↦ (subst IsValid (sym same) v, λ taken. absurd (ground arith), λ _. same)
  ]

  -- What follows the wait.
  relay : Handled
  relay =
      if ltb 250 s.relayed_count
      then drops s
      else if (request_client w r s).accepted
      then goes_on_with
          (record s {
            relayed_count = (s.relayed_count + 1) % 256;
            uplink = (request_client w r s).uplink;
          })
          []
      else drops (record s { uplink = (request_client w r s).uplink })

  relay-Relayed : IsCounted s → s.relayed_count ≤ 251 → Relayed s relay
  unfolding relay
  relay-Relayed counted few =
      let c = request_client_lem in
      elim (Bool-cases (ltb 250 s.relayed_count)) [
        | inl full ↦ rw full (record {
          counted = counted;
          valid = v;
          fits = few;
          accepted = λ on. absurd (ground arith);
          refused = λ _. refl;
        })
        | inr room ↦ elim (Bool-cases (request_client w r s).accepted) [
          | inl taken ↦
              rw (room, taken)
                (record {
                  counted = ground (arith, c.1 taken, counted);
                  valid = c.0;
                  fits = ground arith;
                  accepted = λ _. (ground arith, ground arith);
                  refused = λ gone. absurd (ground arith);
                })
          | inr gone ↦
              rw (room, gone)
                (record {
                  counted = counted ∙ ap (λ u. waiting s.owner (pending u.queue)) (sym (c.2 gone));
                  valid = c.0;
                  fits = few;
                  accepted = λ taken. absurd (ground arith);
                  refused = λ _. ap (λ u. record s { uplink = u }) (c.2 gone);
                })
        ]
      ]

throttle-IsReady :
    (w : World) (r : Request) (s : Session)
    → IsReady w r s
    → (250 < s.relayed_count → IsReady w r (after_wait w s))
    → IsReady w r (throttle w s)
unfolding throttle
throttle-IsReady w r s now later = elim (Bool-cases (ltb 250 s.relayed_count)) [
  | inl t ↦ rw t (later (ground arith))
  | inr f ↦ rw f now
]

-- A request within the image that the client's connection relays, for a client whose counter is the number
-- of its requests that wait in the queue, and at most 251, and stays so while the connection waits for the
-- backlog to fall: the same holds afterwards, so that the counter never wraps around. It goes up by one if
-- the request is relayed, which needs a backlog of at most 250 after the wait; if not, the client is
-- dropped, and its counter and the uplink are as they were after the wait.
pub relay_block-Relayed :
    (w : World) (r : Request) (s : Session)
    → IsReady w r s
    → (250 < s.relayed_count → IsReady w r (after_wait w s))
    → Relayed (throttle w s) (relay_block w r s)
unfolding relay_block relay
relay_block-Relayed w r s now later =
    let ready = throttle-IsReady w r s now later in
    relay-Relayed w r (throttle w s) ready.valid ready.sane ready.within ready.counted ready.fits

length-leaving :
    (owner : ℕ) (cs : List Client)
    → length (fail_clients (leaving owner callback cs)) ≡ waiting owner cs
unfolding leaving
length-leaving owner [] = refl
length-leaving owner (c ∷ cs) = elim (Bool-cases (is_of owner callback c)) [
  | inl t ↦ rw t (omega (arith, length-leaving owner cs))
  | inr f ↦ rw f (omega (arith, length-leaving owner cs))
]

waiting-staying : (owner : ℕ) (cs : List Client) → waiting owner (staying owner callback cs) ≡ 0
unfolding staying
waiting-staying owner [] = refl
waiting-staying owner (c ∷ cs) = elim (Bool-cases (is_of owner callback c)) [
  | inl t ↦ rw t (waiting-staying owner cs)
  | inr f ↦ rw (f, f) (omega (arith, waiting-staying owner cs))
]

abbrev SameBut : Session → Session → Type 0
SameBut s s' = (s'.owner ≡ s.owner) × (s'.uplink ≡ s.uplink)

uplink_callback_lem :
    (handle len : ℕ) (bytes : Option (List ℕ)) (s : Session)
    → SameBut s (uplink_callback handle len bytes s).0
      × ((uplink_callback handle len bytes s).0.relayed_count ≡ (s.relayed_count + 255) % 256)
unfolding uplink_callback
uplink_callback_lem handle len none s = ((refl, refl), refl)
uplink_callback_lem handle len (some bytes) s = ((refl, refl), refl)

-- Each callback takes one from the counter, and sends one reply.
call_back_lem :
    (buffer : ℕ → ℕ) (answers : List Answer) (s : Session)
    → length answers ≤ s.relayed_count
    → s.relayed_count < 256
    → let r = call_back buffer answers s in
      SameBut s r.0
      × (r.0.relayed_count ≡ s.relayed_count - length answers)
      × (length r.1 ≡ length answers)
unfolding call_back
call_back_lem buffer [] s few fits = ((refl, refl), omega arith, refl)
call_back_lem buffer (a ∷ rest) s few fits =
    let one = uplink_callback_lem a.handle a.length (data_of buffer a) s in
    let s' = (uplink_callback a.handle a.length (data_of buffer a) s).0 in
    let down : s'.relayed_count ≡ s.relayed_count - 1 = omega (arith, one.1) in
    let more = call_back_lem buffer rest s' (omega arith) (omega arith) in
    ((more.0.0 ∙ one.0.0, more.0.1 ∙ one.0.1), omega (arith, more.1, down), ap suc more.2)

-- A client that goes away: it is called back once for each of its requests that wait, its counter is 0
-- then, so that it is freed without delay, and none of its requests waits any more, while those of
-- other clients wait as before.
pub free_client_lem :
    (buffer : ℕ → ℕ) (s : Session)
    → IsValid s.uplink
    → IsCounted s
    → s.relayed_count < 256
    → let r = free_client buffer s in
      (r.0.relayed_count ≡ 0)
      × (length r.1 ≡ s.relayed_count)
      × (waiting s.owner (pending r.0.uplink.queue) ≡ 0)
      × (0 < s.relayed_count
          → pending r.0.uplink.queue ≡ staying s.owner callback (pending s.uplink.queue))
      × IsValid r.0.uplink
unfolding free_client
free_client_lem buffer s v counted fits = elim (Bool-cases (s.relayed_count == 0)) [
  | inl t ↦
      let none : s.relayed_count ≡ 0 = ground arith in
      rw t (none, sym none, sym counted ∙ none, λ h. absurd (omega arith), v)
  | inr f ↦
      let r = remove_entry s.owner callback s.uplink in
      let removed = remove_entry_lem s.owner callback s.uplink v in
      let many : length r.1 ≡ s.relayed_count =
        ap length removed.1.1 ∙ length-leaving s.owner (pending s.uplink.queue) ∙ sym counted in
      let called =
        call_back_lem buffer r.1 (record s { uplink = r.0 }) (omega (arith, many)) fits in
      let queue : pending (call_back buffer r.1 (record s { uplink = r.0 })).0.uplink.queue
          ≡ staying s.owner callback (pending s.uplink.queue) =
        ap (λ u. pending u.queue) called.0.1 ∙ removed.1.0 in
      rw f (
        omega (arith, called.1, many),
        called.2 ∙ many,
        ap (waiting s.owner) queue ∙ waiting-staying s.owner (pending s.uplink.queue),
        λ h. queue,
        subst IsValid (sym called.0.1) removed.0,
      )
]
