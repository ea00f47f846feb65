-- ===== src/Uplink/Clients.antt =====
-- No waiting client is lost or made up by `uplink_requestInternal`.
use mathlib.Core.List.{append-nil, append_assoc, Perm, perm_middle}
use mathlib.Core.List.Perm
use dnbd.Base.{
  ℕ, ◌+◌, ◌≤◌, ◌≡◌, refl, sym, ap, ◌∙◌, Bool, true, false, Option, none, some, List, [], ◌∷◌, ◌++◌,
  arith, Bool-cases, inl, inr,
}
use dnbd.Uplink.Defs.{Client, Config, Entry, Uplink}
use dnbd.Uplink.Entries.{pending}
use dnbd.Uplink.Request.{
  Asker, Pick, Wire, Outcome, prefetch_entry, enqueue, attach, entry_of, send_entry, send_pre,
  send_new, submit, refused, may_request, request_internal, finish,
}
use dnbd.Uplink.Valid.{IsValid, pending-mark_unsent}
use dnbd.Uplink.Pick.{IsSane, IsPick, Lies, PickOk, pick-PickOk}
use dnbd.Uplink.Enqueue.{PreOk, prefetch_entry-PreOk, picked_id}
use dnbd.Uplink.Laws.{request_internal_parts, may_request-size}

-- The client that a request adds.
abbrev pub added : Asker → ℕ → ℕ → List Client
added none start end = []
added (some (owner, callback, handle)) start end =
    record { owner = owner; callback = callback; handle = handle; from = start; to = end } ∷ []

pub pending-append : (xs ys : List Entry) → pending (xs ++ ys) ≡ pending xs ++ pending ys
pending-append [] ys = refl
pending-append (x ∷ xs) ys =
    ap (◌++◌ x.clients) (pending-append xs ys)
    ∙ sym (append_assoc x.clients (pending xs) (pending ys))

pending-entry_of :
    (id : ℕ) (pre : Option Entry) (q : List Entry)
    → PreOk id pre
    → pending (entry_of pre ++ q) ≡ pending q
pending-entry_of id none q ok = refl
pending-entry_of id (some e) q ok = ap (λ cs. cs ++ pending q) ok.2

send_entry-pending :
    (wire : Wire) (hops : ℕ) (e : Entry) (u : Uplink)
    → pending (send_entry wire hops e u).queue ≡ pending u.queue
unfolding send_entry
send_entry-pending wire hops e u = ground (arith, pending-mark_unsent u.queue e.handle)

send_pre-pending :
    (wire : Wire) (hops : ℕ) (pre : Option Entry) (u : Uplink)
    → pending (send_pre wire hops pre u).queue ≡ pending u.queue
unfolding send_pre
send_pre-pending wire hops none u = refl
send_pre-pending wire hops (some e) u = send_entry-pending wire _ e u

send_new-pending :
    (wire : Wire) (hops : ℕ) (p : Pick) (u : Uplink)
    → pending (send_new wire hops p u).queue ≡ pending u.queue
unfolding send_new
send_new-pending wire hops p u = ground (arith, send_entry-pending wire hops p.entry u)

attach-clients :
    (a : Asker) (start end : ℕ) (e : Entry)
    → (attach a start end e).clients ≡ e.clients ++ added a start end
unfolding attach
attach-clients none start end e = sym (append-nil e.clients)
attach-clients (some (owner, callback, handle)) start end e = refl

added-perm :
    (a : Asker) (start end : ℕ) (xs ys : List Client)
    → Perm (xs ++ (added a start end ++ ys)) (added a start end ++ (xs ++ ys))
added-perm none start end xs ys = Perm.refl _
added-perm (some (owner, callback, handle)) start end xs ys = perm_middle xs ys

module _ (u : Uplink) (asker : Asker) (start end : ℕ) where
  pending-Lies :
      (p : Pick) (b : Bool)
      → Lies u p b
      → pending p.before ++ (p.entry.clients ++ pending p.behind) ≡ pending u.queue
  pending-Lies p true l = rw (l.0, l.1, l.2) (append-nil (pending u.queue))
  pending-Lies p false l = rw l (sym (pending-append p.before (p.entry ∷ p.behind)))

  enqueue-pending :
      (p : Pick) (pre : Option Entry)
      → IsPick u asker start end p
      → PreOk (picked_id u p) pre
      → Perm
          (pending (enqueue u p pre asker start end).queue)
          (added asker start end ++ pending u.queue)
  unfolding enqueue
  enqueue-pending p pre ok pok =
      rw
        (
          pending-append p.before,
          attach-clients asker start end p.entry,
          pending-entry_of (picked_id u p) pre p.behind pok,
          ← pending-Lies p p.is_new ok.lies,
          append_assoc p.entry.clients,
          ← append_assoc (pending p.before) p.entry.clients,
          ← append_assoc (pending p.before) p.entry.clients (pending p.behind),
        )
        (added-perm asker start end (pending p.before ++ p.entry.clients) (pending p.behind))

-- What an outcome says of the clients: a refusal changes nothing and sends nothing, an accepted
-- request is added to those that wait.
abbrev pub Keeps : Uplink → Asker → ℕ → ℕ → Outcome → Type 0
Keeps u asker start end o =
    (o.accepted ≡ false → (o.uplink ≡ u) × (o.tried ≡ []))
    × (o.accepted ≡ true → Perm (pending o.uplink.queue) (added asker start end ++ pending u.queue))

refused-Keeps : (u : Uplink) (asker : Asker) (start end : ℕ) → Keeps u asker start end (refused u)
unfolding refused
refused-Keeps u asker start end = (λ _. (refl, refl), λ f. absurd (cc f))

module _ (cfg : Config) (wire : Wire) (u : Uplink) (asker : Asker) (start size hops : ℕ)
    (v : IsValid u) (s : IsSane cfg u) (within : start + size ≤ u.virtual_filesize) where
  finish-Keeps :
      (hops' : ℕ) (o : Option Pick)
      → PickOk u asker start (start + size) o
      → Keeps u asker start
          (start + size)
          (finish cfg wire u asker start (start + size) size hops' o)
  unfolding finish submit
  finish-Keeps hops' none ok = refused-Keeps u asker start (start + size)
  finish-Keeps hops' (some p) ok =
      let end = start + size in
      let pre = prefetch_entry cfg u p asker (picked_id u p) end size hops' in
      let queued = enqueue u p pre asker start end in
      let pok =
        prefetch_entry-PreOk cfg u p asker (picked_id u p) end size hops' s ok.valid within
          (ground (arith, s.handles)) in
      let same =
        send_pre-pending wire hops' pre (send_new wire hops' p queued)
        ∙ send_new-pending wire hops' p queued in
      (λ f. absurd (cc f), λ _. rw same (enqueue-pending u asker start end p pre ok pok))

  -- `uplink_requestInternal`, for a range within the image: a request that is refused leaves the queue
  -- as it was and sends nothing; one that is accepted leaves just the clients waiting that waited
  -- before, and the new client, if it is no request of our own.
  pub request_internal-Keeps :
      Keeps u asker start (start + size) (request_internal cfg wire u asker start size hops)
  request_internal-Keeps =
      rw (request_internal_parts cfg wire u asker start size hops v s within)
        (elim (Bool-cases (may_request cfg u size hops)) [
          | inl t ↦ rw t (
              finish-Keeps _ _ (
                pick-PickOk cfg u v s asker start (start + size) _ (omega arith) within (
                  omega (
                    arith,
                    may_request-size cfg wire u asker start size hops v s within t,
                    s.payload,
                  ))))
          | inr t ↦ rw t (refused-Keeps u asker start (start + size))
        ])
