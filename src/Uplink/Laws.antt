-- ===== src/Uplink/Laws.antt =====
-- `uplink_requestInternal` keeps the request queue well formed.
use dnbd.Base.{
  ℕ, ◌+◌, ◌%◌, ◌≤◌, ◌≡◌, refl, true, false, ◌&&◌, Option, none, some, arith, Bool-cases, inl, inr,
  if◌then◌else◌, bit_or,
}
use dnbd.Image.{u64}
use dnbd.Uplink.Defs.{Config, Entry, Uplink, hop_flag_prefetch}
use dnbd.Uplink.Request.{
  Asker, Pick, Wire, prefetch_entry, enqueue, pick, block_request, send_entry, send_pre, send_new,
  submit, refused, may_request, next_hops, request_internal, finish, is_own,
}
use dnbd.Uplink.Valid.{
  EntryIsValid, IsValid, All-mark_unsent, mark_unsent-Distinct, length-mark_unsent,
}
use dnbd.Uplink.Pick.{IsSane, IsPick, PickOk, pick-PickOk}
use dnbd.Uplink.Enqueue.{prefetch_entry-PreOk, picked_id, enqueue-IsValid}

unsent-EntryIsValid : (e : Entry) → EntryIsValid e → EntryIsValid (record e { sent = false })
unsent-EntryIsValid e v = record {
  covered = v.covered;
  few = v.few;
  from_aligned = v.from_aligned;
  to_aligned = v.to_aligned;
  ordered = v.ordered;
}

send_entry-IsValid :
    (wire : Wire) (hops : ℕ) (e : Entry) (u : Uplink)
    → IsValid u
    → IsValid (send_entry wire hops e u)
unfolding send_entry
send_entry-IsValid wire hops e u v =
    elim (Bool-cases (u.connected && wire (block_request u e hops))) [
      | inl t ↦ rw t v
      | inr t ↦ rw t (record {
        counted = omega (arith, v.counted, length-mark_unsent u.queue e.handle);
        entries = All-mark_unsent _ u.queue e.handle unsent-EntryIsValid v.entries;
        distinct = mark_unsent-Distinct u.queue e.handle v.distinct;
        given = All-mark_unsent _ u.queue e.handle (λ x h. h) v.given;
      })
    ]

send_pre-IsValid :
    (wire : Wire) (hops : ℕ) (pre : Option Entry) (u : Uplink)
    → IsValid u
    → IsValid (send_pre wire hops pre u)
unfolding send_pre
send_pre-IsValid wire hops none u v = v
send_pre-IsValid wire hops (some e) u v =
    send_entry-IsValid wire (bit_or hops hop_flag_prefetch) e u v

send_new-IsValid :
    (wire : Wire) (hops : ℕ) (p : Pick) (u : Uplink) → IsValid u → IsValid (send_new wire hops p u)
unfolding send_new
send_new-IsValid wire hops p u v = elim (Bool-cases p.is_new) [
  | inl t ↦ rw t (send_entry-IsValid wire hops p.entry u v)
  | inr t ↦ rw t v
]

module _ (cfg : Config) (wire : Wire) (u : Uplink) (asker : Asker) (start size hops : ℕ)
    (v : IsValid u) (s : IsSane cfg u) (within : start + size ≤ u.virtual_filesize) where
  no_wrap : (start + size) % u64 ≡ start + size
  no_wrap = omega (arith, s.size_small)

  submit-IsValid :
      (p : Pick) (hops' : ℕ)
      → IsPick u asker start (start + size) p
      → IsValid (submit cfg wire u asker p start (start + size) size hops').uplink
  unfolding submit
  submit-IsValid p hops' ok =
      let pre = prefetch_entry cfg u p asker (picked_id u p) (start + size) size hops' in
      send_pre-IsValid wire hops' pre
        (send_new wire hops' p (enqueue u p pre asker start (start + size)))
        (send_new-IsValid wire hops' p (enqueue u p pre asker start (start + size)) (
          enqueue-IsValid cfg u v s asker start (start + size) p pre ok (
            prefetch_entry-PreOk cfg u p asker (picked_id u p) (start + size) size hops' s ok.valid
              within (ground (arith, s.handles)))))

  refused-uplink : (refused u).uplink ≡ u
  unfolding refused
  refused-uplink = refl

  abbrev hops_up : ℕ
  hops_up = next_hops cfg hops (is_own asker)

  -- The call as its parts: refused, or an entry is picked and the request submitted.
  pub request_internal_parts : request_internal cfg wire u asker start size hops ≡ (
      if may_request cfg u size hops
      then finish cfg wire u asker start
          (start + size)
          size
          hops_up
          (pick cfg u asker start (start + size) hops_up)
      else refused u)
  unfolding request_internal
  request_internal_parts = rw no_wrap

  finish-IsValid :
      (o : Option Pick)
      → PickOk u asker start (start + size) o
      → IsValid (finish cfg wire u asker start (start + size) size hops_up o).uplink
  unfolding finish
  finish-IsValid none ok = v
  finish-IsValid (some p) ok = submit-IsValid p hops_up ok

  pub may_request-size : may_request cfg u size hops ≡ true → size ≤ cfg.max_payload
  unfolding may_request
  may_request-size t = ground arith

  -- `uplink_requestInternal`, for a range within the image: the queue stays well formed. Its length is
  -- counted right, no two entries have one handle, every waiting client's range lies within the range
  -- of its entry, no entry has more than 32 clients, and all ranges are at block borders.
  pub request_internal-IsValid : IsValid (request_internal cfg wire u asker start size hops).uplink
  request_internal-IsValid =
      rw request_internal_parts (elim (Bool-cases (may_request cfg u size hops)) [
        | inl t ↦ rw t (
            finish-IsValid _ (
              pick-PickOk cfg u v s asker start (start + size) hops_up (omega arith) within
                (omega (arith, may_request-size t, s.payload))))
        | inr t ↦ rw t (rw refused-uplink v)
      ])
