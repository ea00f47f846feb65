-- ===== src/Uplink/Enqueue.antt =====
-- The queue after the critical section of `uplink_requestInternal`.
use dnbd.Base.{
  min, ℕ, ◌+◌, ◌*◌, ◌%◌, ◌<◌, ◌≤◌, ◌≡◌, refl, sym, subst, true, false, ◌&&◌, Option, none, some,
  List, [], ◌∷◌, ◌++◌, All-append, arith, length, length-append, ltb, Bool-cases, inl, inr,
  if◌then◌else◌,
}
use mathlib.Core.List.{append-nil}
use dnbd.Image.{u64}
use dnbd.Uplink.Defs.{Config, Entry, Uplink, u32, server_uplink_queuelen_thres}
use dnbd.Uplink.Request.{
  Asker, Pick, prefetch_entry, may_prefetch, attach, entry_of, enqueue, extend_request,
}
use dnbd.Uplink.Valid.{EntryIsValid, IsValid, IsValid-queue, All-map, Distinct-insert}
use dnbd.Uplink.Insert.{replace-IsValid, insert_behind-IsValid}
use dnbd.Uplink.Extend.{extend_request_bounds, extend_request_aligned}
use dnbd.Uplink.Pick.{IsSane, Lies, HasRoom, IsPick}

-- The prefetch, if there is one, is a well formed entry with a new handle that nobody waits for.
abbrev pub PreOk : ℕ → Option Entry → Type 0
PreOk id none = Unit {0}
PreOk id (some e) = EntryIsValid e × (e.handle ≡ id + 1) × (e.clients ≡ [])

may_prefetch_end :
    (cfg : Config) (p : Pick) (owner end size hops pre_end : ℕ)
    → may_prefetch cfg p owner end size hops pre_end ≡ true
    → (end ≡ p.entry.to) × (end < pre_end)
unfolding may_prefetch
may_prefetch_end cfg p owner end size hops pre_end t = ground arith

pub prefetch_entry-PreOk :
    (cfg : Config) (u : Uplink) (p : Pick) (asker : Asker) (id end size hops : ℕ)
    → IsSane cfg u
    → EntryIsValid p.entry
    → end ≤ u.virtual_filesize
    → id + 1 < u64
    → PreOk id (prefetch_entry cfg u p asker id end size hops)
unfolding prefetch_entry
prefetch_entry-PreOk cfg u p none id end size hops s v within room = tt
prefetch_entry-PreOk cfg u p (some a) id end size hops s v within room =
    let wanted : ℕ = min ((size * 3) % u32) cfg.max_prefetch in
    let pre_end = extend_request cfg end end u.virtual_filesize wanted in
    let b =
      extend_request_bounds cfg end end u.virtual_filesize wanted (omega arith) within s.size_small
        s.size_aligned (omega arith) (omega arith) in
    let al =
      extend_request_aligned cfg end end u.virtual_filesize wanted (omega arith) within s.size_small
        s.size_aligned (omega arith) (omega arith) in
    elim (Bool-cases (may_prefetch cfg p a.0 end size hops pre_end)) [
      | inl t ↦
          let at = may_prefetch_end cfg p a.0 end size hops pre_end t in
          rw t (
            record {
              covered = tt;
              few = omega arith;
              from_aligned = omega (arith, at.0, v.to_aligned);
              to_aligned = al at.1;
              ordered = b.0;
            },
            omega arith,
            refl,
          )
      | inr t ↦ rw t tt
    ]

-- The last handle that was given when the entry is in the queue.
abbrev pub picked_id : Uplink → Pick → ℕ
picked_id u p = if p.is_new then (u.queue_id + 1) % u64 else u.queue_id

abbrev pub picked_len : Uplink → Pick → ℕ
picked_len u p = if p.is_new then u.queue_len + 1 else u.queue_len

-- The old queue with the new entry, if there is one.
abbrev staged : Uplink → Pick → Uplink
staged u p = record u {
  queue = p.before ++ (p.entry ∷ p.behind);
  queue_len = picked_len u p;
  queue_id = picked_id u p;
}

module _ (cfg : Config) (u : Uplink) (v : IsValid u) (s : IsSane cfg u) (asker : Asker)
    (start end : ℕ) where
  staged-new :
      (p : Pick) → p.is_new ≡ true → Lies u p true → EntryIsValid p.entry → IsValid (staged u p)
  staged-new p q l ev =
      let shape : p.before ++ (p.entry ∷ p.behind) ≡ u.queue ++ (p.entry ∷ []) = cc (l.0, l.1) in
      let ids : picked_id u p ≡ u.queue_id + 1 = ground (arith, s.handles) in
      IsValid-queue (staged u p) (u.queue ++ (p.entry ∷ [])) shape
        (ground (arith, v.counted, length-append u.queue (p.entry ∷ [])))
        (All-append _ u.queue _ v.entries (ev, tt))
        (Distinct-insert u.queue [] p.entry (rw append-nil v.distinct)
          (rw append-nil (All-map _ u.queue (λ x h e. omega (arith, h, e, l.3)) v.given)))
        (All-append _ u.queue _ (All-map _ u.queue (λ x h. omega (arith, h, ids)) v.given)
          (omega (arith, l.3, ids), tt))

  staged-old : (p : Pick) → p.is_new ≡ false → Lies u p false → IsValid (staged u p)
  staged-old p q l =
      let ids : picked_id u p ≡ u.queue_id = ground arith in
      IsValid-queue (staged u p) u.queue (sym l) (ground (arith, v.counted)) v.entries v.distinct
        (All-map _ u.queue (λ x h. omega (arith, h, ids)) v.given)

  staged-IsValid : (p : Pick) → IsPick u asker start end p → IsValid (staged u p)
  staged-IsValid p ok = elim (Bool-cases p.is_new) [
    | inl q ↦ staged-new p q (subst (Lies u p) q ok.lies) ok.valid
    | inr q ↦ staged-old p q (subst (Lies u p) q ok.lies)
  ]

  attach-EntryIsValid :
      (e : Entry) (a : Asker)
      → EntryIsValid e
      → e.from ≤ start
      → end ≤ e.to
      → HasRoom a e
      → EntryIsValid (attach a start end e)
  unfolding attach
  attach-EntryIsValid e none ev lo hi room = ev
  attach-EntryIsValid e (some (owner, callback, handle)) ev lo hi room = record {
    covered = All-append _ e.clients _ ev.covered ((lo, hi), tt);
    few = omega (
      arith,
      length-append e.clients (
          record { owner = owner; callback = callback; handle = handle; from = start; to = end }
          ∷ []),
    );
    from_aligned = ev.from_aligned;
    to_aligned = ev.to_aligned;
    ordered = ev.ordered;
  }

  handle-attach : (e : Entry) (a : Asker) → (attach a start end e).handle ≡ e.handle
  unfolding attach
  handle-attach e none = refl
  handle-attach e (some (owner, callback, handle)) = refl

  -- The middle of the queue, an entry and what stands behind it, with the client and the prefetch.
  insert-IsValid :
      (w : Uplink) (before behind : List Entry) (e : Entry) (pre : Option Entry)
      → IsValid (record w { queue = before ++ (e ∷ behind) })
      → EntryIsValid (attach asker start end e)
      → PreOk w.queue_id pre
      → IsValid (record w {
        queue = before ++ (attach asker start end e ∷ (entry_of pre ++ behind));
        queue_len = w.queue_len + length (entry_of pre);
        queue_id = elim pre [ none ↦ w.queue_id | some x ↦ x.handle ];
      })
  insert-IsValid w before behind e none wv av ok =
      let same : w.queue_len + 0 ≡ w.queue_len = omega arith in
      rw same
        (replace-IsValid w before behind e wv (attach asker start end e) (handle-attach e asker) av)
  insert-IsValid w before behind e (some x) wv av ok =
      insert_behind-IsValid w before behind (attach asker start end e)
        (replace-IsValid w before behind e wv (attach asker start end e) (handle-attach e asker) av)
        x ok.1 ok.0

  -- The critical section keeps the queue well formed.
  pub enqueue-IsValid :
      (p : Pick) (pre : Option Entry)
      → IsPick u asker start end p
      → PreOk (picked_id u p) pre
      → IsValid (enqueue u p pre asker start end)
  unfolding enqueue
  enqueue-IsValid p pre ok pok =
      let sv = staged-IsValid p ok in
      insert-IsValid
        (record (staged u p) {
          problem_queue =
              if p.is_new && ltb server_uplink_queuelen_thres (picked_len u p)
              then true
              else u.problem_queue;
        })
        p.before p.behind p.entry pre
        (record {
          counted = sv.counted;
          entries = sv.entries;
          distinct = sv.distinct;
          given = sv.given;
        })
        (attach-EntryIsValid p.entry asker ok.valid ok.from_le ok.le_to ok.room) pok
