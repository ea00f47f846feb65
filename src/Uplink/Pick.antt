-- ===== src/Uplink/Pick.antt =====
-- What `uplink_requestInternal` picks in its critical section, and the queue once that is done.
use dnbd.Base.{
  ℕ, ◌+◌, ◌%◌, ◌^◌, ◌<◌, ◌≤◌, ◌≡◌, refl, subst, Bool, true, false, Option, none, some, List, [],
  ◌∷◌, ◌++◌, All, arith, length, leb, Bool-cases, inl, inr,
}
use dnbd.Image.{align_down, u64}
use dnbd.Uplink.Defs.{Config, Entry, Uplink, u32, uplink_max_queue, uplink_max_clients_per_request}
use dnbd.Uplink.Entries.{find_range}
use dnbd.Uplink.Request.{Asker, Pick, new_entry, request_end, may_attach, pick}
use dnbd.Uplink.Valid.{EntryIsValid, IsValid, Found, find_range-Found, All-right}
use dnbd.Uplink.Extend.{request_end_bounds}

-- What the configuration and the image are assumed to be: sizes that fit their types, an image size
-- that is a whole number of blocks, and handles that do not run out.
pub record IsSane (cfg : Config) (u : Uplink) : Type 0 where
  pub min_request : cfg.min_request_size < u32
  pub payload : cfg.max_payload ≤ 2 ^ 31
  pub prefetch : cfg.max_prefetch ≤ 2 ^ 31
  pub size_small : u.virtual_filesize ≤ 2 ^ 62
  pub size_aligned : u.virtual_filesize % 4096 ≡ 0
  pub handles : u.queue_id + 2 < u64

-- How the pick lies in the old queue.
abbrev pub Lies : Uplink → Pick → Bool → Type 0
Lies u p true =
    (p.before ≡ u.queue)
    × (p.behind ≡ [])
    × (p.entry.clients ≡ [])
    × (p.entry.handle ≡ u.queue_id + 1)
    × (u.queue_len < uplink_max_queue)
Lies u p false = u.queue ≡ p.before ++ (p.entry ∷ p.behind)

abbrev pub HasRoom : Asker → Entry → Type 0
HasRoom none e = Unit {0}
HasRoom (some a) e = length e.clients < uplink_max_clients_per_request

pub record IsPick (u : Uplink) (asker : Asker) (start end : ℕ) (p : Pick) : Type 0 where
  pub lies : Lies u p p.is_new
  pub valid : EntryIsValid p.entry
  pub from_le : p.entry.from ≤ start
  pub le_to : end ≤ p.entry.to
  pub room : HasRoom asker p.entry

abbrev pub PickOk : Uplink → Asker → ℕ → ℕ → Option Pick → Type 0
PickOk u asker start end none = Unit {0}
PickOk u asker start end (some p) = IsPick u asker start end p

module _ (cfg : Config) (u : Uplink) (v : IsValid u) (s : IsSane cfg u) (asker : Asker)
    (start end hops : ℕ) (ordered : start ≤ end) (within : end ≤ u.virtual_filesize)
    (short : end < align_down start + u32) where
  abbrev made : Pick
  made = record {
    before = u.queue;
    entry = new_entry u (align_down start) (request_end cfg u asker (align_down start) end) hops;
    behind = [];
    is_new = true;
  }

  room-nil : (a : Asker) (e : Entry) → e.clients ≡ [] → HasRoom a e
  room-nil none e q = tt
  room-nil (some a) e q = rw q (omega arith)

  made-IsPick : u.queue_len < uplink_max_queue → IsPick u asker start end made
  unfolding new_entry
  made-IsPick free =
      let b =
        request_end_bounds cfg u asker (align_down start) end (omega arith) within s.size_small
          s.size_aligned s.min_request short in
      record {
        lies = (refl, refl, refl, omega (arith, s.handles), free);
        valid = record {
          covered = tt;
          few = omega arith;
          from_aligned = omega arith;
          to_aligned = b.2;
          ordered = omega (arith, b.0);
        };
        from_le = omega arith;
        le_to = b.0;
        room = room-nil asker made.entry refl;
      }

  may_attach-HasRoom : (a : Asker) (e : Entry) → may_attach a e start end hops ≡ true → HasRoom a e
  unfolding may_attach
  may_attach-HasRoom none e t = tt
  may_attach-HasRoom (some a) e t = ground arith

  picked :
      (r : Option (List Entry × Entry × List Entry))
      → find_range u.queue start end ≡ r
      → Found u.queue start end r
      → PickOk u asker start end (pick cfg u asker start end hops)
  unfolding pick
  picked none e f = elim (Bool-cases (leb uplink_max_queue u.queue_len)) [
    | inl full ↦ rw (e, pick) (rw full tt)
    | inr free ↦ rw (e, pick) (rw free (made-IsPick (ground arith)))
  ]
  picked (some (before, x, behind)) e f = elim (Bool-cases (may_attach asker x start end hops)) [
    | inl t ↦
        rw (e, pick)
          (rw t (record {
            lies = f.0;
            valid =
                (All-right EntryIsValid before (x ∷ behind)
                  (subst (All EntryIsValid) f.0 v.entries)).0;
            from_le = f.1;
            le_to = f.2;
            room = may_attach-HasRoom asker x t;
          }))
    | inr t ↦ rw (e, pick) (rw t tt)
  ]

  pub pick-PickOk : PickOk u asker start end (pick cfg u asker start end hops)
  pick-PickOk = picked (find_range u.queue start end) refl (find_range-Found u.queue start end)
