-- ===== src/Uplink/Resend.antt =====
-- Sending what waits in the queue: `sendQueuedRequests` of src/server/uplink.c. Requests are collected in
-- an array of 125, which is sent when it is full and at the end.
use dnbd.Base.{
  ℕ, suc, ◌≤◌, ◌<◌, ◌≡◌, refl, sym, ap, ◌∙◌, Bool, true, false, ◌&&◌, not, List, [], ◌∷◌, ◌++◌,
  length, length-append, ◌==◌, if◌then◌else◌, All, All-append, Bool-cases, inl, inr, arith,
}
use mathlib.Core.List.{append-nil, append_assoc}
use dnbd.Uplink.Defs.{Entry, Uplink, BlockRequest}
use dnbd.Uplink.Request.{block_request}

-- `MAX_RESEND_BATCH`
abbrev pub max_resend_batch : ℕ
max_resend_batch = 125

-- The variables of the loop: the queue, the arrays handed to the socket, the array that is left, and
-- whether each send was taken.
pub record Resend : Type 0 where
  pub queue : List Entry
  pub batches : List (List BlockRequest)
  pub left : List BlockRequest
  pub ok : Bool

abbrev pub header_of : Uplink → Entry → BlockRequest
header_of u e = block_request u e e.hop_count

-- The loop, with the array so far. `takes` says whether `sock_sendAll` sends an array whole.
unfoldable pub resend :
    (List BlockRequest → Bool) → Bool → Uplink → List Entry → List BlockRequest → Resend
resend takes new_only u [] batch = record { queue = []; batches = []; left = batch; ok = true }
resend takes new_only u (e ∷ es) batch =
    let skip = new_only && e.sent in
    let batch' = batch ++ (header_of u e ∷ []) in
    let is_full = length batch' == max_resend_batch in
    let rest =
      resend takes new_only u es (if skip then batch else if is_full then [] else batch') in
    let marked = record e { sent = true } in
    if skip
    then record rest { queue = e ∷ rest.queue }
    else if not is_full
    then record rest { queue = marked ∷ rest.queue }
    else if u.connected && takes batch'
    then record rest { queue = marked ∷ rest.queue; batches = batch' ∷ rest.batches }
    else record {
      queue = marked ∷ es;
      batches = if u.connected then batch' ∷ [] else [];
      left = [];
      ok = false;
    }

-- `sendQueuedRequests`: the uplink, and the arrays handed to the socket.
unfoldable pub send_queued_requests :
    (List BlockRequest → Bool) → Bool → Uplink → Uplink × List (List BlockRequest)
unfolding resend
send_queued_requests takes new_only u =
    let r = resend takes new_only u u.queue [] in
    let u' = record u {
      queue = r.queue;
      problem_uplink = if r.ok then u.problem_uplink else true;
    } in
    if not (length r.left == 0) && u.connected
    then (record u' { problem_uplink = not (takes r.left) }, r.batches ++ (r.left ∷ []))
    else (u', r.batches)

-- The headers of the entries that are due, in the order of the queue, and the queue with these marked.
unfoldable pub due : Bool → Uplink → List Entry → List BlockRequest
due new_only u [] = []
due new_only u (e ∷ es) =
    let rest = due new_only u es in if new_only && e.sent then rest else header_of u e ∷ rest

unfoldable pub all_sent : List Entry → List Entry
all_sent [] = []
all_sent (e ∷ es) = record e { sent = true } ∷ all_sent es

abbrev pub flat : List (List BlockRequest) → List BlockRequest
flat [] = []
flat (b ∷ bs) = b ++ flat bs

abbrev pub Fits : List BlockRequest → Type 0
Fits b = length b ≤ max_resend_batch

resend-Fits :
    (takes : List BlockRequest → Bool) (new_only : Bool) (u : Uplink) (es : List Entry)
    (batch : List BlockRequest)
    → length batch < max_resend_batch
    → let r = resend takes new_only u es batch in
      All Fits r.batches × (length r.left < max_resend_batch)
unfolding resend block_request
resend-Fits takes new_only u [] batch h = (tt, h)
resend-Fits takes new_only u (e ∷ es) batch h =
    let batch' = batch ++ (header_of u e ∷ []) in
    let size : length batch' ≡ suc (length batch) =
      omega (arith, length-append batch (header_of u e ∷ [])) in
    elim (Bool-cases (new_only && e.sent)) [
      | inl t ↦ rw t (resend-Fits takes new_only u es batch h)
      | inr f ↦ elim (Bool-cases (length batch' == 125)) [
        | inr g ↦ rw (f, g) (resend-Fits takes new_only u es batch' (ground arith))
        | inl full ↦
            let rest = resend-Fits takes new_only u es [] (omega arith) in
            elim (Bool-cases (u.connected && takes batch')) [
              | inl t ↦ rw (f, full, t) ((omega arith, rest.0), rest.1)
              | inr n ↦ elim (Bool-cases u.connected) [
                | inl c ↦ rw (f, full, n, c) ((omega arith, tt), omega arith)
                | inr d ↦ rw (f, full, n, d) (tt, omega arith)
              ]
            ]
      ]
    ]

-- The socket takes all that it is given.
abbrev pub TakesAll : (List BlockRequest → Bool) → Type 0
TakesAll takes = (b : List BlockRequest) → takes b ≡ true

-- What the loop has sent and what is left are all headers that are due.
abbrev Complete :
    (List BlockRequest → Bool) → Bool → Uplink → List Entry → List BlockRequest → Type 0
Complete takes new_only u es batch =
    let r = resend takes new_only u es batch in
    (flat r.batches ++ r.left ≡ batch ++ due new_only u es)
    × (r.queue ≡ all_sent es)
    × (r.ok ≡ true)

resend-Complete :
    (takes : List BlockRequest → Bool) (new_only : Bool) (u : Uplink) (es : List Entry)
    (batch : List BlockRequest)
    → TakesAll takes
    → u.connected ≡ true
    → Complete takes new_only u es batch
unfolding resend due all_sent block_request
resend-Complete takes new_only u [] batch all c = (sym (append-nil batch), refl, refl)
resend-Complete takes new_only u (e ∷ es) batch all c =
    let batch' = batch ++ (header_of u e ∷ []) in
    let longer = append_assoc batch (header_of u e ∷ []) (due new_only u es) in
    elim (Bool-cases (new_only && e.sent)) [
      | inl t ↦
          let rest = resend-Complete takes new_only u es batch all c in
          let was_sent : e.sent ≡ true = ground arith in
          rw t (
            rest.0,
            ap (λ b. record e { sent = b } ∷ (resend takes new_only u es batch).queue) was_sent
                ∙ ap (λ q. record e { sent = true } ∷ q) rest.1,
            rest.2,
          )
      | inr f ↦ elim (Bool-cases (length batch' == 125)) [
        | inr g ↦
            let rest = resend-Complete takes new_only u es batch' all c in
            rw (f, g) (rest.0 ∙ longer, ap (λ q. record e { sent = true } ∷ q) rest.1, rest.2)
        | inl full ↦
            let rest = resend-Complete takes new_only u es [] all c in
            let goes : (u.connected && takes batch') ≡ true = rw (c, all batch') refl in
            rw (f, full, goes)
              (
                append_assoc batch' (flat (resend takes new_only u es []).batches)
                      (resend takes new_only u es []).left
                    ∙ ap (λ l. batch' ++ l) rest.0
                    ∙ longer,
                ap (λ q. record e { sent = true } ∷ q) rest.1,
                rest.2,
              )
      ]
    ]

flat-append : (bs cs : List (List BlockRequest)) → flat (bs ++ cs) ≡ flat bs ++ flat cs
flat-append [] cs = refl
flat-append (b ∷ bs) cs =
    ap (λ l. b ++ l) (flat-append bs cs) ∙ sym (append_assoc b (flat bs) (flat cs))

-- What a call of sendQueuedRequests leaves: arrays of at most 125 requests; and if there is a connection
-- that takes all of them, just the requests that were due were sent, each once and in the order of the
-- queue, and all entries of the queue are then marked as sent.
pub send_queued_requests_lem :
    (takes : List BlockRequest → Bool) (new_only : Bool) (u : Uplink)
    → let r = send_queued_requests takes new_only u in
      All Fits r.1
      × (TakesAll takes
          → u.connected ≡ true
          → (flat r.1 ≡ due new_only u u.queue) × (r.0.queue ≡ all_sent u.queue))
unfolding send_queued_requests
send_queued_requests_lem takes new_only u =
    let r = resend takes new_only u u.queue [] in
    let fits = resend-Fits takes new_only u u.queue [] (omega arith) in
    elim (Bool-cases (not (length r.left == 0) && u.connected)) [
      | inl t ↦ rw t (
        All-append Fits r.batches (r.left ∷ []) fits.0 (omega (arith, fits.1), tt),
        λ all c.
            let complete = resend-Complete takes new_only u u.queue [] all c in
            (
              flat-append r.batches (r.left ∷ [])
                  ∙ ap (λ l. flat r.batches ++ l) (append-nil r.left)
                  ∙ complete.0,
              complete.1,
            ),
      )
      | inr f ↦ rw f (
        fits.0,
        λ all c.
            let complete = resend-Complete takes new_only u u.queue [] all c in
            let empty : r.left ≡ [] = no_length r.left (nothing_left c f) in
            (
              sym (append-nil (flat r.batches))
                  ∙ ap (λ l. flat r.batches ++ l) (sym empty)
                  ∙ complete.0,
              complete.1,
            ),
      )
    ]
  where
    no_length : (l : List BlockRequest) → length l ≡ 0 → l ≡ []
    no_length [] e = refl
    no_length (x ∷ l) e = absurd (omega arith)

    nothing_left : {n : ℕ} → u.connected ≡ true → (not (n == 0) && u.connected) ≡ false → n ≡ 0
    nothing_left c f = ground arith
