-- ===== src/Uplink/Reply.antt =====
-- What ends a request: the reply from the uplink (`handleReceive` of src/server/uplink.c, from the
-- lookup of the entry to the callbacks), a client that goes away (`uplink_removeEntry`), and the end of
-- the uplink (`cancelAllRequests`). The idle time and the replication index are left out.
use dnbd.Base.{
  ℕ, zero, suc, ◌+◌, ◌-◌, ◌%◌, ◌^◌, length, get_or, Bool, false, ◌&&◌, Option, none, some, List, [],
  ◌∷◌, ◌++◌, ltb, leb, ◌==◌, if◌then◌else◌,
}
use dnbd.Uplink.Defs.{Client, Entry, Uplink, server_uplink_queuelen_thres}

-- A call of a client's callback. `at` is where its data begins in `recvBuffer`, `none` for NULL.
pub record Answer : Type 0 where
  pub owner : ℕ
  pub callback : ℕ
  pub handle : ℕ
  pub from : ℕ
  pub length : ℕ
  pub at : Option ℕ

-- The `n` bytes of a file, or of a buffer, from `pos` on.
unfoldable pub read_file : (ℕ → ℕ) → ℕ → ℕ → List ℕ
read_file file pos zero = []
read_file file pos (suc n) = file pos ∷ read_file file (pos + 1) n

-- The data that the callback finds; `buffer` is `recvBuffer`.
unfoldable pub data_of : (ℕ → ℕ) → Answer → Option (List ℕ)
unfolding read_file
data_of buffer a = elim a.at [ none ↦ none | some k ↦ some (read_file buffer k a.length) ]

unfoldable pub data_answer : ℕ → Client → Answer
data_answer start c = record {
  owner = c.owner;
  callback = c.callback;
  handle = c.handle;
  from = c.from;
  length = (c.to - c.from) % 2 ^ 32;
  at = some (c.from - start);
}

unfoldable pub failed_answer : Client → Answer
failed_answer c = record {
  owner = c.owner;
  callback = c.callback;
  handle = c.handle;
  from = 0;
  length = 0;
  at = none;
}

unfoldable pub find_handle : List Entry → ℕ → Option (List Entry × Entry × List Entry)
find_handle [] handle = none
find_handle (e ∷ es) handle =
    let further : Option (List Entry × Entry × List Entry) = elim (find_handle es handle) [
      | none ↦ none
      | some (before, found, behind) ↦ some (e ∷ before, found, behind)
    ] in
    if e.handle == handle then some ([], e, es) else further

-- The loop over the clients; `none` when its assertion fails.
unfoldable pub deliver : ℕ → ℕ → List Client → Option (List Answer)
unfolding data_answer
deliver start end [] = some []
deliver start end (c ∷ cs) =
    let rest = deliver start end cs in
    if leb start c.from && leb c.to end
    then elim rest [ none ↦ none | some answers ↦ some (data_answer start c ∷ answers) ]
    else none

-- `problem.queue` falls when the queue is short.
abbrev pub queue_problem : Uplink → ℕ → Bool
queue_problem u n = if ltb n server_uplink_queuelen_thres then false else u.problem_queue

-- The queue without the entry that was answered.
abbrev pub taken : Uplink → List Entry → Uplink
taken u queue = record u {
  queue = queue;
  queue_len = u.queue_len - 1;
  problem_queue = queue_problem u (u.queue_len - 1);
}

-- The second section under the queue's lock, and the callbacks behind it.
unfoldable pub finish_reply :
    ℕ → ℕ → Option (List Entry × Entry × List Entry) → Uplink → Option (Uplink × List Answer)
unfolding deliver
finish_reply start end none u = some (record u { problem_queue = queue_problem u u.queue_len }, [])
finish_reply start end (some (before, e, behind)) u = elim (deliver start end e.clients) [
  | none ↦ none
  | some answers ↦ some (taken u (before ++ behind), answers)
]

-- The entry of a reply was found or not, and still stands where it was when the data is on disk.
unfoldable pub reply_to :
    Option (List Entry × Entry × List Entry) → Uplink → Option (Uplink × List Answer)
unfolding finish_reply
reply_to none u = some (u, [])
reply_to (some (before, e, behind)) u = finish_reply e.from e.to (some (before, e, behind)) u

-- A block reply with a handle.
unfoldable pub receive : ℕ → Uplink → Option (Uplink × List Answer)
unfolding find_handle reply_to
receive handle u = reply_to (find_handle u.queue handle) u

-- `sock_recv` of the payload, whose length is the size that the reply announces, into `recvBuffer`: what
-- is behind the payload stays as it was.
unfoldable pub receive_into : List ℕ → (ℕ → ℕ) → ℕ → ℕ
receive_into payload buffer k = if ltb k (length payload) then get_or payload k 0 else buffer k

-- The payload is received and the reply handled. A length other than that of the entry's range is only
-- logged.
unfoldable pub receive_block :
    List ℕ → (ℕ → ℕ) → ℕ → Uplink → (ℕ → ℕ) × Option (Uplink × List Answer)
unfolding receive receive_into
receive_block payload buffer handle u = (receive_into payload buffer, receive handle u)

abbrev pub is_of : ℕ → ℕ → Client → Bool
is_of owner callback c = (c.owner == owner) && (c.callback == callback)

-- The inner loop of `uplink_removeEntry`: the clients that stay, and the callbacks.
unfoldable pub strip : ℕ → ℕ → List Client → List Client × List Answer
strip owner callback [] = ([], [])
strip owner callback (c ∷ cs) =
    let rest = strip owner callback cs in
    if is_of owner callback c then (rest.0, failed_answer c ∷ rest.1) else (c ∷ rest.0, rest.1)

unfoldable pub strip_all : ℕ → ℕ → List Entry → List Entry × List Answer
unfolding strip
strip_all owner callback [] = ([], [])
strip_all owner callback (e ∷ es) =
    let here = strip owner callback e.clients in
    let rest = strip_all owner callback es in
    (record e { clients = here.0 } ∷ rest.0, here.1 ++ rest.1)

-- `uplink_removeEntry`
unfoldable pub remove_entry : ℕ → ℕ → Uplink → Uplink × List Answer
unfolding strip_all
remove_entry owner callback u =
    let rest = strip_all owner callback u.queue in (record u { queue = rest.0 }, rest.1)

abbrev pub fail_clients : List Client → List Answer
fail_clients [] = []
fail_clients (c ∷ cs) = failed_answer c ∷ fail_clients cs

abbrev pub fail_entries : List Entry → List Answer
fail_entries [] = []
fail_entries (e ∷ es) = fail_clients e.clients ++ fail_entries es

-- `cancelAllRequests`
unfoldable pub cancel_all : Uplink → Uplink × List Answer
cancel_all u = (record u { queue = []; queue_len = 0; problem_queue = false }, fail_entries u.queue)
