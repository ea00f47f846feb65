-- ===== src/Uplink/Answers.antt =====
-- A reply answers the clients of its entry and leaves the rest of the queue.
use dnbd.Base.{ℕ, ◌-◌, ◌^◌, ◌<◌, ◌≡◌, ◌≢◌, Option, none, some, List, [], ◌∷◌, ◌++◌, All, length}
use dnbd.Uplink.Defs.{Client, Entry, Uplink}
use dnbd.Uplink.Valid.{IsValid}
use dnbd.Uplink.Reply.{Answer, data_answer, read_file, data_of}

-- The answers with data, one for each client, in order.
abbrev pub data_answers : ℕ → List Client → List Answer
data_answers start [] = []
data_answers start (c ∷ cs) = data_answer start c ∷ data_answers start cs

-- What `find_handle` finds.
abbrev pub Match : List Entry → ℕ → Option (List Entry × Entry × List Entry) → Type 0
Match q handle none = All (λ e. e.handle ≢ handle) q
Match q handle (some (before, e, behind)) = (q ≡ before ++ (e ∷ behind)) × (e.handle ≡ handle)

-- What a client of an entry is told when a reply comes: the numbers of its request and, if the payload is
-- the part of a file that the entry is for, the part of the file that the client is to get.
pub record IsAnswer (payload : List ℕ) (buffer : ℕ → ℕ) (e : Entry) (c : Client) (a : Answer)
    : Type 0 where
  pub owner_of : a.owner ≡ c.owner
  pub callback_of : a.callback ≡ c.callback
  pub handle_of : a.handle ≡ c.handle
  pub from_of : a.from ≡ c.from
  pub bytes :
      (file : ℕ → ℕ)
      → payload ≡ read_file file e.from (e.to - e.from)
      → length payload < 2 ^ 32
      → (a.length ≡ c.to - c.from)
        × (data_of buffer a ≡ some (read_file file c.from (c.to - c.from)))

-- One answer for each client, in order.
abbrev pub AllAnswered : List ℕ → (ℕ → ℕ) → Entry → List Client → List Answer → Type 0
AllAnswered payload buffer e [] [] = Unit
AllAnswered payload buffer e [] (a ∷ more) = ⊥
AllAnswered payload buffer e (c ∷ cs) [] = ⊥
AllAnswered payload buffer e (c ∷ cs) (a ∷ more) =
    IsAnswer payload buffer e c a × AllAnswered payload buffer e cs more

-- The two outcomes of a reply.
pub record Answered (payload : List ℕ) (buffer : ℕ → ℕ) (u : Uplink) (handle : ℕ)
    (r : Option (Uplink × List Answer)) : Type 0 where
  pub before : List Entry
  pub entry : Entry
  pub behind : List Entry
  pub was : u.queue ≡ before ++ (entry ∷ behind)
  pub handle_of : entry.handle ≡ handle
  pub state : Uplink
  pub answers : List Answer
  pub result : r ≡ some (state, answers)
  pub each : AllAnswered payload buffer entry entry.clients answers
  pub left : state.queue ≡ before ++ behind
  pub valid : IsValid state
