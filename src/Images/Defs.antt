-- ===== src/Images/Defs.antt =====
-- The list of images of src/server/image.c: `_images`, `_num_images`, and the functions that hand
-- images out, take them back, list them and remove them. Every function runs under `imageListLock`.
use dnbd.Base.{
  ℕ, ◌+◌, ◌-◌, Bool, true, false, ◌&&◌, ◌||◌, not, Option, none, some, List, [], ◌∷◌, ◌++◌, ltb,
  leb, ◌==◌, if◌then◌else◌, length,
}

-- A `dnbd3_image_t` as far as the list reads it. `alive` is false for memory that was never allocated
-- or that was given to `image_free`, which frees it at once or when the image's uplink has ended.
pub record Object : Type 0 where
  pub name : List ℕ
  pub rid : ℕ
  pub id : ℕ
  pub users : ℕ
  pub alive : Bool

-- The memory is a function of the address; addresses from `next` on were never allocated. `slots` are
-- the first `_num_images` elements of `_images`, `id_counter` is `imgIdCounter`.
pub record Images : Type 0 where
  pub slots : List (Option ℕ)
  pub heap : ℕ → Object
  pub next : ℕ
  pub id_counter : ℕ
  pub max_images : ℕ

unfoldable pub store : (ℕ → Object) → ℕ → Object → ℕ → Object
store h a o b = if b == a then o else h b

-- `image->users++`
abbrev pub use_one : (ℕ → Object) → ℕ → ℕ → Object
use_one h a = store h a (record (h a) { users = (h a).users + 1 })

-- `image_free`
abbrev pub free : (ℕ → Object) → ℕ → ℕ → Object
free h a = store h a (record (h a) { alive = false })

unfoldable pub same_name : List ℕ → List ℕ → Bool
same_name [] [] = true
same_name [] (y ∷ ys) = false
same_name (x ∷ xs) [] = false
same_name (x ∷ xs) (y ∷ ys) = (x == y) && same_name xs ys

-- What a search in the list found, with one more user.
unfoldable pub hand_out : Images → Option ℕ → Option ℕ × Images
hand_out s none = (none, s)
hand_out s (some a) = (some a, record s { heap = use_one s.heap a })

unfoldable pub find_id : (ℕ → Object) → ℕ → List (Option ℕ) → Option ℕ
find_id h image_id [] = none
find_id h image_id (none ∷ slots) = find_id h image_id slots
find_id h image_id (some a ∷ slots) =
    if (h a).id == image_id then some a else find_id h image_id slots

-- `image_byId`
unfoldable pub by_id : ℕ → Images → Option ℕ × Images
by_id image_id s = hand_out s (find_id s.heap image_id s.slots)

-- `candidate == NULL || candidate->rid < image->rid`
unfoldable pub is_newer : (ℕ → Object) → Option ℕ → ℕ → Bool
is_newer h none a = true
is_newer h (some c) a = ltb (h c).rid (h a).rid

unfoldable pub find_name : (ℕ → Object) → List ℕ → ℕ → List (Option ℕ) → Option ℕ → Option ℕ
find_name h name revision [] candidate = candidate
find_name h name revision (none ∷ slots) candidate = find_name h name revision slots candidate
find_name h name revision (some a ∷ slots) candidate =
    if same_name (h a).name name
    then (if revision == (h a).rid
        then some a
        else find_name h name revision slots
            (if (revision == 0) && is_newer h candidate a then some a else candidate))
    else find_name h name revision slots candidate

-- The character '/'.
abbrev pub slash : ℕ
slash = 47

unfoldable pub ends_in : ℕ → List ℕ → Bool
ends_in c [] = false
ends_in c (x ∷ []) = x == c
ends_in c (x ∷ y ∷ ys) = ends_in c (y ∷ ys)

unfoldable pub starts_with : ℕ → List ℕ → Bool
starts_with c [] = false
starts_with c (x ∷ xs) = x == c

unfoldable pub is_bad_name : List ℕ → Bool
is_bad_name name = (length name == 0) || ends_in slash name || starts_with slash name

-- `image_get` up to the point where `ensureFdOpen` is read.
unfoldable pub get : List ℕ → ℕ → Images → Option ℕ × Images
get name revision s =
    if is_bad_name name then (none, s) else hand_out s (find_name s.heap name revision s.slots none)

unfoldable pub is_listed : ℕ → List (Option ℕ) → Bool
is_listed a [] = false
is_listed a (none ∷ slots) = is_listed a slots
is_listed a (some b ∷ slots) = if b == a then true else is_listed a slots

-- `image_lock`
unfoldable pub lock : ℕ → Images → Option ℕ × Images
lock a s = hand_out s (if is_listed a s.slots then some a else none)

-- `image_release` behind its assertion; `alive` falls where it calls `image_free`.
unfoldable pub give_back : ℕ → Images → Images
give_back a s =
    let o = s.heap a in
    let must_free = (o.users - 1 == 0) && not (is_listed a s.slots) in
    record s {
      heap =
          store s.heap a
            (record o { users = o.users - 1; alive = if must_free then false else o.alive });
    }

-- `image_release`; `none` when the assertion fails.
unfoldable pub release : ℕ → Images → Option Images
unfolding give_back
release a s = if (s.heap a).users == 0 then none else some (give_back a s)

-- The loops of `image_remove` and `image_tryFreeAll` run from the last slot to the first, and take a
-- slot off the end of the list when it is empty.
unfoldable pub keep_slot : Option ℕ → List (Option ℕ) → List (Option ℕ)
keep_slot none [] = []
keep_slot none (x ∷ slots) = none ∷ x ∷ slots
keep_slot (some a) slots = some a ∷ slots

unfoldable pub vacate : ℕ → List (Option ℕ) → List (Option ℕ)
vacate a [] = []
vacate a (none ∷ slots) = keep_slot none (vacate a slots)
vacate a (some b ∷ slots) = keep_slot (if b == a then none else some b) (vacate a slots)

-- `image_remove`
unfoldable pub remove : ℕ → Images → Images
remove a s =
    let o = s.heap a in
    let must_free = is_listed a s.slots && (o.users == 0) in
    record s {
      slots = vacate a s.slots;
      heap = store s.heap a (record o { alive = if must_free then false else o.alive });
    }

unfoldable pub free_unused : (ℕ → Object) → List (Option ℕ) → List (Option ℕ) × (ℕ → Object)
free_unused h [] = ([], h)
free_unused h (none ∷ slots) = let rest = free_unused h slots in (keep_slot none rest.0, rest.1)
free_unused h (some a ∷ slots) =
    let rest = free_unused h slots in
    if (rest.1 a).users == 0
    then (keep_slot none rest.0, free rest.1 a)
    else (keep_slot (some a) rest.0, rest.1)

-- `image_tryFreeAll`
unfoldable pub try_free_all : Images → Bool × Images
try_free_all s =
    let rest = free_unused s.heap s.slots in
    (length rest.0 == 0, record s { slots = rest.0; heap = rest.1 })

-- The first empty slot takes the image.
unfoldable pub fill_slot : ℕ → List (Option ℕ) → Option (List (Option ℕ))
fill_slot a [] = none
fill_slot a (none ∷ slots) = some (some a ∷ slots)
fill_slot a (some b ∷ slots) = elim (fill_slot a slots) [
  | none ↦ none
  | some rest ↦ some (some b ∷ rest)
]

-- The slots with a new image in the first empty one, or behind the last one unless the list is full.
unfoldable pub new_slots : ℕ → Images → Option (List (Option ℕ))
new_slots a s = elim (fill_slot a s.slots) [
  | some slots ↦ some slots
  | none ↦ if leb s.max_images (length s.slots) then none else some (s.slots ++ (some a ∷ []))
]

unfoldable pub put_slots : Option (List (Option ℕ)) → Images → Bool × Images
put_slots none s = (false, s)
put_slots (some slots) s = (true, record s { slots = slots })

-- `image_addToList`; the image takes the next number in any case.
unfoldable pub add_to_list : ℕ → Images → Bool × Images
unfolding put_slots new_slots
add_to_list a s =
    let image_id = s.id_counter + 1 in
    put_slots (new_slots a s) (record s {
      id_counter = image_id;
      heap = store s.heap a (record (s.heap a) { id = image_id });
    })

-- An image that found no slot is freed.
unfoldable pub settle : ℕ → Bool × Images → Option ℕ × Images
settle a (true, s) = (some a, s)
settle a (false, s) =
    (none, record s { heap = store s.heap a (record (s.heap a) { users = 0; alive = false }) })

-- A new image is allocated, then listed or freed: what `image_load` and the end of `image_get` do.
unfoldable pub add : Object → Images → Option ℕ × Images
unfolding settle add_to_list
add o s = settle s.next (
    add_to_list s.next
      (record s { heap = store s.heap s.next (record o { alive = true }); next = s.next + 1 }))

-- The end of a reload: the old image is released for the copy, if that found a slot.
unfoldable pub swap : ℕ → Option ℕ × Images → Option (ℕ × Images)
swap a (none, s) = some (a, s)
swap a (some copy, s) = elim (release a s) [ none ↦ none | some s' ↦ some (copy, s') ]

-- The branch of `image_get` for an image that is open but has a problem: it leaves the list, and a copy
-- of it with one user is listed in its place. `none` when an assertion fails.
unfoldable pub reload : ℕ → Images → Option (ℕ × Images)
unfolding swap remove
reload a s =
    let removed = remove a s in swap a (add (record (removed.heap a) { users = 1 }) removed)

-- What `image_get` does with the candidate that it found, when the caller wants the file open.
-- `usable`, `missing` and `has_fd` are what the file system answers: the file is open without a
-- problem, it is gone and is to be removed, its descriptor is still there.
unfoldable pub reopen : Bool → Bool → Bool → ℕ → Images → Option (ℕ × Images)
unfolding reload
reopen usable missing has_fd a s =
    if usable
    then some (a, s)
    else if missing
    then some (a, remove a s)
    else if has_fd
    then reload a s
    else some (a, s)
