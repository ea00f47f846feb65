-- ===== src/Images/Tests.antt =====
-- A server that loads one image, which a client then asks for.
use dnbd.Base.{ℕ, ◌+◌, ◌<◌, ◌≡◌, refl, true, false, some, List, [], ◌∷◌, ltb, arith}
use dnbd.Images.Defs.{
  Object, Images, add, by_id, get, release, give_back, is_bad_name, ends_in, starts_with, store,
  fill_slot, new_slots, put_slots, settle, add_to_list, find_id, hand_out, same_name, find_name,
  is_newer,
}
use dnbd.Images.Valid.{IsValid, places, count, drop_one}
use dnbd.Images.Search.{handed, Found}
use dnbd.Images.New.{with_added}
use dnbd.Images.Lookup.{Serves, NoWorse, get_lem}
use dnbd.Images.Runs.{
  Reachable, empty, Reachable-IsValid, release-lifetime, start, after, add_step, by_id_step,
}

abbrev ubuntu : Object
ubuntu = record { name = 117 ∷ 98 ∷ []; rid = 3; id = 0; users = 0; alive = false }

abbrev loaded : Images
loaded = (add ubuntu (empty 4)).1

abbrev held : Images
held = (by_id 1 loaded).1

abbrev holders : List ℕ
holders = handed ((by_id 1 loaded).0) (with_added 0 ((add ubuntu (empty 4)).0) [])

run : Reachable 4 held holders
run = after (after start (add_step ubuntu (omega arith))) (by_id_step 1)

holders_lem : holders ≡ 0 ∷ []
unfolding add settle add_to_list new_slots put_slots fill_slot by_id find_id hand_out store
holders_lem = refl

is_held : 0 < count 0 holders
unfolding count
is_held = rw holders_lem (omega arith)

Reachable-IsValid_example : IsValid held holders
Reachable-IsValid_example = Reachable-IsValid 4 run

release-lifetime_example :
    ((held.heap 0).alive ≡ true)
    × ((release 0 held ≡ some (give_back 0 held))
        × (((give_back 0 held).heap 0).alive
            ≡ ltb 0 (places 0 held.slots + count 0 (drop_one 0 holders))))
release-lifetime_example = release-lifetime 4 0 run is_held

is_good : is_bad_name (117 ∷ 98 ∷ []) ≡ false
unfolding is_bad_name ends_in starts_with
is_good = refl

get_lem_example :
    Found
      (λ a. (0 < places a loaded.slots) × Serves loaded.heap (117 ∷ 98 ∷ []) 0 a)
      ((get (117 ∷ 98 ∷ []) 0 loaded).0)
    × ((b : ℕ)
        → 0 < places b loaded.slots
        → Serves loaded.heap (117 ∷ 98 ∷ []) 0 b
        → NoWorse loaded.heap 0 b ((get (117 ∷ 98 ∷ []) 0 loaded).0))
get_lem_example = get_lem (117 ∷ 98 ∷ []) 0 loaded is_good

-- The client is given the image, of which revision 3 is the newest.
found : (get (117 ∷ 98 ∷ []) 0 loaded).0 ≡ some 0
unfolding add settle add_to_list new_slots put_slots fill_slot get hand_out store is_bad_name
    ends_in starts_with same_name find_name is_newer
found = refl
