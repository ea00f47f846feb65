-- ===== src/Uplink/Insert.antt =====
-- Changes in the middle of a valid queue: an entry is replaced, or gets a new neighbour.
use dnbd.Base.{suc, ◌+◌, ◌≤◌, ◌≡◌, refl, sym, ap, List, [], ◌∷◌, ◌++◌, All, arith, length}
use dnbd.Uplink.Defs.{Entry, Uplink}
use dnbd.Uplink.Valid.{
  EntryIsValid, IsFresh, Distinct, IsValid, IsValid-queue, All-right, All-map, Distinct-replace,
}

length-middle : (xs ys : List Entry) (e : Entry) → length (xs ++ (e ∷ ys)) ≡ suc (length (xs ++ ys))
length-middle [] ys e = refl
length-middle (x ∷ xs) ys e = ap suc (length-middle xs ys e)

All-replace {κ} :
    (P : Entry → Type κ) (xs ys : List Entry) (e e' : Entry)
    → P e'
    → All P (xs ++ (e ∷ ys))
    → All P (xs ++ (e' ∷ ys))
All-replace P [] ys e e' p a = (p, a.1)
All-replace P (x ∷ xs) ys e e' p a = (a.0, All-replace P xs ys e e' p a.1)

All-behind {κ} :
    (P : Entry → Type κ) (xs ys : List Entry) (e x : Entry)
    → P x
    → All P (xs ++ (e ∷ ys))
    → All P (xs ++ (e ∷ x ∷ ys))
All-behind P [] ys e x p a = (a.0, (p, a.1))
All-behind P (y ∷ xs) ys e x p a = (a.0, All-behind P xs ys e x p a.1)

Distinct-behind :
    (xs ys : List Entry) (e x : Entry)
    → Distinct (xs ++ (e ∷ ys))
    → IsFresh x.handle (xs ++ (e ∷ ys))
    → Distinct (xs ++ (e ∷ x ∷ ys))
Distinct-behind [] ys e x d f = ((λ q. f.0 (sym q), d.0), (f.1, d.1))
Distinct-behind (y ∷ xs) ys e x d f =
    (All-behind _ xs ys e x (λ q. f.0 (sym q)) d.0, Distinct-behind xs ys e x d.1 f.1)

-- A state with the queue `q`.
abbrev pub with_queue : Uplink → List Entry → Uplink
with_queue w q = record w { queue = q }

module _ (w : Uplink) (before behind : List Entry) (e : Entry)
    (v : IsValid (with_queue w (before ++ (e ∷ behind)))) where
  pub replace-IsValid :
      (e' : Entry)
      → e'.handle ≡ e.handle
      → EntryIsValid e'
      → IsValid (with_queue w (before ++ (e' ∷ behind)))
  replace-IsValid e' q ev =
      IsValid-queue _ (before ++ (e' ∷ behind)) refl
        (omega (arith, v.counted, length-middle before behind e, length-middle before behind e'))
        (All-replace _ before behind e e' ev v.entries)
        (Distinct-replace before behind e e' q v.distinct)
        (All-replace _ before behind e e'
          (omega (arith, q, (All-right (λ x. x.handle ≤ w.queue_id) before (e ∷ behind) v.given).0))
          v.given)

  pub insert_behind-IsValid :
      (x : Entry)
      → x.handle ≡ w.queue_id + 1
      → EntryIsValid x
      → IsValid (record w {
        queue = before ++ (e ∷ x ∷ behind);
        queue_len = w.queue_len + 1;
        queue_id = x.handle;
      })
  insert_behind-IsValid x q xv =
      IsValid-queue _ (before ++ (e ∷ x ∷ behind)) refl
        (omega (
          arith,
          v.counted,
          length-middle before behind e,
          length-middle before (x ∷ behind) e,
          length-middle before behind x,
        ))
        (All-behind _ before behind e x xv v.entries)
        (Distinct-behind before behind e x v.distinct
          (All-map _ _ (λ y h r. omega (arith, h, r, q)) v.given))
        (All-behind _ before behind e x (omega arith)
          (All-map _ _ (λ y h. omega (arith, h, q)) v.given))
