-- ===== src/Keys/LastIndex.antt =====
-- GetLastKeyIndex of wallet/bdb/keys.go.
use go_electrum_client.Prelude.{
  ℕ, ◌<◌, ◌≡◌, ◌∙◌, refl, sym, ap, inl, inr, Bool, true, false, ◌&&◌, not, none, some, List, [],
  ◌∷◌, arith, Bool-cases, Option-cases, length, ◌==◌, ==_iff, ltb,
}
use go_electrum_client.Prelude.Counts.{count, count_all}
use go_electrum_client.Prelude.Results.{Result, ok, err}
use go_electrum_client.Keys.{
  KeyChange, is_same, KeyRec, KeyError, bucket_not_found, no_key_records,
  no_key_records_for_purpose, Ops, sort_recs, of_purpose, last_rec, get_last_key_index,
  get_all_sorted,
}
use go_electrum_client.Keys.Records.{
  count-sort_recs, sort_recs-Ascending, of_purpose-Ascending, count-of_purpose, last_rec-top,
  last_rec-member, last_rec-none,
}

abbrev pub is_bool : Bool → Bool → Bool
is_bool true b = b
is_bool false b = not b

-- What GetLastKeyIndex may answer, by the records of the bucket.
abbrev pub LastIndex : Bool → List KeyRec → KeyChange → Result KeyError (ℕ × Bool) → Type 0
LastIndex up l p (ok (i, used)) =
    (count (λ r. is_same r.purpose p && ltb i r.key_index) l ≡ 0)
    × (0 < count (λ r. is_same r.purpose p && ((r.key_index == i) && is_bool r.used used)) l)
LastIndex up l p (err bucket_not_found) = up ≡ false
LastIndex up l p (err no_key_records) = length l ≡ 0
LastIndex up l p (err no_key_records_for_purpose) =
    (0 < length l) × (count (λ r. is_same r.purpose p) l ≡ 0)
LastIndex up l p _ = ⊥

length-sort_recs : (l : List KeyRec) → length (sort_recs l) ≡ length l
length-sort_recs l = sym (count_all (sort_recs l)) ∙ count-sort_recs (λ r. true) l ∙ count_all l

count_and_true : (f : KeyRec → Bool) (l : List KeyRec) → count (λ r. f r && true) l ≡ count f l
count_and_true f [] = refl
count_and_true f (r ∷ l) = ground (arith, count_and_true f l)

same_record : (r : KeyRec) → ((r.key_index == r.key_index) && is_bool r.used r.used) ≡ true
same_record r = ground arith

-- GetLastKeyIndex answers with the highest index of the purpose, and the use of a key that has it;
-- its errors say that the bucket is missing, that it is empty, or that it has no key of the
-- purpose. It does not panic.
pub get_last_key_index-LastIndex :
    {B : Type 0} (ops : Ops B) (b : B) (p : KeyChange)
    → LastIndex (ops.reachable b) (ops.for_each b) p (get_last_key_index ops b p)
unfolding get_last_key_index get_all_sorted
get_last_key_index-LastIndex {B} ops b p = elim (Bool-cases (ops.reachable b)) [
  | inr down ↦ rw (down, get_last_key_index, LastIndex) down
  | inl up ↦ elim (Bool-cases (length l == 0)) [
    | inl empty ↦
        rw (up, get_last_key_index, empty, LastIndex)
          (sym (length-sort_recs (ops.for_each b)) ∙ (==_iff (length l) 0).0 empty)
    | inr more ↦ elim (Option-cases (last_rec (of_purpose p l))) [
      | inl ends ↦ rw (up, get_last_key_index, more, ends, LastIndex) (not_empty more, no_such ends)
      | inr (r, e) ↦ rw (up, get_last_key_index, more, e, LastIndex) (on_top r e, among r e)
    ]
  ]
]
  where
    l : List KeyRec
    l = sort_recs (ops.for_each b)

    not_empty : (length l == 0) ≡ false → 0 < length (ops.for_each b)
    not_empty more = ground (arith, length-sort_recs (ops.for_each b))

    no_such :
        last_rec (of_purpose p l) ≡ none → count (λ r. is_same r.purpose p) (ops.for_each b) ≡ 0
    no_such ends =
        sym (count-sort_recs (λ r. is_same r.purpose p) (ops.for_each b))
        ∙ sym (count_and_true (λ r. is_same r.purpose p) l)
        ∙ sym (count-of_purpose (λ r. true) p l)
        ∙ ap (count (λ r. true)) (sym (last_rec-none (of_purpose p l) ends))

    on_top :
        (r : KeyRec)
        → last_rec (of_purpose p l) ≡ some r
        → count (λ x. is_same x.purpose p && ltb r.key_index x.key_index) (ops.for_each b) ≡ 0
    on_top r e =
        sym (
          count-sort_recs (λ x. is_same x.purpose p && ltb r.key_index x.key_index)
            (ops.for_each b))
        ∙ sym (count-of_purpose (λ x. ltb r.key_index x.key_index) p l)
        ∙ last_rec-top (of_purpose p l) r
            (of_purpose-Ascending p l (sort_recs-Ascending (ops.for_each b))) e

    among :
        (r : KeyRec)
        → last_rec (of_purpose p l) ≡ some r
        → 0
          < count
              (λ x. is_same x.purpose p && ((x.key_index == r.key_index) && is_bool x.used r.used))
              (ops.for_each b)
    among r e =
        let f : KeyRec → Bool = λ x. (x.key_index == r.key_index) && is_bool x.used r.used in
        let holds : f r ≡ true = same_record r in
        let here = last_rec-member f (of_purpose p l) r e holds in
        omega (
          arith,
          here,
          count-of_purpose f p l,
          count-sort_recs (λ x. is_same x.purpose p && f x) (ops.for_each b),
        )
