-- ===== src/Keys/Records.antt =====
-- The sorting of the key records in wallet/bdb/keys.go.
use go_electrum_client.Prelude.{
  some_injective, ℕ, ◌≤◌, ◌<◌, ◌≡◌, ◌∙◌, refl, sym, ap, inl, inr, Bool, true, ◌&&◌, none, some,
  List, [], ◌∷◌, leb, ltb, arith, Bool-cases, Option-cases,
}
use go_electrum_client.Prelude.Counts.{count}
use go_electrum_client.Keys.{
  KeyChange, is_same, KeyRec, insert_rec, sort_recs, of_purpose, last_rec,
}

count-insert_rec :
    (f : KeyRec → Bool) (r : KeyRec) (l : List KeyRec) → count f (insert_rec r l) ≡ count f (r ∷ l)
unfolding insert_rec
count-insert_rec f r [] = refl
count-insert_rec f r (x ∷ l) = elim (Bool-cases (leb r.key_index x.key_index)) [
  | inl le ↦ ground arith
  | inr gt ↦ ground (arith, count-insert_rec f r l)
]

-- Sorting keeps every record.
pub count-sort_recs : (f : KeyRec → Bool) (l : List KeyRec) → count f (sort_recs l) ≡ count f l
unfolding sort_recs
count-sort_recs f [] = refl
count-sort_recs f (r ∷ l) = count-insert_rec f r (sort_recs l) ∙ ground (arith, count-sort_recs f l)

abbrev pub AllFrom : ℕ → List KeyRec → Type 0
AllFrom k [] = Unit {0}
AllFrom k (r ∷ l) = (k ≤ r.key_index) × AllFrom k l

abbrev pub Ascending : List KeyRec → Type 0
Ascending [] = Unit {0}
Ascending (r ∷ l) = AllFrom r.key_index l × Ascending l

AllFrom-insert_rec :
    (k : ℕ) (r : KeyRec) (l : List KeyRec)
    → k ≤ r.key_index
    → AllFrom k l
    → AllFrom k (insert_rec r l)
unfolding insert_rec
AllFrom-insert_rec k r [] le a = (le, tt)
AllFrom-insert_rec k r (x ∷ l) le a = elim (Bool-cases (leb r.key_index x.key_index)) [
  | inl below ↦ rw (below, AllFrom) (le, a)
  | inr above ↦ rw (above, AllFrom) (a.0, AllFrom-insert_rec k r l le a.1)
]

AllFrom-mono : (k j : ℕ) (l : List KeyRec) → k ≤ j → AllFrom j l → AllFrom k l
AllFrom-mono k j [] le a = tt
AllFrom-mono k j (r ∷ l) le a = (omega (arith, a.0), AllFrom-mono k j l le a.1)

Ascending-insert_rec : (r : KeyRec) (l : List KeyRec) → Ascending l → Ascending (insert_rec r l)
unfolding insert_rec
Ascending-insert_rec r [] a = (tt, tt)
Ascending-insert_rec r (x ∷ l) a = elim (Bool-cases (leb r.key_index x.key_index)) [
  | inl below ↦
      let le : r.key_index ≤ x.key_index = ground arith in
      rw (below, Ascending) ((le, AllFrom-mono r.key_index x.key_index l le a.0), a)
  | inr above ↦
      rw (above, Ascending)
        (AllFrom-insert_rec x.key_index r l (ground arith) a.0, Ascending-insert_rec r l a.1)
]

pub sort_recs-Ascending : (l : List KeyRec) → Ascending (sort_recs l)
unfolding sort_recs
sort_recs-Ascending [] = tt
sort_recs-Ascending (r ∷ l) = Ascending-insert_rec r (sort_recs l) (sort_recs-Ascending l)

AllFrom-of_purpose :
    (k : ℕ) (p : KeyChange) (l : List KeyRec) → AllFrom k l → AllFrom k (of_purpose p l)
unfolding of_purpose
AllFrom-of_purpose k p [] a = tt
AllFrom-of_purpose k p (r ∷ l) a = elim (Bool-cases (is_same r.purpose p)) [
  | inl same ↦ rw (same, AllFrom) (a.0, AllFrom-of_purpose k p l a.1)
  | inr other ↦ rw (other, AllFrom) (AllFrom-of_purpose k p l a.1)
]

pub of_purpose-Ascending :
    (p : KeyChange) (l : List KeyRec) → Ascending l → Ascending (of_purpose p l)
unfolding of_purpose
of_purpose-Ascending p [] a = tt
of_purpose-Ascending p (r ∷ l) a = elim (Bool-cases (is_same r.purpose p)) [
  | inl same ↦
      rw (same, Ascending) (AllFrom-of_purpose r.key_index p l a.0, of_purpose-Ascending p l a.1)
  | inr other ↦ rw (other, Ascending) (of_purpose-Ascending p l a.1)
]

pub count-of_purpose :
    (f : KeyRec → Bool) (p : KeyChange) (l : List KeyRec)
    → count f (of_purpose p l) ≡ count (λ r. is_same r.purpose p && f r) l
unfolding of_purpose
count-of_purpose f p [] = refl
count-of_purpose f p (r ∷ l) = elim (Bool-cases (is_same r.purpose p)) [
  | inl same ↦ ground (arith, count-of_purpose f p l)
  | inr other ↦ ground (arith, count-of_purpose f p l)
]

-- The last record has every property that a record from `k` on must have.
AllFrom-last_rec :
    (k : ℕ) (l : List KeyRec) (r : KeyRec) → AllFrom k l → last_rec l ≡ some r → k ≤ r.key_index
unfolding last_rec
AllFrom-last_rec k [] r a e = absurd cc
AllFrom-last_rec k (x ∷ l) r a e = elim (Option-cases (last_rec l)) [
  | inl ends ↦ ground arith
  | inr (y, q) ↦ let le = AllFrom-last_rec k l y a.1 q in ground arith
]

pub last_rec_cons : (x : KeyRec) (l : List KeyRec) → (r : KeyRec) × (last_rec (x ∷ l) ≡ some r)
unfolding last_rec
last_rec_cons x l = elim (Option-cases (last_rec l)) [
  | inl ends ↦ (x, rw (ends, last_rec) refl)
  | inr (y, q) ↦ (y, rw (q, last_rec) refl)
]

-- No record of an ascending list is above the last one.
pub last_rec-top :
    (l : List KeyRec) (r : KeyRec)
    → Ascending l
    → last_rec l ≡ some r
    → count (λ x. ltb r.key_index x.key_index) l ≡ 0
unfolding last_rec
last_rec-top [] r a e = refl
last_rec-top (x ∷ []) r a e = ground arith
last_rec-top (x ∷ y ∷ l) r a e =
    let (z, q) = last_rec_cons y l in
    let same : z ≡ r = some_injective (sym (rw (q, last_rec) refl) ∙ e) in
    let last : last_rec (y ∷ l) ≡ some r = q ∙ ap some same in
    let le = AllFrom-last_rec x.key_index (y ∷ l) r a.0 last in
    let rest = last_rec-top (y ∷ l) r a.1 last in ground arith

-- The last record is in the list.
pub last_rec-member :
    (f : KeyRec → Bool) (l : List KeyRec) (r : KeyRec)
    → last_rec l ≡ some r
    → f r ≡ true
    → 0 < count f l
unfolding last_rec
last_rec-member f [] r e t = absurd cc
last_rec-member f (x ∷ []) r e t =
    let same : x ≡ r = some_injective e in let holds : f x ≡ true = ap f same ∙ t in ground arith
last_rec-member f (x ∷ y ∷ l) r e t =
    let (z, q) = last_rec_cons y l in
    let same : z ≡ r = some_injective (sym (rw (q, last_rec) refl) ∙ e) in
    let rest = last_rec-member f (y ∷ l) r (q ∙ ap some same) t in ground arith

pub last_rec-none : (l : List KeyRec) → last_rec l ≡ none → [] ≡ l
last_rec-none [] e = refl
last_rec-none (x ∷ l) e = let (r, q) = last_rec_cons x l in absurd cc
