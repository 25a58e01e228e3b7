-- ===== src/Datastore/Keyed/Changed.antt =====
-- What is found in a list of keyed elements after an element is put in or taken out.
use go_electrum_client.Prelude.{
  ◌≡◌, refl, sym, subst, ap, ◌∙◌, inl, inr, Bool, true, false, none, some, List, [], ◌∷◌, ◌++◌,
  arith, Bool-cases,
}
use go_electrum_client.Datastore.Keyed.{erase, find, Inserted}

module _ {V : Type 0} where
  find-middle_here :
      (t : V → Bool) (v : V) (l m : List V)
      → t v ≡ true
      → find t (l ++ m) ≡ none
      → find t (l ++ v ∷ m) ≡ some v
  unfolding find
  find-middle_here t v [] m e h = rw e refl
  find-middle_here t v (w ∷ l) m e h = elim (Bool-cases (t w)) [
    | inl here ↦ absurd (ground arith)
    | inr there ↦ rw there (find-middle_here t v l m e (rw (there, find) at h))
  ]

  find-middle_other :
      (t : V → Bool) (v : V) (l m : List V) → t v ≡ false → find t (l ++ v ∷ m) ≡ find t (l ++ m)
  unfolding find
  find-middle_other t v [] m e = rw e refl
  find-middle_other t v (w ∷ l) m e = elim (Bool-cases (t w)) [
    | inl here ↦ ground arith
    | inr there ↦ rw there (find-middle_other t v l m e)
  ]

  pub find-Inserted_here :
      (t : V → Bool) (v : V) (l m : List V)
      → Inserted v l m
      → t v ≡ true
      → find t l ≡ none
      → find t m ≡ some v
  find-Inserted_here t v l m put e h =
      subst (λ z. find t z ≡ some v) (sym put.now)
        (find-middle_here t v put.before put.after e (subst (λ z. find t z ≡ none) put.was h))

  pub find-Inserted_other :
      (t : V → Bool) (v : V) (l m : List V) → Inserted v l m → t v ≡ false → find t m ≡ find t l
  find-Inserted_other t v l m put e =
      ap (find t) put.now ∙ find-middle_other t v put.before put.after e ∙ ap (find t) (sym put.was)

  -- An element that is taken out is not looked for.
  pub find-erase_other :
      (t q : V → Bool) (l : List V)
      → ((v : V) → t v ≡ true → q v ≡ false)
      → find t (erase q l) ≡ find t l
  unfolding find erase
  find-erase_other t q [] other = refl
  find-erase_other t q (v ∷ l) other = elim (Bool-cases (q v)) [
    | inr stays ↦ rw stays (ground (arith, find-erase_other t q l other))
    | inl gone ↦ elim (Bool-cases (t v)) [
      | inl here ↦ absurd (cc (gone, other v here))
      | inr there ↦ rw (gone, there) (find-erase_other t q l other)
    ]
  ]
