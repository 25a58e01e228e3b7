-- ===== src/Datastore/Keyed.antt =====
-- Lists of keyed elements: what the order of a store's keys leaves of a map.
pub mod Changed
use go_electrum_client.Prelude.{
  some_injective, suc, ◌⊎◌, ◌||◌, subst, ◌≤◌, ◌≡◌, refl, sym, ap, ◌∙◌, inl, inr, Bool, true, false,
  Option, none, some, List, [], ◌∷◌, ◌++◌, arith, if◌then◌else◌, Bool-cases, length,
}

module _ {V : Type 0} where
  -- The elements that a test does not take.
  unfoldable pub erase : (V → Bool) → List V → List V
  erase t [] = []
  erase t (v ∷ l) = let rest = erase t l in if t v then rest else v ∷ rest

  -- The first element that a test takes.
  unfoldable pub find : (V → Bool) → List V → Option V
  find t [] = none
  find t (v ∷ l) = let rest = find t l in if t v then some v else rest

  -- A list with `v` put somewhere into `l`.
  pub record Inserted (v : V) (l m : List V) : Type 0 where
    pub before : List V
    pub after : List V
    pub was : l ≡ before ++ after
    pub now : m ≡ before ++ v ∷ after

  pub length-erase : (t : V → Bool) (l : List V) → length (erase t l) ≤ length l
  unfolding erase
  length-erase t [] = omega arith
  length-erase t (v ∷ l) = ground (arith, length-erase t l)

  pub length-erase_found :
      (t : V → Bool) (l : List V) {v : V} → find t l ≡ some v → suc (length (erase t l)) ≤ length l
  unfolding erase find
  length-erase_found t [] e = absurd cc
  length-erase_found t (x ∷ l) {v} e = elim (Bool-cases (t x)) [
    | inl here ↦ ground (arith, length-erase t l)
    | inr there ↦ ground (arith, length-erase_found t l (rw (there, find) at e))
  ]

  pub erase-none : (t : V → Bool) (l : List V) → find t l ≡ none → erase t l ≡ l
  unfolding erase find
  erase-none t [] e = refl
  erase-none t (x ∷ l) e = elim (Bool-cases (t x)) [
    | inl here ↦ absurd (ground arith)
    | inr there ↦ ground (arith, erase-none t l (rw (there, find) at e))
  ]

  pub find-append :
      (t : V → Bool) (l m : List V)
      → find t (l ++ m) ≡ elim (find t l) [ none ↦ find t m | some v ↦ some v ]
  unfolding find
  find-append t [] m = refl
  find-append t (x ∷ l) m = elim (Bool-cases (t x)) [
    | inl here ↦ ground arith
    | inr there ↦ ground (arith, find-append t l m)
  ]

  pub erase-append : (t : V → Bool) (l m : List V) → erase t (l ++ m) ≡ erase t l ++ erase t m
  unfolding erase
  erase-append t [] m = refl
  erase-append t (x ∷ l) m = elim (Bool-cases (t x)) [
    | inl here ↦ ground (arith, erase-append t l m)
    | inr there ↦ ground (arith, erase-append t l m)
  ]

  pub find-erase_self : (t : V → Bool) (l : List V) → find t (erase t l) ≡ none
  unfolding erase find
  find-erase_self t [] = refl
  find-erase_self t (x ∷ l) = elim (Bool-cases (t x)) [
    | inl here ↦ ground (arith, find-erase_self t l)
    | inr there ↦ ground (arith, find-erase_self t l)
  ]

-- No element has the key of an earlier one.
abbrev pub Distinct : {V : Type 0} → (V → V → Bool) → List V → Type 0
Distinct same [] = Unit {0}
Distinct same (v ∷ l) = (find (same v) l ≡ none) × Distinct same l

abbrev pub All : {V : Type 0} → (V → Type 0) → List V → Type 0
All P [] = Unit {0}
All P (v ∷ l) = P v × All P l

abbrev pub In : {V : Type 0} → V → List V → Type 0
In v [] = ⊥
In v (w ∷ l) = (v ≡ w) ⊎ In v l

module _ {V : Type 0} where
  pub In-append_right : (v : V) (l m : List V) → In v m → In v (l ++ m)
  In-append_right v [] m h = h
  In-append_right v (w ∷ l) m h = inr (In-append_right v l m h)

  pub All-of_In : (P : V → Type 0) (l : List V) → ((v : V) → In v l → P v) → All P l
  All-of_In P [] h = tt
  All-of_In P (v ∷ l) h = (h v (inl refl), All-of_In P l (λ w i. h w (inr i)))

  pub All-In : (P : V → Type 0) (v : V) (l : List V) → All P l → In v l → P v
  All-In P v [] h i = absurd i
  All-In P v (w ∷ l) h (inl e) = subst P (sym e) h.0
  All-In P v (w ∷ l) h (inr i) = All-In P v l h.1 i

  pub erase-erase : (t q : V → Bool) (l : List V) → erase q (erase t l) ≡ erase (λ v. t v || q v) l
  unfolding erase
  erase-erase t q [] = refl
  erase-erase t q (v ∷ l) = elim (Bool-cases (t v)) [
    | inl yes_t ↦ ground (arith, erase-erase t q l)
    | inr not_t ↦ ground (arith, erase-erase t q l)
  ]

  -- A list is shorter without one of its elements.
  pub length-erase-In :
      (t : V → Bool) (v : V) (l : List V)
      → In v l
      → t v ≡ true
      → suc (length (erase t l)) ≤ length l
  unfolding erase
  length-erase-In t v [] i e = absurd i
  length-erase-In t v (w ∷ l) (inl same) e =
      let here : t w ≡ true = ap t (sym same) ∙ e in ground (arith, length-erase t l)
  length-erase-In t v (w ∷ l) (inr i) e = ground (arith, length-erase-In t v l i e)

  pub erase_nothing : (l : List V) → erase (λ v. false) l ≡ l
  unfolding erase
  erase_nothing [] = refl
  erase_nothing (v ∷ l) = ap (◌∷◌ v) (erase_nothing l)

  pub find-erase-none : (q t : V → Bool) (l : List V) → find q l ≡ none → find q (erase t l) ≡ none
  unfolding find erase
  find-erase-none q t [] e = refl
  find-erase-none q t (v ∷ l) e = elim (Bool-cases (q v)) [
    | inl here ↦ absurd (ground arith)
    | inr there ↦ elim (Bool-cases (t v)) [
      | inl gone ↦ rw gone (find-erase-none q t l (rw (there, find) at e))
      | inr stays ↦ rw stays (rw there (find-erase-none q t l (rw (there, find) at e)))
    ]
  ]

  pub Distinct-erase :
      (same : V → V → Bool) (t : V → Bool) (l : List V)
      → Distinct same l
      → Distinct same (erase t l)
  unfolding erase
  Distinct-erase same t [] d = tt
  Distinct-erase same t (v ∷ l) d = elim (Bool-cases (t v)) [
    | inl gone ↦ rw gone (Distinct-erase same t l d.1)
    | inr stays ↦ rw stays (find-erase-none (same v) t l d.0, Distinct-erase same t l d.1)
  ]

  pub All-erase : (P : V → Type 0) (t : V → Bool) (l : List V) → All P l → All P (erase t l)
  unfolding erase
  All-erase P t [] h = tt
  All-erase P t (v ∷ l) h = elim (Bool-cases (t v)) [
    | inl gone ↦ rw gone (All-erase P t l h.1)
    | inr stays ↦ rw stays (h.0, All-erase P t l h.1)
  ]

  All-middle : (P : V → Type 0) (v : V) (l m : List V) → P v → All P (l ++ m) → All P (l ++ v ∷ m)
  All-middle P v [] m p h = (p, h)
  All-middle P v (w ∷ l) m p h = (h.0, All-middle P v l m p h.1)

  pub All-Inserted :
      (P : V → Type 0) (v : V) (l m : List V) → Inserted v l m → P v → All P l → All P m
  All-Inserted P v l m put p h =
      subst (All P) (sym put.now) (All-middle P v put.before put.after p (subst (All P) put.was h))

  find-middle :
      (t : V → Bool) (v : V) (l m : List V)
      → t v ≡ false
      → find t (l ++ m) ≡ none
      → find t (l ++ v ∷ m) ≡ none
  unfolding find
  find-middle t v [] m e h = rw e h
  find-middle t v (w ∷ l) m e h = elim (Bool-cases (t w)) [
    | inl here ↦ absurd (ground arith)
    | inr there ↦ rw there (find-middle t v l m e (rw (there, find) at h))
  ]

  pub find-Inserted-none :
      (t : V → Bool) (v : V) (l m : List V)
      → Inserted v l m
      → t v ≡ false
      → find t l ≡ none
      → find t m ≡ none
  find-Inserted-none t v l m put e h =
      subst (λ z. find t z ≡ none) (sym put.now)
        (find-middle t v put.before put.after e (subst (λ z. find t z ≡ none) put.was h))

  pub All-map : (P Q : V → Type 0) (l : List V) → ((v : V) → P v → Q v) → All P l → All Q l
  All-map P Q [] f h = tt
  All-map P Q (v ∷ l) f h = (f v h.0, All-map P Q l f h.1)

  -- What `erase` leaves, the test does not take.
  pub All-erase_not : (t : V → Bool) (l : List V) → All (λ v. t v ≡ false) (erase t l)
  unfolding erase
  All-erase_not t [] = tt
  All-erase_not t (v ∷ l) = elim (Bool-cases (t v)) [
    | inl gone ↦ rw gone (All-erase_not t l)
    | inr stays ↦ rw stays (stays, All-erase_not t l)
  ]

  pub All-both :
      (P Q R : V → Type 0) (l : List V) → ((v : V) → P v → Q v → R v) → All P l → All Q l → All R l
  All-both P Q R [] f h k = tt
  All-both P Q R (v ∷ l) f h k = (f v h.0 k.0, All-both P Q R l f h.1 k.1)

  pub All-find :
      (P : V → Type 0) (t : V → Bool) (l : List V) (v : V)
      → All P l
      → find t l ≡ some v
      → P v × (t v ≡ true)
  unfolding find
  All-find P t [] v h e = absurd cc
  All-find P t (w ∷ l) v h e = elim (Bool-cases (t w)) [
    | inl here ↦
        let same : w ≡ v = some_injective (rw (here, find) at e) in
        (subst P same h.0, ap t (sym same) ∙ here)
    | inr there ↦ All-find P t l v h.1 (rw (there, find) at e)
  ]

  pub find-none_of_All : (t : V → Bool) (l : List V) → All (λ v. t v ≡ false) l → find t l ≡ none
  unfolding find
  find-none_of_All t [] h = refl
  find-none_of_All t (v ∷ l) h = rw h.0 (find-none_of_All t l h.1)

  pub All-of_find-none : (t : V → Bool) (l : List V) → find t l ≡ none → All (λ v. t v ≡ false) l
  unfolding find
  All-of_find-none t [] e = tt
  All-of_find-none t (v ∷ l) e = elim (Bool-cases (t v)) [
    | inl here ↦ absurd (ground arith)
    | inr there ↦ (there, All-of_find-none t l (rw (there, find) at e))
  ]
