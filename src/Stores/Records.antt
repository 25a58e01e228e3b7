-- ===== src/Stores/Records.antt =====
-- What wallet/bdb keeps: a bucket whose records are those of a list of elements, each under its key,
-- and how a put and a delete change that list.
pub mod Kept
use go_electrum_client.Prelude.{
  some_injective, ℕ, ◌≡◌, refl, sym, ap, ◌∙◌, inl, inr, Bool, true, false, Option, none, some, List,
  [], ◌∷◌, ◌++◌, arith, Bool-cases,
}
use go_electrum_client.Prelude.Bytes.{bytes_eq}
use go_electrum_client.Prelude.Results.{Result, ok, err, panic, ◌>>=◌}
use go_electrum_client.Datastore.Interface.{StoreError}
use go_electrum_client.Datastore.Keyed.{erase, find, Inserted, Distinct, All}
use go_electrum_client.Stores.{values, read_recs}
use go_electrum_client.Stores.Walks.{at, same_key, value_of}

-- How the elements of a store are recorded, and which may be.
pub record Recording (R V : Type 0) : Type 1 where
  pub key : V → List ℕ
  pub to_rec : V → R
  pub of_rec : R → Result StoreError V
  pub same : V → V → Bool
  pub Fits : V → Type 0
  pub reads_back : (v : V) → Fits v → of_rec (to_rec v) ≡ ok v
  pub same_key_lem : (v w : V) → Fits v → Fits w → bytes_eq (key v) (key w) ≡ same v w

module _ {R V : Type 0} (rec : Recording R V) where
  abbrev pub Held : List (List ℕ × R) → List V → Type 0
  Held [] [] = Unit {0}
  Held [] (v ∷ l) = ⊥
  Held (p ∷ es) [] = ⊥
  Held ((k, r) ∷ es) (v ∷ l) = (k ≡ rec.key v) × (r ≡ rec.to_rec v) × rec.Fits v × Held es l

  -- Reading the records gives the list.
  pub read_recs-Held :
      (es : List (List ℕ × R)) (l : List V) → Held es l → read_recs rec.of_rec (values es) ≡ ok l
  unfolding read_recs values
  read_recs-Held [] [] h = refl
  read_recs-Held [] (v ∷ l) h = absurd h
  read_recs-Held (p ∷ es) [] h = absurd h
  read_recs-Held ((k, r) ∷ es) (v ∷ l) h =
      rw (ap rec.of_rec h.1 ∙ rec.reads_back v h.2) (rw (read_recs-Held es l h.3) refl)

  pub at_same :
      (v w : V) (k : List ℕ)
      → rec.Fits v
      → rec.Fits w
      → k ≡ rec.key w
      → bytes_eq (rec.key v) k ≡ rec.same v w
  at_same v w k fv fw e = ap (bytes_eq (rec.key v)) e ∙ rec.same_key_lem v w fv fw

  pub Held-erase :
      (v : V) (es : List (List ℕ × R)) (l : List V)
      → rec.Fits v
      → Held es l
      → Held (erase (at (rec.key v)) es) (erase (rec.same v) l)
  unfolding erase
  Held-erase v [] [] fit h = tt
  Held-erase v [] (w ∷ l) fit h = absurd h
  Held-erase v (p ∷ es) [] fit h = absurd h
  Held-erase v ((k, r) ∷ es) (w ∷ l) fit h = elim (Bool-cases (rec.same v w)) [
    | inl same ↦ rw (at_same v w k fit h.2 h.0 ∙ same) (rw same (Held-erase v es l fit h.3))
    | inr other ↦
        rw (at_same v w k fit h.2 h.0 ∙ other) (rw other (h.0, h.1, h.2, Held-erase v es l fit h.3))
  ]

  -- An entry may be put anywhere.
  pub Held-insert :
      (k : List ℕ) (r : R) (v : V) (before after : List (List ℕ × R)) (l : List V)
      → k ≡ rec.key v
      → r ≡ rec.to_rec v
      → rec.Fits v
      → Held (before ++ after) l
      → (m : List V) × Inserted v l m × Held (before ++ (k, r) ∷ after) m
  Held-insert k r v [] after l e read fit h =
      (v ∷ l, record { before = []; after = l; was = refl; now = refl }, (e, read, fit, h))
  Held-insert k r v (p ∷ before) after [] e read fit h = absurd h
  Held-insert k r v ((j, q) ∷ before) after (w ∷ l) e read fit h =
      let (m, put, held) = Held-insert k r v before after l e read fit h.3 in
      (
        w ∷ m,
        record {
          before = w ∷ put.before;
          after = put.after;
          was = ap (◌∷◌ w) put.was;
          now = ap (◌∷◌ w) put.now;
        },
        (h.0, h.1, h.2, held),
      )

  none_at :
      (v : V) (es : List (List ℕ × R)) (l : List V)
      → rec.Fits v
      → Held es l
      → find (at (rec.key v)) es ≡ none
      → find (rec.same v) l ≡ none
  unfolding find
  none_at v [] [] fit h e = refl
  none_at v [] (w ∷ l) fit h e = absurd h
  none_at v (p ∷ es) [] fit h e = absurd h
  none_at v ((k, r) ∷ es) (w ∷ l) fit h e = elim (Bool-cases (rec.same v w)) [
    | inl same ↦ absurd (ground (arith, at_same v w k fit h.2 h.0))
    | inr other ↦
        let there = at_same v w k fit h.2 h.0 ∙ other in
        rw other (none_at v es l fit h.3 (rw (there, find) at e))
  ]

  -- Different keys are those of different elements.
  pub Held-Distinct :
      (es : List (List ℕ × R)) (l : List V) → Held es l → Distinct same_key es → Distinct rec.same l
  Held-Distinct [] [] h d = tt
  Held-Distinct [] (w ∷ l) h d = absurd h
  Held-Distinct (p ∷ es) [] h d = absurd h
  Held-Distinct ((k, r) ∷ es) (w ∷ l) h d = (
    none_at w es l h.2 h.3 (ap (λ j. find (at j) es) (sym h.0) ∙ d.0),
    Held-Distinct es l h.3 d.1,
  )

  pub Held-fits : (es : List (List ℕ × R)) (l : List V) → Held es l → All rec.Fits l
  Held-fits [] [] h = tt
  Held-fits [] (v ∷ l) h = absurd h
  Held-fits (p ∷ es) [] h = absurd h
  Held-fits ((k, r) ∷ es) (v ∷ l) h = (h.2, Held-fits es l h.3)

  -- A lookup of the key of an element finds the record of the element with that key.
  pub find-Held :
      (v : V) (es : List (List ℕ × R)) (l : List V) (r : R)
      → rec.Fits v
      → Held es l
      → value_of (find (at (rec.key v)) es) ≡ some r
      → (w : V) × (find (rec.same v) l ≡ some w) × (r ≡ rec.to_rec w) × rec.Fits w
  unfolding find
  find-Held v [] [] r fit h e = absurd cc
  find-Held v [] (w ∷ l) r fit h e = absurd h
  find-Held v (p ∷ es) [] r fit h e = absurd h
  find-Held v ((k, q) ∷ es) (w ∷ l) r fit h e = elim (Bool-cases (rec.same v w)) [
    | inl same ↦
        let here = at_same v w k fit h.2 h.0 ∙ same in
        let found : some q ≡ some r = rw (here, find) at e in
        (w, rw same refl, some_injective (sym found) ∙ h.1, h.2)
    | inr other ↦
        let there = at_same v w k fit h.2 h.0 ∙ other in
        let (x, at_x, rest, fit_x) = find-Held v es l r fit h.3 (rw (there, find) at e) in
        (x, rw other at_x, rest, fit_x)
  ]
