-- ===== src/Stores/Walks/Lookups.antt =====
-- The lookups of a bucket after a put and after a delete.
use go_electrum_client.Prelude.{
  ℕ, ◌≡◌, sym, ap, ◌∙◌, inl, inr, true, false, none, some, List, Bool-cases,
}
use go_electrum_client.Prelude.Bytes.{bytes_eq, bytes_eq_iff, bytes_eq_refl}
use go_electrum_client.Datastore.Keyed.{erase, find, find-erase_self}
use go_electrum_client.Datastore.Keyed.Changed.{
  find-Inserted_here, find-Inserted_other, find-erase_other,
}
use go_electrum_client.Stores.{Bucket}
use go_electrum_client.Stores.Walks.{at, value_of, Lawful}

bytes_eq_flip : (k j : List ℕ) → bytes_eq k j ≡ false → bytes_eq j k ≡ false
bytes_eq_flip k j other = elim (Bool-cases (bytes_eq j k)) [
  | inl same ↦
      let e : k ≡ j = sym ((bytes_eq_iff j k).0 same) in
      absurd (cc (other, ap (bytes_eq k) (sym e), bytes_eq_refl k))
  | inr differ ↦ differ
]

apart : (k j i : List ℕ) → bytes_eq k j ≡ false → bytes_eq j i ≡ true → bytes_eq k i ≡ false
apart k j i other same = ap (bytes_eq k) (sym ((bytes_eq_iff j i).0 same)) ∙ other

module _ {R B : Type 0} (ops : Bucket R B) (laws : Lawful ops) where
  pub get-put : (b : B) (k : List ℕ) (r : R) → ops.get (ops.put b k r) k ≡ some r
  get-put b k r =
      laws.get_walk (ops.put b k r) k
      ∙ ap value_of (
          find-Inserted_here (at k) (k, r) (erase (at k) (ops.for_each b))
            (ops.for_each (ops.put b k r)) (laws.walk_put b k r) (bytes_eq_refl k)
            (find-erase_self (at k) (ops.for_each b)))

  erased_other :
      (b : B) (k j : List ℕ)
      → bytes_eq k j ≡ false
      → find (at j) (erase (at k) (ops.for_each b)) ≡ find (at j) (ops.for_each b)
  erased_other b k j other =
      find-erase_other (at j) (at k) (ops.for_each b) (λ p e. apart k j p.0 other e)

  pub get-put_other :
      (b : B) (k j : List ℕ) (r : R)
      → bytes_eq k j ≡ false
      → ops.get (ops.put b k r) j ≡ ops.get b j
  get-put_other b k j r other =
      laws.get_walk (ops.put b k r) j
      ∙ ap value_of (
          find-Inserted_other (at j) (k, r) (erase (at k) (ops.for_each b))
            (ops.for_each (ops.put b k r)) (laws.walk_put b k r) (bytes_eq_flip k j other)
          ∙ erased_other b k j other)
      ∙ sym (laws.get_walk b j)

  pub get-delete : (b : B) (k : List ℕ) → ops.get (ops.delete b k) k ≡ none
  get-delete b k =
      laws.get_walk (ops.delete b k) k
      ∙ ap (λ l. value_of (find (at k) l)) (laws.walk_delete b k)
      ∙ ap value_of (find-erase_self (at k) (ops.for_each b))

  pub get-delete_other :
      (b : B) (k j : List ℕ) → bytes_eq k j ≡ false → ops.get (ops.delete b k) j ≡ ops.get b j
  get-delete_other b k j other =
      laws.get_walk (ops.delete b k) j
      ∙ ap (λ l. value_of (find (at j) l)) (laws.walk_delete b k)
      ∙ ap value_of (erased_other b k j other)
      ∙ sym (laws.get_walk b j)
