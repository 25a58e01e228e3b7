-- ===== src/Stores/Walks.antt =====
-- What wallet/bdb relies on of a bbolt bucket: it keeps its keys in some order, each once.
pub mod Lookups
use go_electrum_client.Prelude.{ℕ, ◌≡◌, Bool, Option, none, some, List}
use go_electrum_client.Prelude.Bytes.{bytes_eq}
use go_electrum_client.Datastore.Keyed.{erase, find, Inserted, Distinct}
use go_electrum_client.Stores.{Bucket}

abbrev pub at : {R : Type 0} → List ℕ → List ℕ × R → Bool
at k (j, r) = bytes_eq k j

abbrev pub same_key : {R : Type 0} → List ℕ × R → List ℕ × R → Bool
same_key (k, r) p = at k p

abbrev pub value_of : {R : Type 0} → Option (List ℕ × R) → Option R
value_of none = none
value_of (some (k, r)) = some r

pub record Lawful {R B : Type 0} (ops : Bucket R B) : Type 0 where
  pub reachable_put : (b : B) (k : List ℕ) (r : R) → ops.reachable (ops.put b k r) ≡ ops.reachable b
  pub reachable_delete : (b : B) (k : List ℕ) → ops.reachable (ops.delete b k) ≡ ops.reachable b
  pub get_walk : (b : B) (k : List ℕ) → ops.get b k ≡ value_of (find (at k) (ops.for_each b))
  pub walk_put :
      (b : B) (k : List ℕ) (r : R)
      → Inserted (k, r) (erase (at k) (ops.for_each b)) (ops.for_each (ops.put b k r))
  pub walk_delete :
      (b : B) (k : List ℕ) → ops.for_each (ops.delete b k) ≡ erase (at k) (ops.for_each b)
  pub walk_distinct : (b : B) → Distinct same_key (ops.for_each b)
