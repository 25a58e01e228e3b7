-- ===== src/Keys/Bucket.antt =====
-- What wallet/bdb/keys.go relies on of a bbolt bucket: it is a keyed store.
use go_electrum_client.Prelude.{ℕ, ◌+◌, ◌≡◌, ◌≢◌, Bool, none, some, List, if◌then◌else◌}
use go_electrum_client.Prelude.Counts.{count}
use go_electrum_client.Keys.{KeyRec, Ops}

abbrev pub one_if : Bool → ℕ
one_if b = if b then 1 else 0

-- A put replaces the record of its key, or adds one, and changes no other; a delete takes one
-- away; a walk meets every record.
pub record Lawful {B : Type 0} (ops : Ops B) : Type 0 where
  pub reachable_put :
      (b : B) (k : List ℕ) (r : KeyRec) → ops.reachable (ops.put b k r) ≡ ops.reachable b
  pub get_put_self : (b : B) (k : List ℕ) (r : KeyRec) → ops.get (ops.put b k r) k ≡ some r
  pub get_put_ne :
      (b : B) (k j : List ℕ) (r : KeyRec) → j ≢ k → ops.get (ops.put b k r) j ≡ ops.get b j
  pub walk_new :
      (b : B) (k : List ℕ) (r : KeyRec) (f : KeyRec → Bool)
      → ops.get b k ≡ none
      → count f (ops.for_each (ops.put b k r)) ≡ one_if (f r) + count f (ops.for_each b)
  pub walk_old :
      (b : B) (k : List ℕ) (r x : KeyRec) (f : KeyRec → Bool)
      → ops.get b k ≡ some x
      → one_if (f x) + count f (ops.for_each (ops.put b k r))
        ≡ one_if (f r) + count f (ops.for_each b)
