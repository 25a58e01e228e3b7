-- ===== src/Stores.antt =====
-- wallet/bdb: the stores of outputs, transactions and subscriptions, in the buckets of a bbolt
-- database. The buckets are an interface: bbolt is not part of this code, and neither is the JSON of
-- a record, which is taken to be read as it was written.
pub mod Walks
pub mod Records
pub mod Refined
pub mod Frozen
pub mod Utxos
pub mod Stxos
pub mod Txns
pub mod Subscriptions
use go_electrum_client.Prelude.{
  ℕ, Bool, Option, none, some, List, [], ◌∷◌, if◌then◌else◌, true, false,
}
use go_electrum_client.Prelude.Results.{Result, ok, err, panic, ◌>>=◌, ◌>>◌}
use go_electrum_client.Datastore.Interface.{StoreError, bucket_not_found, no_record}

-- The calls of a bucket; a walk with a cursor meets the keys and their values.
pub record Bucket (R B : Type 0) : Type 0 where
  pub reachable : B → Bool
  pub get : B → List ℕ → Option R
  pub put : B → List ℕ → R → B
  pub delete : B → List ℕ → B
  pub for_each : B → List (List ℕ × R)

unfoldable pub values : {R : Type 0} → List (List ℕ × R) → List R
values [] = []
values ((k, r) ∷ l) = r ∷ values l

module _ {R B : Type 0} (ops : Bucket R B) where
  abbrev pub reach : B → Result StoreError (Unit {0})
  reach b = if ops.reachable b then ok tt else err bucket_not_found

  unfoldable pub put_rec : B → List ℕ → R → Result StoreError B
  put_rec b key r = do reach b; ok (ops.put b key r)

  -- A missing value is no JSON.
  unfoldable pub get_rec : B → List ℕ → Result StoreError R
  get_rec b key = do reach b; elim (ops.get b key) [ none ↦ err no_record | some r ↦ ok r ]

  unfoldable pub get_all_recs : B → Result StoreError (List R)
  get_all_recs b = do reach b; ok (values (ops.for_each b))

  unfoldable pub delete_rec : B → List ℕ → Result StoreError B
  delete_rec b key = do reach b; ok (ops.delete b key)

-- The loops of GetAll: the first record that cannot be read ends them.
unfoldable pub read_recs :
    {R V : Type 0} → (R → Result StoreError V) → List R → Result StoreError (List V)
read_recs read [] = ok []
read_recs read (r ∷ l) = do v ← read r; vs ← read_recs read l; ok (v ∷ vs)
