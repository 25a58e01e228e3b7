-- ===== src/Datastore/Interface.antt =====
-- The interfaces Utxos, Stxos and Txns of wallet/datastore.go, as far as the wallet uses them. A
-- call that fails leaves the store as it was.
use go_electrum_client.Prelude.{ℕ, ◌≡◌, Bool, List}
use go_electrum_client.Prelude.Int.{ℤ}
use go_electrum_client.Prelude.Results.{Result, ok}
use go_electrum_client.Datastore.{Txn}
use go_electrum_client.Datastore.Keyed.{erase, Inserted, Distinct, All}

pub data StoreError : Type 0 where
  bucket_not_found no_record bad_text not_found : StoreError

pub record Store (V S : Type 0) : Type 0 where
  pub put : S → V → Result StoreError S
  pub get_all : S → Result StoreError (List V)
  pub delete : S → V → Result StoreError S

pub record TxnStore (S : Type 0) : Type 0 where
  pub put : S → Txn → Result StoreError S
  pub get : S → List ℕ → Result StoreError Txn
  pub get_all : S → Bool → Result StoreError (List Txn)
  pub update_height : S → List ℕ → ℤ → ℕ → Result StoreError S
  pub delete : S → List ℕ → Result StoreError S

-- A store as a list of elements with different keys: a put replaces the element with the key or adds
-- one, a delete takes it out. `Fits` are the elements that may be put.
pub record Keeps {V S : Type 0} (same : V → V → Bool) (Fits : V → Type 0) (store : Store V S)
    (Valid : S → Type 0) : Type 0 where
  pub put_valid : (s s' : S) (v : V) → Valid s → Fits v → store.put s v ≡ ok s' → Valid s'
  pub put_keeps :
      (s s' : S) (v : V) (l : List V)
      → Valid s
      → Fits v
      → store.get_all s ≡ ok l
      → store.put s v ≡ ok s'
      → (m : List V) × Inserted v (erase (same v) l) m × (store.get_all s' ≡ ok m)
  pub delete_valid : (s s' : S) (v : V) → Valid s → Fits v → store.delete s v ≡ ok s' → Valid s'
  pub delete_keeps :
      (s s' : S) (v : V) (l : List V)
      → Valid s
      → Fits v
      → store.get_all s ≡ ok l
      → store.delete s v ≡ ok s'
      → store.get_all s' ≡ ok (erase (same v) l)
  pub distinct : (s : S) (l : List V) → Valid s → store.get_all s ≡ ok l → Distinct same l
  pub all_fit : (s : S) (l : List V) → Valid s → store.get_all s ≡ ok l → All Fits l
