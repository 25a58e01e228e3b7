-- ===== src/Stores/Txns.antt =====
-- wallet/bdb/txns.go: the transactions, under the texts of their hashes. The gob coding of a time is
-- taken to be read as it was written.
use go_electrum_client.Prelude.{ℕ, Bool, not, ◌&&◌, List, [], ◌∷◌, if◌then◌else◌}
use go_electrum_client.Prelude.Int.{ℤ}
use go_electrum_client.Prelude.Results.{Result, ok, ◌>>=◌}
use go_electrum_client.Datastore.{Txn}
use go_electrum_client.Datastore.Interface.{StoreError, TxnStore}
use go_electrum_client.Stores.{Bucket, put_rec, get_rec, get_all_recs, delete_rec}

-- The loop of GetAll; `with_watch_only` is includeWatchOnly.
unfoldable pub wanted : Bool → List Txn → List Txn
wanted with_watch_only [] = []
wanted with_watch_only (t ∷ l) =
    let rest = wanted with_watch_only l in
    if t.watch_only && not with_watch_only then rest else t ∷ rest

module _ {B : Type 0} (ops : Bucket Txn B) where
  unfoldable pub put : B → Txn → Result StoreError B
  put b t = put_rec ops b t.txid t

  unfoldable pub get : B → List ℕ → Result StoreError Txn
  get b txid = get_rec ops b txid

  unfoldable pub get_all : B → Bool → Result StoreError (List Txn)
  get_all b with_watch_only = do l ← get_all_recs ops b; ok (wanted with_watch_only l)

  unfoldable pub update_height : B → List ℕ → ℤ → ℕ → Result StoreError B
  update_height b txid height timestamp = do
    t ← get_rec ops b txid
    put_rec ops b t.txid (record t { timestamp = timestamp; height = height })

  unfoldable pub delete : B → List ℕ → Result StoreError B
  delete b txid = delete_rec ops b txid

  abbrev pub txn_store : TxnStore B
  txn_store = record {
    put = put;
    get = get;
    get_all = get_all;
    update_height = update_height;
    delete = delete;
  }
