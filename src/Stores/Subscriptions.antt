-- ===== src/Stores/Subscriptions.antt =====
-- wallet/bdb/subscriptions.go: the subscriptions, under their public key scripts.
use go_electrum_client.Prelude.{ℕ, List, [], ◌∷◌, if◌then◌else◌}
use go_electrum_client.Prelude.Bytes.{bytes_eq}
use go_electrum_client.Prelude.Results.{Result, ok, err, ◌>>=◌}
use go_electrum_client.Datastore.{Subscription}
use go_electrum_client.Datastore.Interface.{StoreError, not_found}
use go_electrum_client.Stores.{Bucket, put_rec, get_rec, get_all_recs, delete_rec}

-- The loop of GetElectrumScripthash.
unfoldable pub with_scripthash : List ℕ → List Subscription → Result StoreError Subscription
with_scripthash h [] = err not_found
with_scripthash h (s ∷ l) =
    let rest = with_scripthash h l in if bytes_eq h s.electrum_scripthash then ok s else rest

module _ {B : Type 0} (ops : Bucket Subscription B) where
  unfoldable pub put : B → Subscription → Result StoreError B
  put b s = put_rec ops b s.pk_script s

  unfoldable pub get : B → List ℕ → Result StoreError Subscription
  get b script = get_rec ops b script

  unfoldable pub get_electrum_scripthash : B → List ℕ → Result StoreError Subscription
  get_electrum_scripthash b h = do l ← get_all_recs ops b; with_scripthash h l

  unfoldable pub get_all : B → Result StoreError (List Subscription)
  get_all b = get_all_recs ops b

  unfoldable pub delete : B → List ℕ → Result StoreError B
  delete b script = delete_rec ops b script
