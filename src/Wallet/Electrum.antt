-- ===== src/Wallet/Electrum.antt =====
-- wallet/wltbtc/wallet.go and subscribe.go: the wallet that the client is given, with the
-- subscriptions on bbolt and the transaction store. Its addresses are arguments.
pub mod Maps
use go_electrum_client.Prelude.{ℕ, Bool, Option, none, some, List, [], ◌∷◌, if◌then◌else◌}
use go_electrum_client.Prelude.Int.{ℤ}
use go_electrum_client.Prelude.Results.{Result, ok, err, panic, ◌>>=◌}
use go_electrum_client.Datastore.{Utxo, Stxo, Subscription, Txn}
use go_electrum_client.Datastore.Interface.{StoreError, Store, TxnStore}
use go_electrum_client.Keys.{KeyChange}
use go_electrum_client.Stores.{Bucket}
use go_electrum_client.Stores.Subscriptions as Subs
use go_electrum_client.TxStore.{Tx, TxError, Calls, State}
use go_electrum_client.TxStore.Add.{add_transaction}
use go_electrum_client.Client.{ElectrumWallet}

pub record BtcWallet (L B : Type 0) : Type 0 where
  pub subscriptions : B
  pub txstore : L
  pub blockchain_tip : ℤ

module _ {A K U X T B : Type 0} (calls : Calls A K) (us : Store Utxo U) (xs : Store Stxo X)
    (ts : TxnStore T) (ops : Bucket Subscription B) where
  abbrev pub W : Type 0
  W = BtcWallet (State A K U X T) B

  unfoldable pub add_subscription : W → Subscription → Result StoreError W
  add_subscription w s = do b ← Subs.put ops w.subscriptions s; ok (record w { subscriptions = b })

  -- The error of the delete is dropped.
  unfoldable pub remove_subscription : W → List ℕ → W
  remove_subscription w script = elim (Subs.delete ops w.subscriptions script) [
    | ok b ↦ record w { subscriptions = b }
    | _ ↦ w
  ]

  unfoldable pub get_subscription : W → List ℕ → Result StoreError (Option Subscription)
  get_subscription w script = do s ← Subs.get ops w.subscriptions script; ok (some s)

  unfoldable pub get_subscription_for_electrum_scripthash :
      W → List ℕ → Result StoreError (Option Subscription)
  get_subscription_for_electrum_scripthash w h = do
    s ← Subs.get_electrum_scripthash ops w.subscriptions h
    ok (some s)

  unfoldable pub list_subscriptions : W → Result StoreError (List Subscription)
  list_subscriptions w = Subs.get_all ops w.subscriptions

  unfoldable pub has_transaction : W → List ℕ → Option Txn
  has_transaction w txid = elim (ts.get w.txstore.txns txid) [ ok t ↦ some t | _ ↦ none ]

  unfoldable pub wallet_add_transaction : W → Tx → ℤ → ℕ → W × Option TxError
  wallet_add_transaction w tx height timestamp =
      let (s, hits, failed) = add_transaction calls us xs ts tx height timestamp w.txstore in
      (record w { txstore = s }, failed)

  unfoldable pub update_tip : W → ℤ → W
  update_tip w tip = record w { blockchain_tip = tip }

  -- The addresses of GetKeys.
  unfoldable pub list_addresses : W → List A
  list_addresses w = calls.key_addresses w.txstore.keys

  module _ (address : KeyChange → ℕ → Option A)
      (unused : K → KeyChange → Result StoreError (Option A)) where
    abbrev pub btc_wallet : ElectrumWallet A W
    btc_wallet = record {
      add_subscription = add_subscription;
      remove_subscription = remove_subscription;
      get_subscription = get_subscription;
      get_subscription_for_electrum_scripthash = get_subscription_for_electrum_scripthash;
      list_subscriptions = list_subscriptions;
      get_address = λ w. address;
      get_unused_address = λ w. unused w.txstore.keys;
      address_to_script = λ w. calls.pay_to_addr_script;
      has_transaction = has_transaction;
      add_transaction = wallet_add_transaction;
      list_addresses = list_addresses;
    }
