-- ===== src/Client/Sync.antt =====
-- client/btc/wallet_synchronize.go and SyncWallet of client_wallet.go: the histories of the
-- subscribed addresses are read from the node, and their transactions added to the wallet.
pub mod Steps
pub mod Kept
use go_electrum_client.Prelude.{
  ℕ, Bool, true, false, Option, none, some, List, [], ◌∷◌, if◌then◌else◌,
}
use go_electrum_client.Prelude.Int.{ℤ, pos, ltb_ℤ}
use go_electrum_client.Prelude.Results.{Result, ok, err, panic}
use go_electrum_client.Datastore.{Subscription, Txn}
use go_electrum_client.TxStore.{Tx, TxError, Calls, new_wire_tx}
use go_electrum_client.Client.{
  ElectrumWallet, ElectrumX, Scripts, Client, History, ClientError, no_wallet, no_electrumx,
  node_error, bad_hex, client_panic, wallet_error, tx_error, subscribe_address_notify,
  get_subscription_for_scripthash,
}

pub record ScripthashStatus : Type 0 where
  pub scripthash : List ℕ
  pub status : List ℕ

module _ {A W N K : Type 0} (wallets : ElectrumWallet A W) (nodes : ElectrumX N)
    (scripts : Scripts A) (calls : Calls A K) where
  abbrev C : Type 0
  C = Client N W

  -- An empty history is nil, with no error.
  unfoldable pub get_address_history_from_node :
      C → Subscription → C × Result ClientError (List History)
  get_address_history_from_node c s = elim c.x [
    | none ↦ (c, err no_electrumx)
    | some n ↦
        let (m, answer) = nodes.get_history n s.electrum_scripthash in
        (record c { x = some m }, elim answer [ none ↦ err node_error | some l ↦ ok l ])
  ]

  unfoldable pub raw_tx : Option (List ℕ) → Result ClientError Tx
  raw_tx none = err node_error
  raw_tx (some text) = elim (scripts.of_hex text) [
    | none ↦ err bad_hex
    | some b ↦ elim (new_wire_tx calls b true) [
      | ok tx ↦ ok tx
      | err e ↦ err (tx_error e)
      | panic ↦ panic
    ]
  ]

  unfoldable pub get_raw_transaction_from_node : C → List ℕ → C × Result ClientError (Tx × ℕ)
  get_raw_transaction_from_node c txid = elim c.x [
    | none ↦ (c, err no_electrumx)
    | some n ↦
        let (m, answer) = nodes.get_raw_transaction n txid in
        (
          record c { x = some m },
          elim (raw_tx answer) [ ok tx ↦ ok (tx, nodes.now m) | err e ↦ err e | panic ↦ panic ],
        )
  ]

  -- An error of AddTransaction is printed.
  unfoldable pub add_raw : ℤ → W → C × Result ClientError (Tx × ℕ) → C
  add_raw height w (c, ok (tx, time)) = record c {
    wallet = some (wallets.add_transaction w tx height time).0;
  }
  add_raw height w (c, err e) = c
  add_raw height w (c, panic) = c

  unfoldable pub is_confirmed : Option Txn → Bool
  is_confirmed none = false
  is_confirmed (some t) = ltb_ℤ (pos 0) t.height

  -- One transaction of a history.
  unfoldable pub add_history : W → C → History → C
  add_history w c h =
      if is_confirmed (wallets.has_transaction w h.tx_hash)
      then c
      else add_raw h.height w (get_raw_transaction_from_node c h.tx_hash)

  -- Without a wallet its method is called on nil.
  unfoldable pub add_tx_history_to_wallet : C → List History → Result ClientError C
  add_tx_history_to_wallet c [] = ok c
  add_tx_history_to_wallet c (h ∷ l) = elim c.wallet [
    | none ↦ panic
    | some w ↦ add_tx_history_to_wallet (add_history w c h) l
  ]

  -- What follows the answer with a history.
  unfoldable pub on_history : C × Result ClientError (List History) → C × Option ClientError
  on_history (c, err e) = (c, some e)
  on_history (c, panic) = (c, some client_panic)
  on_history (c, ok l) = elim (add_tx_history_to_wallet c l) [
    | ok d ↦ (d, none)
    | err e ↦ (c, some e)
    | panic ↦ (c, some client_panic)
  ]

  -- What follows the subscription of one address; an empty status has no history.
  unfoldable pub on_status : Subscription → C × Result ClientError (List ℕ) → C × Option ClientError
  on_status s (c, err e) = (c, some e)
  on_status s (c, panic) = (c, some client_panic)
  on_status s (c, ok []) = (c, none)
  on_status s (c, ok (b ∷ l)) = on_history (get_address_history_from_node c s)

  unfoldable pub sync_loop : C → List Subscription → C × Option ClientError
  sync_loop c [] = (c, none)
  sync_loop c (s ∷ l) =
      let (d, failed) = on_status s (subscribe_address_notify wallets nodes c s) in
      elim failed [ some e ↦ (d, some e) | none ↦ sync_loop d l ]

  -- The start of AddressStatusNotify, which waits for the statuses in a thread of its own.
  unfoldable pub address_status_notify : C → Option ClientError
  address_status_notify c = elim c.x [
    | none ↦ some client_panic
    | some n ↦ if nodes.get_scripthash_notify n then none else some node_error
  ]

  unfoldable pub sync_wallet : C → C × Option ClientError
  sync_wallet c = elim c.wallet [
    | none ↦ (c, some no_wallet)
    | some w ↦ elim (wallets.list_subscriptions w) [
      | err e ↦ (c, some (wallet_error e))
      | panic ↦ (c, some client_panic)
      | ok l ↦
          let (d, failed) = sync_loop c l in
          elim failed [ some e ↦ (d, some e) | none ↦ (d, address_status_notify d) ]
    ]
  ]

  -- One round of the thread: whether it goes on. Only a missing subscription ends it.
  unfoldable pub on_status_change : C → ScripthashStatus → C × Bool
  on_status_change c s = elim s.status [
    | [] ↦ (c, true)
    | _ ∷ _ ↦ elim (get_subscription_for_scripthash wallets nodes c s.scripthash) [
      | ok sub ↦ ((on_history (get_address_history_from_node c sub)).0, true)
      | _ ↦ (c, false)
    ]
  ]

  unfoldable pub status_loop : C → List ScripthashStatus → C
  status_loop c [] = c
  status_loop c (s ∷ l) =
      let (d, goes_on) = on_status_change c s in elim goes_on [ true ↦ status_loop d l | false ↦ d ]
