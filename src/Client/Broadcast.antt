-- ===== src/Client/Broadcast.antt =====
-- Broadcast of client/btc/client_wallet.go: a transaction is sent to the node, and the outputs that
-- pay back to the wallet are subscribed.
pub mod Loop
pub mod Watched
use go_electrum_client.Prelude.{
  ℕ, Bool, true, false, Option, none, some, List, [], ◌∷◌, if◌then◌else◌,
}
use go_electrum_client.Prelude.Bytes.{bytes_eq}
use go_electrum_client.Prelude.Results.{Result, ok, err, panic}
use go_electrum_client.Datastore.{Subscription}
use go_electrum_client.TxStore.{Tx, TxOut, Calls, new_wire_tx}
use go_electrum_client.Client.{
  ElectrumWallet, ElectrumX, Scripts, Client, ClientError, no_wallet, no_electrumx, node_error,
  empty_result, bad_script, bad_hex, tx_error, pk_script_to_electrum_scripthash,
}

module _ {A W N K : Type 0} (wallets : ElectrumWallet A W) (nodes : ElectrumX N)
    (scripts : Scripts A) (calls : Calls A K) where
  abbrev C : Type 0
  C = Client N W

  unfoldable pub is_ours : List A → A → Bool
  is_ours [] a = false
  is_ours (b ∷ l) a =
      let rest = is_ours l a in
      if bytes_eq (scripts.script_address a) (scripts.script_address b) then true else rest

  -- Whether an output has one address, and that is ours.
  unfoldable pub pays_back : List A → List A → Bool
  pays_back ours [] = false
  pays_back ours (a ∷ []) = is_ours ours a
  pays_back ours (a ∷ b ∷ l) = false

  -- backToWallet, with an entry for every output; an error where one has no readable script.
  unfoldable pub back_to_wallet : List A → List TxOut → Option (List (Option (List ℕ)))
  back_to_wallet ours [] = some []
  back_to_wallet ours (out ∷ l) = elim (scripts.extract_pk_script_addrs out.pk_script) [
    | none ↦ none
    | some addresses ↦ elim (back_to_wallet ours l) [
      | none ↦ none
      | some rest ↦ some ((if pays_back ours addresses then some out.pk_script else none) ∷ rest)
    ]
  ]

  abbrev pub back_sub : List ℕ → Subscription
  back_sub script = record {
    pk_script = scripts.hex script;
    electrum_scripthash = pk_script_to_electrum_scripthash scripts script;
    address = scripts.pk_script_to_address_pubkey_hash script;
  }

  -- The loop after the broadcast. An error of the wallet is a panic.
  unfoldable pub subscribe_backs :
      N → W → List (Option (List ℕ)) → N × W × Result ClientError (Unit {0})
  subscribe_backs n w [] = (n, w, ok tt)
  subscribe_backs n w (none ∷ l) = subscribe_backs n w l
  subscribe_backs n w (some script ∷ l) = elim (wallets.add_subscription w (back_sub script)) [
    | err e ↦ (n, w, panic)
    | panic ↦ (n, w, panic)
    | ok v ↦
        let (m, answer) =
          nodes.subscribe_scripthash_notify n (back_sub script).electrum_scripthash in
        elim answer [
          | none ↦ (m, wallets.remove_subscription v (scripts.hex script), err node_error)
          | some none ↦ (m, wallets.remove_subscription v (scripts.hex script), err empty_result)
          | some (some status) ↦ subscribe_backs m v l
        ]
  ]

  -- What follows the answer to the broadcast.
  unfoldable pub on_sent :
      W → List (Option (List ℕ)) → N × Option (List ℕ) → C × Result ClientError (List ℕ)
  on_sent w backs (n, none) = (record { x = some n; wallet = some w }, err node_error)
  on_sent w backs (n, some txid) =
      let (m, v, r) = subscribe_backs n w backs in
      (
        record { x = some m; wallet = some v },
        elim r [ ok _ ↦ ok txid | err e ↦ err e | panic ↦ panic ],
      )

  unfoldable pub broadcast_tx : N → W → List ℕ → Tx → C × Result ClientError (List ℕ)
  broadcast_tx n w raw tx = elim (back_to_wallet (wallets.list_addresses w) tx.tx_out) [
    | none ↦ (record { x = some n; wallet = some w }, err bad_script)
    | some backs ↦ on_sent w backs (nodes.broadcast n (scripts.hex raw))
  ]

  -- A transaction that is nil is an error, as one that is empty is.
  unfoldable pub broadcast : C → List ℕ → C × Result ClientError (List ℕ)
  broadcast c raw = elim c.wallet [
    | none ↦ (c, err no_wallet)
    | some w ↦ elim c.x [
      | none ↦ (c, err no_electrumx)
      | some n ↦ elim (new_wire_tx calls raw true) [
        | err e ↦ (c, err (tx_error e))
        | panic ↦ (c, panic)
        | ok tx ↦ broadcast_tx n w raw tx
      ]
    ]
  ]

  -- RpcBroadcast
  unfoldable pub rpc_broadcast : C → List ℕ → C × Result ClientError (List ℕ)
  rpc_broadcast c text = elim (scripts.of_hex text) [
    | none ↦ (c, err bad_hex)
    | some raw ↦ broadcast c raw
  ]
