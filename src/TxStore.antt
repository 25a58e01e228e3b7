-- ===== src/TxStore.antt =====
-- wallet/wltbtc/txstore.go: the transactions of the wallet, and what they spend and pay. The stores
-- are those of wallet/datastore.go; btcd's transactions, scripts and addresses are arguments.
pub mod Dead
pub mod Doubles
pub mod Add
pub mod Apart
use go_electrum_client.Prelude.{
  ℕ, zero, suc, ◌+◌, ◌%◌, ◌^◌, Bool, true, false, not, ◌&&◌, ◌||◌, Option, none, some, List, [],
  ◌∷◌, ltb, ◌==◌, if◌then◌else◌,
}
use go_electrum_client.Prelude.Bytes.{bytes_eq}
use go_electrum_client.Prelude.Int.{ℤ, pos, negsuc, ◌+ℤ◌, ◌-ℤ◌, wrap64, ltb_ℤ, eqb_ℤ}
use go_electrum_client.Prelude.Results.{Result, ok, err, panic}
use go_electrum_client.Datastore.{OutPoint, Utxo, Stxo, Txn}
use go_electrum_client.Datastore.Interface.{StoreError, Store, TxnStore}

-- The parts of wire.TxOut and wire.MsgTx that are read here.
pub record TxOut : Type 0 where
  pub value : ℤ
  pub pk_script : List ℕ

pub record Tx : Type 0 where
  pub tx_in : List OutPoint
  pub tx_out : List TxOut

-- The errors of a store, and those that TxStore adds; the last one is the model's own.
pub data TxError : Type 0 where
  store_error : StoreError → TxError
  store_panic not_sane bad_address no_inputs bad_tx still_marking : TxError

-- What the code calls of btcd, of the key manager and of the clock. `A` are addresses.
pub record Calls (A K : Type 0) : Type 0 where
  pub tx_hash : Tx → List ℕ
  pub hash_string : List ℕ → List ℕ
  pub is_sane : Tx → Bool
  pub encode : Tx → List ℕ
  pub decode : List ℕ → Option Tx
  pub pay_to_addr_script : A → Option (List ℕ)
  pub script_address : List ℕ → List ℕ
  pub key_addresses : K → List A
  pub mark_key_as_used : K → List ℕ → K
  pub now : ℕ → ℕ

-- The stores, the keys, the fields of TxStore, and how often the clock was read.
pub record State (A K U X T : Type 0) : Type 0 where
  pub utxos : U
  pub stxos : X
  pub txns : T
  pub keys : K
  pub adrs : List A
  pub txids : List ℕ → Option ℤ
  pub reads : ℕ

-- The value, the hits and the mark of a watch-only match, while a transaction is read.
pub record Tally : Type 0 where
  pub value : ℤ
  pub hits : ℕ
  pub matches_watch_only : Bool

abbrev pub hit : ℕ → ℕ
hit n = (n + 1) % 2 ^ 32

abbrev pub set_txid : (List ℕ → Option ℤ) → List ℕ → ℤ → List ℕ → Option ℤ
set_txid f txid height k = if bytes_eq txid k then some height else f k

unfoldable pub known_heights : List Txn → (List ℕ → Option ℤ) → List ℕ → Option ℤ
known_heights [] f = f
known_heights (t ∷ l) f = known_heights l (set_txid f t.txid t.height)

unfoldable pub new_wire_tx : {A K : Type 0} → Calls A K → List ℕ → Bool → Result TxError Tx
new_wire_tx calls b check_io = elim (calls.decode b) [
  | none ↦ err bad_tx
  | some tx ↦ elim tx.tx_in [
    | [] ↦ if check_io then err no_inputs else ok tx
    | _ ∷ _ ↦ elim tx.tx_out [ [] ↦ if check_io then err bad_tx else ok tx | _ ∷ _ ↦ ok tx ]
  ]
]
