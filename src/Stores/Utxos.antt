-- ===== src/Stores/Utxos.antt =====
-- wallet/bdb/utxo.go: the unspent outputs, under the texts of their output points.
use go_electrum_client.Prelude.{ℕ, Bool, true, false, none, some, List}
use go_electrum_client.Prelude.Int.{ℤ}
use go_electrum_client.Prelude.Results.{Result, ok, err, ◌>>=◌}
use go_electrum_client.Datastore.{OutPoint, Utxo}
use go_electrum_client.Datastore.Interface.{StoreError, bad_text, Store}
use go_electrum_client.Datastore.OutPoints.{HashTexts, new_out_point_from_string}
use go_electrum_client.Stores.{Bucket, put_rec, get_rec, get_all_recs, delete_rec, read_recs}

pub record UtxoRec : Type 0 where
  pub out_point : List ℕ
  pub at_height : ℤ
  pub value : ℤ
  pub script_pubkey : List ℕ
  pub watch_only : Bool
  pub frozen : Bool

module _ (texts : HashTexts) where
  unfoldable pub to_rec : Utxo → UtxoRec
  to_rec u = record {
    out_point = texts.op_string u.op;
    at_height = u.at_height;
    value = u.value;
    script_pubkey = u.script_pubkey;
    watch_only = u.watch_only;
    frozen = u.frozen;
  }

  abbrev pub with_op : UtxoRec → OutPoint → Utxo
  with_op r op = record {
    op = op;
    at_height = r.at_height;
    value = r.value;
    script_pubkey = r.script_pubkey;
    watch_only = r.watch_only;
    frozen = r.frozen;
  }

  unfoldable pub of_rec : UtxoRec → Result StoreError Utxo
  of_rec r = elim (new_out_point_from_string texts r.out_point) [
    | none ↦ err bad_text
    | some op ↦ ok (with_op r op)
  ]

  module _ {B : Type 0} (ops : Bucket UtxoRec B) where
    unfoldable pub put : B → Utxo → Result StoreError B
    put b u = put_rec ops b (texts.op_string u.op) (to_rec u)

    unfoldable pub get : B → OutPoint → Result StoreError Utxo
    get b op = do r ← get_rec ops b (texts.op_string op); of_rec r

    unfoldable pub get_all : B → Result StoreError (List Utxo)
    get_all b = do l ← get_all_recs ops b; read_recs of_rec l

    unfoldable pub set_watch_only : B → Utxo → Result StoreError B
    set_watch_only b u = do
      r ← get_rec ops b (texts.op_string u.op)
      put_rec ops b r.out_point (record r { watch_only = true })

    unfoldable pub freeze : B → Utxo → Result StoreError B
    freeze b u = do
      r ← get_rec ops b (texts.op_string u.op)
      put_rec ops b r.out_point (record r { frozen = true })

    unfoldable pub un_freeze : B → Utxo → Result StoreError B
    un_freeze b u = do
      r ← get_rec ops b (texts.op_string u.op)
      put_rec ops b r.out_point (record r { frozen = false })

    unfoldable pub delete : B → Utxo → Result StoreError B
    delete b u = delete_rec ops b (texts.op_string u.op)

    abbrev pub utxo_store : Store Utxo B
    utxo_store = record { put = put; get_all = get_all; delete = delete }
