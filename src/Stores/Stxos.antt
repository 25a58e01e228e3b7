-- ===== src/Stores/Stxos.antt =====
-- wallet/bdb/stxo.go: the spent outputs, under the texts of their output points.
use go_electrum_client.Prelude.{ℕ, Bool, none, some, List}
use go_electrum_client.Prelude.Int.{ℤ}
use go_electrum_client.Prelude.Results.{Result, ok, err, ◌>>=◌}
use go_electrum_client.Datastore.{OutPoint, Stxo}
use go_electrum_client.Datastore.Interface.{StoreError, bad_text, Store}
use go_electrum_client.Datastore.OutPoints.{HashTexts, new_out_point_from_string}
use go_electrum_client.Stores.{Bucket, put_rec, get_all_recs, delete_rec, read_recs}

pub record StxoRec : Type 0 where
  pub out_point : List ℕ
  pub at_height : ℤ
  pub value : ℤ
  pub script_pubkey : List ℕ
  pub watch_only : Bool
  pub frozen : Bool
  pub spend_height : ℤ
  pub spend_txid : List ℕ

module _ (texts : HashTexts) where
  unfoldable pub to_rec : Stxo → StxoRec
  to_rec s = record {
    out_point = texts.op_string s.utxo.op;
    at_height = s.utxo.at_height;
    value = s.utxo.value;
    script_pubkey = s.utxo.script_pubkey;
    watch_only = s.utxo.watch_only;
    frozen = s.utxo.frozen;
    spend_height = s.spend_height;
    spend_txid = texts.hash_string s.spend_txid;
  }

  abbrev pub with_hash : StxoRec → OutPoint → List ℕ → Stxo
  with_hash r op hash = record {
    utxo = record {
      op = op;
      at_height = r.at_height;
      value = r.value;
      script_pubkey = r.script_pubkey;
      watch_only = r.watch_only;
      frozen = r.frozen;
    };
    spend_height = r.spend_height;
    spend_txid = hash;
  }

  unfoldable pub of_rec : StxoRec → Result StoreError Stxo
  of_rec r = elim (new_out_point_from_string texts r.out_point) [
    | none ↦ err bad_text
    | some op ↦ elim (texts.hash_from_str r.spend_txid) [
      | none ↦ err bad_text
      | some hash ↦ ok (with_hash r op hash)
    ]
  ]

  module _ {B : Type 0} (ops : Bucket StxoRec B) where
    unfoldable pub put : B → Stxo → Result StoreError B
    put b s = put_rec ops b (texts.op_string s.utxo.op) (to_rec s)

    unfoldable pub get_all : B → Result StoreError (List Stxo)
    get_all b = do l ← get_all_recs ops b; read_recs of_rec l

    unfoldable pub delete : B → Stxo → Result StoreError B
    delete b s = delete_rec ops b (texts.op_string s.utxo.op)

    abbrev pub stxo_store : Store Stxo B
    stxo_store = record { put = put; get_all = get_all; delete = delete }
