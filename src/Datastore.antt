-- ===== src/Datastore.antt =====
-- wallet/datastore.go and wallet/util.go: what the wallet keeps in its stores, and the interface of
-- a store. A hash is its bytes, a text its codes, and a time a number.
pub mod OutPoints
pub mod Keyed
pub mod Interface
use go_electrum_client.Prelude.{ℕ, Bool, ◌&&◌, List, ◌==◌}
use go_electrum_client.Prelude.Bytes.{bytes_eq}
use go_electrum_client.Prelude.Int.{ℤ, eqb_ℤ}

-- wire.OutPoint
pub record OutPoint : Type 0 where
  pub hash : List ℕ
  pub index : ℕ

pub record Utxo : Type 0 where
  pub op : OutPoint
  pub at_height : ℤ
  pub value : ℤ
  pub script_pubkey : List ℕ
  pub watch_only : Bool
  pub frozen : Bool

pub record Stxo : Type 0 where
  pub utxo : Utxo
  pub spend_height : ℤ
  pub spend_txid : List ℕ

-- The part of a Txn that the stores keep.
pub record Txn : Type 0 where
  pub txid : List ℕ
  pub value : ℤ
  pub height : ℤ
  pub timestamp : ℕ
  pub watch_only : Bool
  pub bytes : List ℕ

pub record Subscription : Type 0 where
  pub pk_script : List ℕ
  pub electrum_scripthash : List ℕ
  pub address : List ℕ

unfoldable pub out_points_equal : OutPoint → OutPoint → Bool
out_points_equal a b = bytes_eq a.hash b.hash && a.index == b.index

-- The methods IsEqual, on values that are not nil.
unfoldable pub is_equal : Utxo → Utxo → Bool
is_equal u alt =
    bytes_eq u.op.hash alt.op.hash
    && (u.op.index == alt.op.index)
    && eqb_ℤ u.at_height alt.at_height
    && eqb_ℤ u.value alt.value
    && bytes_eq u.script_pubkey alt.script_pubkey

unfoldable pub is_equal_stxo : Stxo → Stxo → Bool
unfolding is_equal
is_equal_stxo s alt =
    is_equal s.utxo alt.utxo
    && eqb_ℤ s.spend_height alt.spend_height
    && bytes_eq s.spend_txid alt.spend_txid

unfoldable pub is_equal_subscription : Subscription → Subscription → Bool
is_equal_subscription s alt =
    bytes_eq alt.pk_script s.pk_script
    && bytes_eq alt.electrum_scripthash s.electrum_scripthash
    && bytes_eq alt.address s.address
