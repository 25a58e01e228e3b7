-- ===== src/TxStore/Doubles.antt =====
-- CheckDoubleSpends of wallet/wltbtc/txstore.go.
pub mod Exact
use go_electrum_client.Prelude.{ℕ, Bool, true, false, not, ◌&&◌, List, [], ◌∷◌, ◌++◌, if◌then◌else◌}
use go_electrum_client.Prelude.Bytes.{bytes_eq}
use go_electrum_client.Prelude.Int.{ℤ, pos, ltb_ℤ}
use go_electrum_client.Prelude.Results.{Result, ok, err, panic, ◌>>=◌}
use go_electrum_client.Datastore.{OutPoint, Txn, out_points_equal}
use go_electrum_client.Datastore.Interface.{StoreError, TxnStore}
use go_electrum_client.TxStore.{Tx, TxError, store_error, Calls, new_wire_tx}

-- The innermost loop, over the inputs of a stored transaction, up to its break.
unfoldable pub is_input : OutPoint → List OutPoint → Bool
is_input op [] = false
is_input op (i ∷ l) = let rest = is_input op l in if out_points_equal op i then true else rest

-- The loop over the inputs of the new transaction: `txid` once for each that is spent already.
unfoldable pub double_inputs : List ℕ → Bool → List OutPoint → List OutPoint → List (List ℕ)
double_inputs txid is_same [] inputs = []
double_inputs txid is_same (i ∷ l) inputs =
    let rest = double_inputs txid is_same l inputs in
    if is_input i inputs && not is_same then txid ∷ rest else rest

module _ {A K : Type 0} (calls : Calls A K) where
  unfoldable pub double_spends : Tx → List Txn → Result TxError (List (List ℕ))
  double_spends arg [] = ok []
  double_spends arg (t ∷ l) =
      let rest = double_spends arg l in
      if ltb_ℤ t.height (pos 0) then rest else (do
        tx ← new_wire_tx calls t.bytes true
        let txid = calls.tx_hash tx
        dubs ← rest
        ok (double_inputs txid (bytes_eq txid (calls.tx_hash arg)) arg.tx_in tx.tx_in ++ dubs))

  unfoldable pub check_double_spends :
      {T : Type 0} → TxnStore T → T → Tx → Result TxError (List (List ℕ))
  check_double_spends ts t arg = elim (ts.get_all t true) [
    | ok l ↦ double_spends arg l
    | err e ↦ err (store_error e)
    | panic ↦ panic
  ]
