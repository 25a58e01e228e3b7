-- ===== src/TxStore/Dead.antt =====
-- markAsDead of wallet/wltbtc/txstore.go: a transaction that lost to a double spend gives its inputs
-- back, and takes its outputs and those that spend them with it.
pub mod Ends
pub mod Loops
use go_electrum_client.Prelude.{
  ℕ, zero, suc, ◌+◌, Bool, Option, none, some, List, [], ◌∷◌, if◌then◌else◌, length,
}
use go_electrum_client.Prelude.Bytes.{bytes_eq}
use go_electrum_client.Prelude.Int.{ℤ, negsuc}
use go_electrum_client.Prelude.Results.{Result, ok, err, panic}
use go_electrum_client.Datastore.{Utxo, Stxo, Txn}
use go_electrum_client.Datastore.Interface.{StoreError, Store, TxnStore}
use go_electrum_client.TxStore.{Calls, State, TxError, store_error, store_panic, still_marking}

-- A step changes the state and may return an error.
abbrev pub Act : Type 0 → Type 0
Act S = S → S × Option TxError

infixr 5 ◌>>◌
abbrev pub ◌>>◌ : {S : Type 0} → Act S → Act S → Act S
◌>>◌ m k s = let (t, e) = m s in elim e [ none ↦ k t | some x ↦ (t, some x) ]

abbrev pub skip : {S : Type 0} → Act S
skip s = (s, none)

abbrev pub ignore : {S : Type 0} → Act S → Act S
ignore m s = ((m s).0, none)

module _ {A K U X T : Type 0} (calls : Calls A K) (us : Store Utxo U) (xs : Store Stxo X)
    (ts : TxnStore T) where
  abbrev pub S : Type 0
  S = State A K U X T

  abbrev set_utxos : S → Result StoreError U → S × Option TxError
  set_utxos s (ok u) = (record s { utxos = u }, none)
  set_utxos s (err e) = (s, some (store_error e))
  set_utxos s panic = (s, some store_panic)

  abbrev set_stxos : S → Result StoreError X → S × Option TxError
  set_stxos s (ok x) = (record s { stxos = x }, none)
  set_stxos s (err e) = (s, some (store_error e))
  set_stxos s panic = (s, some store_panic)

  abbrev set_txns : S → Result StoreError T → S × Option TxError
  set_txns s (ok t) = (record s { txns = t }, none)
  set_txns s (err e) = (s, some (store_error e))
  set_txns s panic = (s, some store_panic)

  unfoldable pub put_utxo : Utxo → Act S
  put_utxo u s = set_utxos s (us.put s.utxos u)

  unfoldable pub delete_utxo : Utxo → Act S
  delete_utxo u s = set_utxos s (us.delete s.utxos u)

  unfoldable pub put_stxo : Stxo → Act S
  put_stxo x s = set_stxos s (xs.put s.stxos x)

  unfoldable pub delete_stxo : Stxo → Act S
  delete_stxo x s = set_stxos s (xs.delete s.stxos x)

  -- UpdateHeight(txid, -1, time.Now())
  unfoldable pub kill : List ℕ → Act S
  kill txid s =
      set_txns (record s { reads = suc s.reads })
        (ts.update_height s.txns (calls.hash_string txid) (negsuc 0) (calls.now s.reads))

  unfoldable pub with_stxos : (List Stxo → Act S) → Act S
  with_stxos k s = elim (xs.get_all s.stxos) [
    | ok l ↦ k l s
    | err e ↦ (s, some (store_error e))
    | panic ↦ (s, some store_panic)
  ]

  unfoldable pub with_utxos : (List Utxo → Act S) → Act S
  with_utxos k s = elim (us.get_all s.utxos) [
    | ok l ↦ k l s
    | err e ↦ (s, some (store_error e))
    | panic ↦ (s, some store_panic)
  ]

  unfoldable pub mark_stxo_as_dead : Stxo → Act S
  mark_stxo_as_dead x = delete_stxo x >> kill x.spend_txid

  -- One round of the loop over the spent outputs; `mark` is the call of markAsDead in it.
  unfoldable pub revive : List ℕ → Stxo → Act S
  revive txid x =
      if bytes_eq txid x.spend_txid then mark_stxo_as_dead x >> put_utxo x.utxo else skip

  unfoldable pub follow : (List ℕ → Act S) → List ℕ → Stxo → Act S
  follow mark txid x =
      if bytes_eq txid x.utxo.op.hash then mark_stxo_as_dead x >> mark x.spend_txid else skip

  unfoldable pub dead_stxos : (List ℕ → Act S) → List ℕ → List Stxo → Act S
  dead_stxos mark txid [] = skip
  dead_stxos mark txid (x ∷ l) = revive txid x >> follow mark txid x >> dead_stxos mark txid l

  unfoldable pub dead_utxos : List ℕ → List Utxo → Act S
  dead_utxos txid [] = skip
  dead_utxos txid (u ∷ l) =
      (if bytes_eq txid u.op.hash then delete_utxo u else skip) >> dead_utxos txid l

  unfoldable pub mark_as_dead : ℕ → List ℕ → Act S
  mark_as_dead zero txid = λ s. (s, some still_marking)
  mark_as_dead (suc fuel) txid =
      with_stxos (dead_stxos (mark_as_dead fuel) txid)
      >> with_utxos (dead_utxos txid)
      >> ignore (kill txid)

  -- The call, with fuel for the spent outputs that there are.
  unfoldable pub spent_count : S → ℕ
  spent_count s = elim (xs.get_all s.stxos) [ ok l ↦ length l | _ ↦ 0 ]

  unfoldable pub mark_dead : List ℕ → Act S
  mark_dead txid s = mark_as_dead (suc (spent_count s)) txid s
