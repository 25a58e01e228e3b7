-- ===== src/TxStore/Add.antt =====
-- PopulateAdrs and AddTransaction of wallet/wltbtc/txstore.go.
pub mod Taken
pub mod Value
use go_electrum_client.Prelude.{
  ℕ, suc, ◌+◌, ◌%◌, ◌^◌, Bool, true, false, not, ◌&&◌, ◌||◌, Option, none, some, List, [], ◌∷◌, ltb,
  ◌==◌, if◌then◌else◌, length,
}
use go_electrum_client.Prelude.Bytes.{bytes_eq}
use go_electrum_client.Prelude.Int.{ℤ, pos, ◌+ℤ◌, ◌-ℤ◌, wrap64, ltb_ℤ, leb_ℤ, eqb_ℤ}
use go_electrum_client.Prelude.Results.{Result, ok, err, panic}
use go_electrum_client.Datastore.{OutPoint, Utxo, Stxo, Txn, out_points_equal}
use go_electrum_client.Datastore.Interface.{StoreError, Store, TxnStore}
use go_electrum_client.TxStore.{
  Tx, TxOut, Calls, State, Tally, TxError, store_error, store_panic, not_sane, bad_address, hit,
  set_txid, known_heights,
}
use go_electrum_client.TxStore.Dead.{put_utxo, delete_utxo, put_stxo, mark_dead}
use go_electrum_client.TxStore.Doubles.{check_double_spends}

-- The inner loop over the scripts, up to its break.
unfoldable pub pays_us : List (List ℕ) → List ℕ → Bool
pays_us [] script = false
pays_us (s ∷ l) script = let rest = pays_us l script in if bytes_eq script s then true else rest

unfoldable pub new_utxo : List ℕ → ℤ → ℕ → TxOut → Utxo
new_utxo hash height i out = record {
  op = record { hash = hash; index = i % 2 ^ 32 };
  at_height = height;
  value = out.value;
  script_pubkey = out.pk_script;
  watch_only = false;
  frozen = false;
}

abbrev keep_first : Utxo → Option (Utxo × List Utxo) → Option (Utxo × List Utxo)
keep_first u none = none
keep_first u (some (v, m)) = some (v, u ∷ m)

-- The first output that an input spends, and the outputs without it.
unfoldable pub take_spent : OutPoint → List Utxo → Option (Utxo × List Utxo)
take_spent op [] = none
take_spent op (u ∷ l) =
    let rest = keep_first u (take_spent op l) in
    if out_points_equal op u.op then some (u, l) else rest

unfoldable pub first_spent_by : List ℕ → List Stxo → Option Stxo
first_spent_by hash [] = none
first_spent_by hash (x ∷ l) =
    let rest = first_spent_by hash l in if bytes_eq x.spend_txid hash then some x else rest

-- A match of a watch-only output sets the mark, another one is a hit.
unfoldable pub tally_hit : Bool → Tally → Tally
tally_hit watch_only y =
    if watch_only then record y { matches_watch_only = true } else record y { hits = hit y.hits }

unfoldable pub tally_received : ℤ → Tally → Tally
tally_received v y = record y { value = wrap64 (y.value +ℤ v); hits = hit y.hits }

unfoldable pub tally_spent : Utxo → Tally → Tally
unfolding tally_hit
tally_spent u y =
    tally_hit u.watch_only
      (if u.watch_only then y else record y { value = wrap64 (y.value -ℤ u.value) })

module _ {A K U X T : Type 0} (calls : Calls A K) (us : Store Utxo U) (xs : Store Stxo X)
    (ts : TxnStore T) where
  abbrev St : Type 0
  St = State A K U X T

  -- An error of GetAll leaves the map as it is.
  unfoldable pub populate_adrs : St → St
  populate_adrs s = record s {
    adrs = calls.key_addresses s.keys;
    txids = elim (ts.get_all s.txns true) [ ok l ↦ known_heights l s.txids | _ ↦ s.txids ];
  }

  unfoldable pub pk_scripts : List A → Option (List (List ℕ))
  pk_scripts [] = some []
  pk_scripts (a ∷ l) = elim (calls.pay_to_addr_script a) [
    | none ↦ none
    | some script ↦ elim (pk_scripts l) [ none ↦ none | some rest ↦ some (script ∷ rest) ]
  ]

  unfoldable pub mark_all : List (List ℕ) → St → St
  mark_all [] s = s
  mark_all (d ∷ l) s = mark_all l (mark_dead calls us xs ts d s).0

  -- One output that pays to us; the errors of the key and of the put are not read.
  unfoldable pub receive : List ℕ → ℤ → ℕ → TxOut → St → St
  receive hash height i out s =
      (put_utxo calls us xs ts (new_utxo hash height i out)
        (record s { keys = calls.mark_key_as_used s.keys (calls.script_address out.pk_script) })).0

  -- The loop over the outputs, from number `i` on.
  unfoldable pub scan_outputs :
      List (List ℕ) → List ℕ → ℤ → ℕ → List TxOut → St × Tally → St × Tally
  scan_outputs scripts hash height i [] r = r
  scan_outputs scripts hash height i (out ∷ l) (s, y) = scan_outputs scripts hash height (suc i) l (
      if pays_us scripts out.pk_script
      then (receive hash height i out s, tally_received out.value y)
      else (s, y))

  unfoldable pub spend : List ℕ → ℤ → Utxo → St → St
  spend hash height u s =
      (delete_utxo calls us xs ts u
        (put_stxo calls us xs ts (record { utxo = u; spend_height = height; spend_txid = hash })
          s).0).0

  -- The loop over the inputs, with the unspent outputs that are left of the list.
  unfoldable pub scan_inputs : List ℕ → ℤ → List OutPoint → List Utxo → St × Tally → St × Tally
  scan_inputs hash height [] outs r = r
  scan_inputs hash height (i ∷ l) outs (s, y) = elim (take_spent i outs) [
    | none ↦ scan_inputs hash height l outs (s, y)
    | some (u, left) ↦ scan_inputs hash height l left (spend hash height u s, tally_spent u y)
  ]

  -- The height of the first output that the transaction is known to spend.
  unfoldable pub confirm_spent : List ℕ → ℤ → List Stxo → St × Tally → St × Tally
  confirm_spent hash height l (s, y) = elim (first_spent_by hash l) [
    | none ↦ (s, y)
    | some x ↦ (
      (put_stxo calls us xs ts (record x { spend_height = height }) s).0,
      tally_hit x.utxo.watch_only y,
    )
  ]

  abbrev kept : T → Result StoreError T → T
  kept t (ok t') = t'
  kept t _ = t

  -- A new transaction is stored, and the height of one that is not confirmed is updated.
  unfoldable pub store_tx : Tx → ℤ → ℕ → St × Tally → St
  store_tx tx height timestamp (s, y) =
      let txid = calls.hash_string (calls.tx_hash tx) in
      let with_height : T → St = λ t. record s { txns = t; txids = set_txid s.txids txid height } in
      elim (ts.get s.txns txid) [
        | ok t ↦
            if leb_ℤ t.height (pos 0)
            then with_height (kept s.txns (ts.update_height s.txns txid height t.timestamp))
            else s
        | _ ↦ with_height (
            kept s.txns (
              ts.put s.txns (record {
                txid = txid;
                value = y.value;
                height = height;
                timestamp = timestamp;
                watch_only = y.hits == 0;
                bytes = calls.encode tx;
              })))
      ]

  unfoldable pub finish_tx : Tx → ℤ → ℕ → St × Tally → St × ℕ × Option TxError
  finish_tx tx height timestamp (s, y) =
      if ltb 0 y.hits || y.matches_watch_only
      then (populate_adrs (store_tx tx height timestamp (s, y)), hit y.hits, none)
      else (s, y.hits, none)

  -- What follows the scan of the inputs.
  unfoldable pub after_inputs : Tx → ℤ → ℕ → St × Tally → St × ℕ × Option TxError
  after_inputs tx height timestamp (s, y) =
      if ltb_ℤ (pos 0) height
      then elim (xs.get_all s.stxos) [
        | err e ↦ (s, 0, some (store_error e))
        | panic ↦ (s, 0, some store_panic)
        | ok l ↦ finish_tx tx height timestamp (confirm_spent (calls.tx_hash tx) height l (s, y))
      ]
      else finish_tx tx height timestamp (s, y)

  -- What follows the scan of the outputs.
  unfoldable pub scan_rest : Tx → ℤ → ℕ → St × Tally → St × ℕ × Option TxError
  scan_rest tx height timestamp (s, y) = elim (us.get_all s.utxos) [
    | err e ↦ (s, 0, some (store_error e))
    | panic ↦ (s, 0, some store_panic)
    | ok outs ↦
        after_inputs tx height timestamp
          (scan_inputs (calls.tx_hash tx) height tx.tx_in outs (s, y))
  ]

  unfoldable pub scan_tx : Tx → ℤ → ℕ → St → St × ℕ × Option TxError
  scan_tx tx height timestamp s = elim (pk_scripts s.adrs) [
    | none ↦ (s, 0, some bad_address)
    | some scripts ↦ scan_rest tx height timestamp (
        scan_outputs scripts (calls.tx_hash tx) height 0 tx.tx_out
          (s, record { value = pos 0; hits = 0; matches_watch_only = false }))
  ]

  -- Whether the transaction was processed up to its confirmed state.
  unfoldable pub is_processed : Tx → ℤ → St → Bool
  is_processed tx height s = elim (s.txids (calls.hash_string (calls.tx_hash tx))) [
    | none ↦ false
    | some sh ↦ ltb_ℤ (pos 0) sh || (eqb_ℤ sh (pos 0) && eqb_ℤ height (pos 0))
  ]

  unfoldable pub add_transaction : Tx → ℤ → ℕ → St → St × ℕ × Option TxError
  add_transaction tx height timestamp s =
      if not (calls.is_sane tx)
      then (s, 0, some not_sane)
      else if is_processed tx height s
      then (s, 1, none)
      else elim (check_double_spends calls ts s.txns tx) [
        | err e ↦ (s, 0, some e)
        | panic ↦ (s, 0, some store_panic)
        | ok dubs ↦
            if ltb 0 (length dubs) && eqb_ℤ height (pos 0)
            then (s, 0, none)
            else scan_tx tx height timestamp (mark_all dubs s)
      ]
