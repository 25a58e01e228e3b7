-- ===== src/TxStore/Apart/Transaction.antt =====
-- The whole of AddTransaction in wallet/wltbtc/txstore.go keeps unspent and spent outputs apart.
use go_electrum_client.Prelude.{
  ℕ, ◌≡◌, refl, ap, subst, ◌∙◌, inl, inr, Bool, false, ◌&&◌, ◌||◌, List, Bool-cases, Option-cases,
  length, ltb,
}
use go_electrum_client.Prelude.Bytes.{bytes_eq}
use go_electrum_client.Prelude.Int.{ℤ, pos, ltb_ℤ, eqb_ℤ, leb_ℤ}
use go_electrum_client.Prelude.Results.{Result-cases}
use go_electrum_client.Datastore.{Utxo, Stxo, out_points_equal}
use go_electrum_client.Datastore.Interface.{Store, TxnStore, Keeps}
use go_electrum_client.Datastore.Keyed.{find, All, All-map, All-find, All-of_find-none}
use go_electrum_client.Stores.Refined.{same_utxo, same_stxo, FitsUtxo, FitsStxo}
use go_electrum_client.TxStore.{Tx, Calls, State, Tally}
use go_electrum_client.TxStore.Doubles.{check_double_spends}
use go_electrum_client.TxStore.Add.{
  first_spent_by, populate_adrs, pk_scripts, mark_all, scan_outputs, scan_inputs, confirm_spent,
  store_tx, finish_tx, after_inputs, scan_rest, scan_tx, is_processed, add_transaction,
}
use go_electrum_client.TxStore.Apart.{Apart, IsUnspent}
use go_electrum_client.TxStore.Apart.Spent.{put_stxo-Inv, Deletes}
use go_electrum_client.TxStore.Apart.Added.{
  IsOther, Any, Ok, NoFail, find-first_spent_by, Any-of, mark_all-Inv, scan_outputs-Inv,
  scan_inputs-Inv,
}

module _ {A K U X T : Type 0} (calls : Calls A K) (us : Store Utxo U) (xs : Store Stxo X)
    (ts : TxnStore T) (ValidU : U → Type 0) (ValidX : X → Type 0)
    (keeps_u : Keeps same_utxo FitsUtxo us ValidU)
    (keeps_x : Keeps same_stxo FitsStxo xs ValidX) where
  abbrev Good : (Stxo → Type 0) → State A K U X T → Type 0
  Good = Ok calls us xs ts ValidU ValidX keeps_u keeps_x

  confirm_spent-Inv :
      (hash : List ℕ) (height : ℤ) (l : List Stxo) (s : State A K U X T) (y : Tally)
      (h : Good Any s)
      → h.spent ≡ l
      → Good Any (confirm_spent calls us xs ts hash height l (s, y)).0
  unfolding confirm_spent
  confirm_spent-Inv hash height l s y h same = elim (Option-cases (first_spent_by hash l)) [
    | inl nothing ↦ rw (nothing, confirm_spent) h
    | inr (x, q) ↦
        let fits =
          subst (All FitsStxo) same (keeps_x.all_fit s.stxos h.spent h.valid_stxos h.all_stxos) in
        let found = find-first_spent_by hash l x q in
        let by_hash : Stxo → Bool = λ z. bytes_eq z.spend_txid hash in
        let (fit, _) = All-find FitsStxo by_hash l x fits found in
        rw (q, confirm_spent)
          (put_stxo-Inv calls us xs ts ValidU ValidX keeps_u keeps_x Any
            (record x { spend_height = height }) s h fit tt
            (All-map (IsUnspent h.spent) (λ u. out_points_equal u.op x.utxo.op ≡ false) h.unspent
              (λ u free.
                (All-find (λ (z : Stxo). out_points_equal u.op z.utxo.op ≡ false) by_hash h.spent x
                  (All-of_find-none (λ (z : Stxo). out_points_equal u.op z.utxo.op) h.spent free)
                  (ap (find by_hash) same ∙ found)).0)
              h.apart))
  ]

  store_tx-Inv :
      (tx : Tx) (height : ℤ) (timestamp : ℕ) (s : State A K U X T) (y : Tally)
      → Good Any s
      → Good Any (store_tx calls us xs ts tx height timestamp (s, y))
  unfolding store_tx
  store_tx-Inv tx height timestamp s y h =
      elim (Result-cases (ts.get s.txns (calls.hash_string (calls.tx_hash tx)))) [
        | inl (t, e) ↦ elim (Bool-cases (leb_ℤ t.height (pos 0))) [
          | inl low ↦ rw (e, store_tx) (rw low h)
          | inr high ↦ rw (e, store_tx) (rw high h)
        ]
        | inr (inl (x, e)) ↦ rw (e, store_tx) h
        | inr (inr e) ↦ rw (e, store_tx) h
      ]

  finish_tx-Inv :
      (tx : Tx) (height : ℤ) (timestamp : ℕ) (s : State A K U X T) (y : Tally)
      → Good Any s
      → Good Any (finish_tx calls us xs ts tx height timestamp (s, y)).0
  unfolding finish_tx populate_adrs
  finish_tx-Inv tx height timestamp s y h =
      elim (Bool-cases (ltb 0 y.hits || y.matches_watch_only)) [
        | inl relevant ↦ rw (relevant, finish_tx) (store_tx-Inv tx height timestamp s y h)
        | inr other ↦ rw (other, finish_tx) h
      ]

  after_inputs-Inv :
      (tx : Tx) (height : ℤ) (timestamp : ℕ) (s : State A K U X T) (y : Tally)
      → Good Any s
      → Good Any (after_inputs calls us xs ts tx height timestamp (s, y)).0
  unfolding after_inputs
  after_inputs-Inv tx height timestamp s y h = elim (Bool-cases (ltb_ℤ (pos 0) height)) [
    | inl mined ↦
        let r : State A K U X T × Tally =
          confirm_spent calls us xs ts (calls.tx_hash tx) height h.spent (s, y) in
        rw (mined, after_inputs)
          (rw h.all_stxos (
            finish_tx-Inv tx height timestamp r.0 r.1
              (confirm_spent-Inv (calls.tx_hash tx) height h.spent s y h refl)))
    | inr loose ↦ rw (loose, after_inputs) (finish_tx-Inv tx height timestamp s y h)
  ]

  scan_rest-Inv :
      (tx : Tx) (height : ℤ) (timestamp : ℕ) (s : State A K U X T) (y : Tally)
      → length (calls.tx_hash tx) ≡ 32
      → NoFail calls us xs ts ValidU ValidX keeps_u keeps_x
      → Good Any s
      → Good Any (scan_rest calls us xs ts tx height timestamp (s, y)).0
  unfolding scan_rest
  scan_rest-Inv tx height timestamp s y long deletes h =
      let r : State A K U X T × Tally =
        scan_inputs calls us xs ts (calls.tx_hash tx) height tx.tx_in h.unspent (s, y) in
      rw (h.all_utxos, scan_rest)
        (after_inputs-Inv tx height timestamp r.0 r.1 (
          scan_inputs-Inv calls us xs ts ValidU ValidX keeps_u keeps_x (calls.tx_hash tx) height
            tx.tx_in h.unspent s y h long deletes refl))

  scan_tx-Inv :
      (tx : Tx) (height : ℤ) (timestamp : ℕ) (s : State A K U X T)
      → length (calls.tx_hash tx) ≡ 32
      → NoFail calls us xs ts ValidU ValidX keeps_u keeps_x
      → Good (IsOther (calls.tx_hash tx)) s
      → Good Any (scan_tx calls us xs ts tx height timestamp s).0
  unfolding scan_tx
  scan_tx-Inv tx height timestamp s long deletes h =
      elim (Option-cases (pk_scripts calls us xs ts s.adrs)) [
        | inl bad ↦
            rw (bad, scan_tx)
              (Any-of calls us xs ts ValidU ValidX keeps_u keeps_x (IsOther (calls.tx_hash tx)) s h)
        | inr (scripts, q) ↦
            let start : Tally = record { value = pos 0; hits = 0; matches_watch_only = false } in
            let r : State A K U X T × Tally =
              scan_outputs calls us xs ts scripts (calls.tx_hash tx) height 0 tx.tx_out
                (s, start) in
            rw (q, scan_tx)
              (scan_rest-Inv tx height timestamp r.0 r.1 long deletes (
                Any-of calls us xs ts ValidU ValidX keeps_u keeps_x (IsOther (calls.tx_hash tx)) r.0
                  (scan_outputs-Inv calls us xs ts ValidU ValidX keeps_u keeps_x scripts
                    (calls.tx_hash tx) height 0 tx.tx_out s start long h)))
      ]

  -- AddTransaction keeps unspent and spent outputs apart, whether it ends well or not, whatever
  -- double spends it marks as dead on the way: if no output was both before and none of this
  -- transaction's own outputs is spent, no output is both after. Deletes of unspent outputs are
  -- assumed not to fail, and hashes to have 32 bytes.
  pub add_transaction-Apart :
      (tx : Tx) (height : ℤ) (timestamp : ℕ) (s : State A K U X T)
      → length (calls.tx_hash tx) ≡ 32
      → Deletes calls us xs ts ValidU ValidX keeps_u keeps_x Any
      → Apart us xs ValidU ValidX (IsOther (calls.tx_hash tx)) s.utxos s.stxos
      → Apart us xs ValidU ValidX Any
          (add_transaction calls us xs ts tx height timestamp s).0.utxos
          (add_transaction calls us xs ts tx height timestamp s).0.stxos
  unfolding add_transaction
  add_transaction-Apart tx height timestamp s long deletes h =
      elim (Bool-cases (calls.is_sane tx)) [
        | inr bad ↦ rw (bad, add_transaction) same
        | inl sane ↦ elim (Bool-cases (is_processed calls us xs ts tx height s)) [
          | inl known ↦ rw (sane, add_transaction) (rw known same)
          | inr fresh ↦ elim (Result-cases (check_double_spends calls ts s.txns tx)) [
            | inr (inl (x, e)) ↦ rw (sane, add_transaction) (rw fresh (rw e same))
            | inr (inr e) ↦ rw (sane, add_transaction) (rw fresh (rw e same))
            | inl (dubs, e) ↦ elim (Bool-cases (ltb 0 (length dubs) && eqb_ℤ height (pos 0))) [
              | inl later ↦ rw (sane, add_transaction) (rw fresh (rw e (rw later same)))
              | inr first ↦
                  rw (sane, add_transaction)
                    (rw fresh (
                      rw e (
                        rw first (
                          scan_tx-Inv tx height timestamp (mark_all calls us xs ts dubs s) long
                            deletes
                            (mark_all-Inv calls us xs ts ValidU ValidX keeps_u keeps_x
                              (IsOther (calls.tx_hash tx)) dubs s h)))))
            ]
          ]
        ]
      ]
    where
      same : Good Any s
      same = Any-of calls us xs ts ValidU ValidX keeps_u keeps_x (IsOther (calls.tx_hash tx)) s h
