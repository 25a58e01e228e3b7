-- ===== src/Tests/Transactions.antt =====
-- A payment, what spends it and what double spends it, under the theorems of the transaction store.
use go_electrum_client.Prelude.{ℕ, ◌≡◌, ◌≢◌, refl, Bool, true, false, some, List, [], ◌∷◌, arith}
use go_electrum_client.Prelude.Bytes.{bytes_eq}
use go_electrum_client.Prelude.Int.{ℤ, pos, ◌+ℤ◌, ◌-ℤ◌, wrap64}
use go_electrum_client.Prelude.Results.{ok}
use go_electrum_client.Datastore.{Utxo, Stxo, out_points_equal}
use go_electrum_client.Datastore.Keyed.{erase, find}
use go_electrum_client.Stores.Refined.{same_utxo, same_stxo, FitsUtxo, FitsStxo}
use go_electrum_client.Stores.Txns.{wanted}
use go_electrum_client.TxStore.{Tx, new_wire_tx, known_heights, still_marking}
use go_electrum_client.TxStore.Dead.{
  mark_dead, spent_count, mark_as_dead, with_stxos, with_utxos, dead_stxos, revive, follow,
  mark_stxo_as_dead, kill, dead_utxos, put_utxo, delete_utxo, put_stxo, delete_stxo,
}
use go_electrum_client.TxStore.Dead.Loops.{mark_dead_terminates}
use go_electrum_client.TxStore.Doubles.{check_double_spends, double_spends, double_inputs, is_input}
use go_electrum_client.TxStore.Doubles.Exact.{member, some_rival, check_double_spends-member}
use go_electrum_client.TxStore.Add.{
  add_transaction, is_processed, scan_tx, pk_scripts, scan_outputs, pays_us, new_utxo, receive,
  tally_received, tally_spent, tally_hit, scan_rest, scan_inputs, take_spent, spend, after_inputs,
  confirm_spent, first_spent_by, finish_tx, store_tx, populate_adrs, mark_all,
}
use go_electrum_client.TxStore.Add.Value.{received, scan_value}
use go_electrum_client.TxStore.Add.Taken.{spent_worth}
use go_electrum_client.TxStore.Apart.{Apart}
use go_electrum_client.TxStore.Apart.Added.{IsOther, Any}
use go_electrum_client.TxStore.Apart.Transaction.{add_transaction-Apart}
use go_electrum_client.Wallet.Sums.{sum_of}
use go_electrum_client.Datastore.OutPoints.Printed.{IsOutPoint}
use go_electrum_client.Tests.Stores.{digest}
use go_electrum_client.Tests.Ledgers.{
  IsList, utxos-Keeps, stxos-Keeps, list_txns, ours, point, paying, spending, rival, calls, Wallet,
  us, xs, empty, coin_of, txn_of, holding, spent_coin, passed_on,
}

abbrev added : Tx → ℤ → Wallet → Wallet
added tx height s = (add_transaction calls us xs list_txns tx height 0 s).0

paid_utxos : (added paying (pos 0) empty).utxos ≡ holding.utxos
unfolding add_transaction is_processed known_heights check_double_spends double_spends double_inputs
    is_input new_wire_tx out_points_equal bytes_eq wanted scan_tx pk_scripts scan_outputs pays_us
    new_utxo receive tally_received tally_spent tally_hit scan_rest scan_inputs take_spent spend
    after_inputs confirm_spent first_spent_by finish_tx store_tx populate_adrs mark_all mark_dead
    spent_count mark_as_dead with_stxos with_utxos dead_stxos revive follow mark_stxo_as_dead kill
    dead_utxos put_utxo delete_utxo put_stxo delete_stxo find erase wrap64 ◌+ℤ◌ ◌-ℤ◌
paid_utxos = refl

spent_utxos : (added spending (pos 0) holding).utxos ≡ passed_on.utxos
unfolding add_transaction is_processed known_heights check_double_spends double_spends double_inputs
    is_input new_wire_tx out_points_equal bytes_eq wanted scan_tx pk_scripts scan_outputs pays_us
    new_utxo receive tally_received tally_spent tally_hit scan_rest scan_inputs take_spent spend
    after_inputs confirm_spent first_spent_by finish_tx store_tx populate_adrs mark_all mark_dead
    spent_count mark_as_dead with_stxos with_utxos dead_stxos revive follow mark_stxo_as_dead kill
    dead_utxos put_utxo delete_utxo put_stxo delete_stxo find erase wrap64 ◌+ℤ◌ ◌-ℤ◌
spent_utxos = refl

spent_txns : (added spending (pos 0) holding).txns ≡ passed_on.txns
unfolding add_transaction is_processed known_heights check_double_spends double_spends double_inputs
    is_input new_wire_tx out_points_equal bytes_eq wanted scan_tx pk_scripts scan_outputs pays_us
    new_utxo receive tally_received tally_spent tally_hit scan_rest scan_inputs take_spent spend
    after_inputs confirm_spent first_spent_by finish_tx store_tx populate_adrs mark_all mark_dead
    spent_count mark_as_dead with_stxos with_utxos dead_stxos revive follow mark_stxo_as_dead kill
    dead_utxos put_utxo delete_utxo put_stxo delete_stxo find erase wrap64 ◌+ℤ◌ ◌-ℤ◌
spent_txns = refl

-- The first payment is confirmed after it has been spent: its output is unspent again.
confirmed_late :
    (added paying (pos 8) passed_on).utxos ≡ coin_of 5 (pos 5) (pos 8) ∷ passed_on.utxos
unfolding add_transaction is_processed known_heights check_double_spends double_spends double_inputs
    is_input new_wire_tx out_points_equal bytes_eq wanted scan_tx pk_scripts scan_outputs pays_us
    new_utxo receive tally_received tally_spent tally_hit scan_rest scan_inputs take_spent spend
    after_inputs confirm_spent first_spent_by finish_tx store_tx populate_adrs mark_all mark_dead
    spent_count mark_as_dead with_stxos with_utxos dead_stxos revive follow mark_stxo_as_dead kill
    dead_utxos put_utxo delete_utxo put_stxo delete_stxo find erase wrap64 ◌+ℤ◌ ◌-ℤ◌
confirmed_late = refl

still_spent : (added paying (pos 8) passed_on).stxos ≡ spent_coin ∷ []
unfolding add_transaction is_processed known_heights check_double_spends double_spends double_inputs
    is_input new_wire_tx out_points_equal bytes_eq wanted scan_tx pk_scripts scan_outputs pays_us
    new_utxo receive tally_received tally_spent tally_hit scan_rest scan_inputs take_spent spend
    after_inputs confirm_spent first_spent_by finish_tx store_tx populate_adrs mark_all mark_dead
    spent_count mark_as_dead with_stxos with_utxos dead_stxos revive follow mark_stxo_as_dead kill
    dead_utxos put_utxo delete_utxo put_stxo delete_stxo find erase wrap64 ◌+ℤ◌ ◌-ℤ◌
still_spent = refl

-- A block with the rival brings nothing back: both payments are dead.
rival_wins : (added rival (pos 9) passed_on).utxos ≡ []
unfolding add_transaction is_processed known_heights check_double_spends double_spends double_inputs
    is_input new_wire_tx out_points_equal bytes_eq wanted scan_tx pk_scripts scan_outputs pays_us
    new_utxo receive tally_received tally_spent tally_hit scan_rest scan_inputs take_spent spend
    after_inputs confirm_spent first_spent_by finish_tx store_tx populate_adrs mark_all mark_dead
    spent_count mark_as_dead with_stxos with_utxos dead_stxos revive follow mark_stxo_as_dead kill
    dead_utxos put_utxo delete_utxo put_stxo delete_stxo find erase wrap64 ◌+ℤ◌ ◌-ℤ◌
rival_wins = refl

point-IsOutPoint : (n : ℕ) → IsOutPoint (point n)
point-IsOutPoint n = (refl, omega arith)

one_spent : IsList same_stxo FitsStxo (spent_coin ∷ [])
unfolding find
one_spent = ((refl, tt), (((refl, omega arith), refl), tt))

mark_dead_terminates_example :
    let r = mark_dead calls us xs list_txns (digest 5) passed_on in
    (r.1 ≢ some still_marking)
    × (t : Stxo → Bool) × (xs.get_all r.0.stxos ≡ ok (erase t (spent_coin ∷ [])))
mark_dead_terminates_example =
    mark_dead_terminates calls us xs list_txns (IsList same_stxo FitsStxo) stxos-Keeps (digest 5)
      passed_on (spent_coin ∷ []) one_spent refl

all_txns : list_txns.get_all holding.txns true ≡ ok (txn_of 5 (pos 5) ∷ [])
unfolding wanted
all_txns = refl

rival_found : check_double_spends calls list_txns holding.txns rival ≡ ok (digest 5 ∷ [])
unfolding add_transaction is_processed known_heights check_double_spends double_spends double_inputs
    is_input new_wire_tx out_points_equal bytes_eq wanted scan_tx pk_scripts scan_outputs pays_us
    new_utxo receive tally_received tally_spent tally_hit scan_rest scan_inputs take_spent spend
    after_inputs confirm_spent first_spent_by finish_tx store_tx populate_adrs mark_all mark_dead
    spent_count mark_as_dead with_stxos with_utxos dead_stxos revive follow mark_stxo_as_dead kill
    dead_utxos put_utxo delete_utxo put_stxo delete_stxo find erase wrap64 ◌+ℤ◌ ◌-ℤ◌
rival_found = refl

check_double_spends-member_example :
    member (digest 5) (digest 5 ∷ []) ≡ some_rival calls (digest 5) rival (txn_of 5 (pos 5) ∷ [])
check_double_spends-member_example =
    check_double_spends-member calls list_txns holding.txns (digest 5) rival (txn_of 5 (pos 5) ∷ [])
      (digest 5 ∷ []) all_txns rival_found

holding_valid : IsList same_utxo FitsUtxo holding.utxos
unfolding find
holding_valid = ((refl, tt), ((refl, omega arith), tt))

-- The unspent outputs once the change has come in.
abbrev with_change : List Utxo
with_change = coin_of 4 (pos 3) (pos 0) ∷ holding.utxos

change_listed :
    us.get_all
      (scan_outputs calls us xs list_txns
        (ours ∷ [])
        (digest 4)
        (pos 0)
        0
        spending.tx_out
        (holding, record { value = pos 0; hits = 0; matches_watch_only = false })).0.utxos
    ≡ ok with_change
unfolding scan_outputs pays_us receive put_utxo new_utxo bytes_eq erase out_points_equal
change_listed = refl

scan_value_example :
    (scan_inputs calls us xs list_txns (digest 4) (pos 0) spending.tx_in with_change (
      scan_outputs calls us xs list_txns
        (ours ∷ [])
        (digest 4)
        (pos 0)
        0
        spending.tx_out
        (holding, record { value = pos 0; hits = 0; matches_watch_only = false }))).1.value
    ≡ wrap64 (
        sum_of (received (ours ∷ [])) spending.tx_out
        -ℤ sum_of (spent_worth spending.tx_in) with_change)
scan_value_example =
    scan_value calls us xs list_txns (IsList same_utxo FitsUtxo) utxos-Keeps (ours ∷ []) (digest 4)
      (pos 0) spending with_change holding refl holding_valid change_listed

holding-Apart :
    Apart us xs
      (IsList same_utxo FitsUtxo)
      (IsList same_stxo FitsStxo)
      (IsOther (digest 4))
      holding.utxos
      holding.stxos
unfolding find
holding-Apart = record {
  unspent = holding.utxos;
  spent = [];
  valid_utxos = ((refl, tt), ((refl, omega arith), tt));
  valid_stxos = (tt, tt);
  all_utxos = refl;
  all_stxos = refl;
  apart = (refl, tt);
  have = tt;
}

add_transaction-Apart_example :
    Apart us xs
      (IsList same_utxo FitsUtxo)
      (IsList same_stxo FitsStxo)
      Any
      (added spending (pos 0) holding).utxos
      (added spending (pos 0) holding).stxos
add_transaction-Apart_example =
    add_transaction-Apart calls us xs list_txns (IsList same_utxo FitsUtxo)
      (IsList same_stxo FitsStxo) utxos-Keeps stxos-Keeps spending (pos 0) 0 holding refl
      (λ u v valid. (erase (same_utxo v) u, refl)) holding-Apart
