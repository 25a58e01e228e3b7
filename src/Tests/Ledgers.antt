-- ===== src/Tests/Ledgers.antt =====
-- Stores that are lists, and a few transactions.
use go_electrum_client.Prelude.{
  ℕ, ◌+◌, ◌≡◌, refl, sym, ap, subst, ◌∙◌, Bool, true, false, none, some, Option, List, [], ◌∷◌,
  if◌then◌else◌, ◌==◌,
}
use go_electrum_client.Prelude.Bytes.{bytes_eq}
use go_electrum_client.Prelude.Int.{ℤ, pos, negsuc, pos_part}
use go_electrum_client.Prelude.Results.{Result, ok, err, panic, ok_injective}
use go_electrum_client.Datastore.{OutPoint, Utxo, Stxo, Txn}
use go_electrum_client.Datastore.Interface.{StoreError, no_record, Store, TxnStore, Keeps}
use go_electrum_client.Datastore.Keyed.{
  erase, find, All, Distinct, find-erase_self, Distinct-erase, All-erase,
}
use go_electrum_client.Stores.Refined.{same_utxo, same_stxo, FitsUtxo, FitsStxo}
use go_electrum_client.Stores.Txns.{wanted}
use go_electrum_client.TxStore.{Tx, TxOut, Calls, State}
use go_electrum_client.Tests.Stores.{digest}

-- A store as a list of the elements.
module _ {V : Type 0} (same : V → V → Bool) where
  abbrev pub list_store : Store V (List V)
  list_store = record {
    put = λ s v. ok (v ∷ erase (same v) s);
    get_all = λ s. ok s;
    delete = λ s v. ok (erase (same v) s);
  }

  module _ (Fits : V → Type 0) where
    abbrev pub IsList : List V → Type 0
    IsList l = Distinct same l × All Fits l

    pub list_store-Keeps : Keeps same Fits list_store IsList
    list_store-Keeps = record {
      put_valid = λ s s' v valid fit e. subst IsList (ok_injective e) (
        (find-erase_self (same v) s, Distinct-erase same (same v) s valid.0),
        (fit, All-erase Fits (same v) s valid.1),
      );
      put_keeps = λ s s' v l valid fit all e.
          let at_l : s ≡ l = ok_injective all in
          (
            v ∷ erase (same v) l,
            record { before = []; after = erase (same v) l; was = refl; now = refl },
            sym e ∙ ap (λ z. ok (v ∷ erase (same v) z)) at_l,
          );
      delete_valid = λ s s' v valid fit e.
          subst IsList (ok_injective e)
            (Distinct-erase same (same v) s valid.0, All-erase Fits (same v) s valid.1);
      delete_keeps =
          λ s s' v l valid fit all e. sym e ∙ ap (λ z. ok (erase (same v) z)) (ok_injective all);
      distinct = λ s l valid all. subst (Distinct same) (ok_injective all) valid.0;
      all_fit = λ s l valid all. subst (All Fits) (ok_injective all) valid.1;
    }

pub utxos-Keeps : Keeps same_utxo FitsUtxo (list_store same_utxo) (IsList same_utxo FitsUtxo)
utxos-Keeps = list_store-Keeps same_utxo FitsUtxo

pub stxos-Keeps : Keeps same_stxo FitsStxo (list_store same_stxo) (IsList same_stxo FitsStxo)
stxos-Keeps = list_store-Keeps same_stxo FitsStxo

abbrev pub has_txid : List ℕ → Txn → Bool
has_txid k t = bytes_eq k t.txid

abbrev pub get_txn : List Txn → List ℕ → Result StoreError Txn
get_txn s k = elim (find (has_txid k) s) [ none ↦ err no_record | some t ↦ ok t ]

abbrev pub list_txns : TxnStore (List Txn)
list_txns = record {
  put = λ s t. ok (t ∷ erase (has_txid t.txid) s);
  get = get_txn;
  get_all = λ s w. ok (wanted w s);
  update_height = λ s k h time. elim (get_txn s k) [
    | ok t ↦ ok ((record t { height = h; timestamp = time }) ∷ erase (has_txid k) s)
    | err e ↦ err e
    | panic ↦ panic
  ];
  delete = λ s k. ok (erase (has_txid k) s);
}

-- Hashes are told by the value of the outputs.
abbrev pub worth : List TxOut → ℕ
worth [] = 0
worth (out ∷ l) = pos_part out.value + worth l

abbrev pub ours : List ℕ
ours = 1 ∷ []

abbrev pub theirs : List ℕ
theirs = 2 ∷ []

abbrev pub point : ℕ → OutPoint
point n = record { hash = digest n; index = 0 }

-- A payment to us, a payment that spends it, and one in conflict with the first.
abbrev pub paying : Tx
paying = record { tx_in = point 99 ∷ []; tx_out = record { value = pos 5; pk_script = ours } ∷ [] }

abbrev pub spending : Tx
spending = record {
  tx_in = point 5 ∷ [];
  tx_out =
      record { value = pos 3; pk_script = ours }
      ∷ record { value = pos 1; pk_script = theirs }
      ∷ [];
}

abbrev pub rival : Tx
rival = record { tx_in = point 99 ∷ []; tx_out = record { value = pos 7; pk_script = theirs } ∷ [] }

abbrev pub known_tx : ℕ → Option Tx
known_tx n =
    if n == 5
    then some paying
    else if n == 4
    then some spending
    else if n == 7
    then some rival
    else none

abbrev pub decode_tx : List ℕ → Option Tx
decode_tx (n ∷ []) = known_tx n
decode_tx _ = none

abbrev pub calls : Calls (List ℕ) (List (List ℕ))
calls = record {
  tx_hash = λ tx. digest (worth tx.tx_out);
  hash_string = λ h. h;
  is_sane = λ tx. true;
  encode = λ tx. worth tx.tx_out ∷ [];
  decode = decode_tx;
  pay_to_addr_script = λ a. some a;
  script_address = λ s. s;
  key_addresses = λ k. k;
  mark_key_as_used = λ k a. k;
  now = λ n. n;
}

abbrev pub Wallet : Type 0
Wallet = State (List ℕ) (List (List ℕ)) (List Utxo) (List Stxo) (List Txn)

abbrev pub us : Store Utxo (List Utxo)
us = list_store same_utxo

abbrev pub xs : Store Stxo (List Stxo)
xs = list_store same_stxo

abbrev pub empty : Wallet
empty = record {
  utxos = [];
  stxos = [];
  txns = [];
  keys = ours ∷ [];
  adrs = ours ∷ [];
  txids = λ k. none;
  reads = 0;
}

abbrev pub coin_of : ℕ → ℤ → ℤ → Utxo
coin_of n v height = record {
  op = point n;
  at_height = height;
  value = v;
  script_pubkey = ours;
  watch_only = false;
  frozen = false;
}

abbrev pub txn_of : ℕ → ℤ → Txn
txn_of n v = record {
  txid = digest n;
  value = v;
  height = pos 0;
  timestamp = 0;
  watch_only = false;
  bytes = n ∷ [];
}

-- After the payment, without a block.
abbrev pub holding : Wallet
holding = record empty { utxos = coin_of 5 (pos 5) (pos 0) ∷ []; txns = txn_of 5 (pos 5) ∷ [] }

abbrev pub spent_coin : Stxo
spent_coin = record {
  utxo = coin_of 5 (pos 5) (pos 0);
  spend_height = pos 0;
  spend_txid = digest 4;
}

-- And after the payment that spends it.
abbrev pub passed_on : Wallet
passed_on = record empty {
  utxos = coin_of 4 (pos 3) (pos 0) ∷ [];
  stxos = spent_coin ∷ [];
  txns = txn_of 4 (negsuc 1) ∷ txn_of 5 (pos 5) ∷ [];
}
