-- ===== src/Tests/Stores.antt =====
-- A bucket as a list of keys and records, under the theorems of the stores on bbolt.
use go_electrum_client.Prelude.{
  ℕ, ◌+◌, ◌-◌, ◌≡◌, refl, ap, true, false, some, List, [], ◌∷◌, ◌++◌, map, arith,
}
use go_electrum_client.Prelude.Ip.{contains}
use go_electrum_client.Prelude.Bytes.{bytes_eq}
use go_electrum_client.Prelude.Int.{pos}
use go_electrum_client.Prelude.Results.{ok}
use go_electrum_client.Datastore.{OutPoint, Utxo, Stxo}
use go_electrum_client.Datastore.Interface.{Keeps, Store}
use go_electrum_client.Datastore.Keyed.{erase, find, Distinct, find-erase_self, Distinct-erase}
use go_electrum_client.Datastore.OutPoints.{
  HashTexts, decimal, new_out_point_from_string, split, index_of, parse_uint,
}
use go_electrum_client.Datastore.OutPoints.Printed.{Prints, new_out_point_from_string-op_string}
use go_electrum_client.Stores.{Bucket, put_rec, get_rec, get_all_recs, values, read_recs}
use go_electrum_client.Stores.Walks.{at, same_key, value_of, Lawful}
use go_electrum_client.Stores.Records.Kept.{IsRecorded}
use go_electrum_client.Stores.Refined.{same_utxo, FitsUtxo, utxo_recording, utxo_store-Keeps}
use go_electrum_client.Stores.Utxos.{UtxoRec, utxo_store, get_all, freeze, to_rec, of_rec}
use go_electrum_client.Wallet.{freeze_utxo, on_utxo}
use go_electrum_client.Wallet.Freezing.{ChangedAt, freeze_utxo-Changes}

abbrev pub Entries : Type 0 → Type 0
Entries R = (l : List (List ℕ × R)) × Distinct same_key l

abbrev pub entries : {R : Type 0} → Bucket R (Entries R)
entries = record {
  reachable = λ b. true;
  get = λ b k. value_of (find (at k) b.0);
  put = λ b k r. (
    (k, r) ∷ erase (at k) b.0,
    (find-erase_self (at k) b.0, Distinct-erase same_key (at k) b.0 b.1),
  );
  delete = λ b k. (erase (at k) b.0, Distinct-erase same_key (at k) b.0 b.1);
  for_each = λ b. b.0;
}

pub entries-Lawful : {R : Type 0} → Lawful (entries {R = R})
entries-Lawful = record {
  reachable_put = λ b k r. refl;
  reachable_delete = λ b k. refl;
  get_walk = λ b k. refl;
  walk_put = λ b k r. record { before = []; after = erase (at k) b.0; was = refl; now = refl };
  walk_delete = λ b k. refl;
  walk_distinct = λ b. b.1;
}

-- A text of a hash has a code above the colon for each byte.
abbrev pub texts : HashTexts
texts = record {
  hash_string = map (λ b. b + 59);
  hash_from_str = λ s. some (map (λ c. c - 59) s);
  op_string = λ op. map (λ b. b + 59) op.hash ++ 58 ∷ decimal 10 op.index;
}

no_colon : (h : List ℕ) → contains 58 (map (λ b. b + 59) h) ≡ false
no_colon [] = refl
no_colon (b ∷ h) = ground (arith, no_colon h)

there_and_back : (h : List ℕ) → map (λ (c : ℕ). c - 59) (map (λ b. b + 59) h) ≡ h
there_and_back [] = refl
there_and_back (b ∷ h) =
    let e : b + 59 - 59 ≡ b = omega arith in rw e (ap (◌∷◌ b) (there_and_back h))

pub texts-Prints : Prints texts
texts-Prints = record {
  no_colon = no_colon;
  reads_back = λ h e. ap some (there_and_back h);
  op_string_lem = λ op. refl;
}

-- A hash of 32 bytes.
abbrev pub digest : ℕ → List ℕ
digest n =
    n ∷ 0 ∷ 0 ∷ 0 ∷ 0 ∷ 0 ∷ 0 ∷ 0 ∷ 0 ∷ 0 ∷ 0 ∷ 0 ∷ 0 ∷ 0 ∷ 0 ∷ 0 ∷ 0 ∷ 0 ∷ 0 ∷ 0 ∷ 0 ∷ 0 ∷ 0 ∷ 0
    ∷ 0 ∷ 0 ∷ 0 ∷ 0 ∷ 0 ∷ 0 ∷ 0 ∷ 0 ∷ []

abbrev point : OutPoint
point = record { hash = digest 5; index = 170 }

new_out_point_from_string-op_string_example :
    new_out_point_from_string texts (texts.op_string point) ≡ some point
new_out_point_from_string-op_string_example =
    new_out_point_from_string-op_string texts point texts-Prints (refl, omega arith)

utxo_store-Keeps_example :
    Keeps same_utxo FitsUtxo
      (utxo_store texts entries)
      (IsRecorded (utxo_recording texts texts-Prints) entries)
utxo_store-Keeps_example = utxo_store-Keeps texts texts-Prints entries entries-Lawful

abbrev coin : Utxo
coin = record {
  op = point;
  at_height = pos 9;
  value = pos 70;
  script_pubkey = 1 ∷ [];
  watch_only = false;
  frozen = false;
}

abbrev frozen_coin : Utxo
frozen_coin = record coin { frozen = true }

-- The coin in an empty bucket, and its frozen record put over it.
one_coin : Entries UtxoRec
one_coin = entries.put ([], tt) (texts.op_string point) (to_rec texts coin)

one_frozen : Entries UtxoRec
one_frozen = entries.put one_coin (texts.op_string point) (to_rec texts frozen_coin)

one_coin-listed : get_all texts entries one_coin ≡ ok (coin ∷ [])
unfolding one_coin get_all get_all_recs values read_recs of_rec to_rec erase
    new_out_point_from_string split index_of parse_uint decimal
one_coin-listed = refl

one_coin-frozen : freeze texts entries one_coin coin ≡ ok one_frozen
unfolding one_coin one_frozen freeze get_rec put_rec to_rec find erase bytes_eq decimal
one_coin-frozen = refl

one_coin-IsRecorded : IsRecorded (utxo_recording texts texts-Prints) entries one_coin
unfolding one_coin erase
one_coin-IsRecorded = (coin ∷ [], (refl, refl, (refl, omega arith), tt))

abbrev no_stxos : Store Stxo (Unit {0})
no_stxos = record { put = λ s x. ok s; get_all = λ s. ok []; delete = λ s x. ok s }

one_coin-frozen_by_wallet :
    freeze_utxo (utxo_store texts entries) no_stxos (freeze texts entries) one_coin point
    ≡ ok one_frozen
unfolding freeze_utxo on_utxo bytes_eq
one_coin-frozen_by_wallet = rw one_coin-listed one_coin-frozen

freeze_utxo-Changes_example :
    ChangedAt texts texts-Prints entries no_stxos
      (λ w. record w { frozen = true })
      point
      (coin ∷ [])
      one_frozen
freeze_utxo-Changes_example =
    freeze_utxo-Changes texts texts-Prints entries no_stxos one_coin one_frozen point (coin ∷ [])
      entries-Lawful one_coin-IsRecorded one_coin-listed one_coin-frozen_by_wallet
