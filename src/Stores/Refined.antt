-- ===== src/Stores/Refined.antt =====
-- UtxoDB and StxoDB of wallet/bdb meet the interfaces Utxos and Stxos of wallet/datastore.go.
use go_electrum_client.Prelude.{
  some_injective, ◌≡◌, refl, sym, ap, ◌∙◌, inl, inr, Bool, true, arith, Bool-cases, length,
}
use go_electrum_client.Prelude.Bytes.{bytes_eq, bytes_eq_refl, bytes_eq_iff}
use go_electrum_client.Prelude.Results.{ok}
use go_electrum_client.Datastore.{OutPoint, Utxo, Stxo, out_points_equal}
use go_electrum_client.Datastore.Interface.{Keeps}
use go_electrum_client.Datastore.OutPoints.{HashTexts, new_out_point_from_string}
use go_electrum_client.Datastore.OutPoints.Printed.{
  Prints, IsOutPoint, new_out_point_from_string-op_string,
}
use go_electrum_client.Stores.{Bucket}
use go_electrum_client.Stores.Walks.{Lawful}
use go_electrum_client.Stores.Records.{Recording}
use go_electrum_client.Stores.Records.Kept.{IsRecorded, recorded-Keeps}
use go_electrum_client.Stores.Utxos
use go_electrum_client.Stores.Stxos
use go_electrum_client.Stores.Utxos.{UtxoRec, utxo_store}
use go_electrum_client.Stores.Stxos.{StxoRec, stxo_store}

pub eq_of_out_points_equal : (a b : OutPoint) → out_points_equal a b ≡ true → a ≡ b
unfolding out_points_equal
eq_of_out_points_equal a b h =
    let hashes : bytes_eq a.hash b.hash ≡ true = ground arith in
    let same : a.hash ≡ b.hash = (bytes_eq_iff a.hash b.hash).0 hashes in
    let indices : a.index ≡ b.index = ground arith in cc

pub out_points_equal_refl : (a : OutPoint) → out_points_equal a a ≡ true
unfolding out_points_equal
out_points_equal_refl a = ground (arith, bytes_eq_refl a.hash)

pub out_points_equal_comm : (a b : OutPoint) → out_points_equal a b ≡ out_points_equal b a
out_points_equal_comm a b = elim (Bool-cases (out_points_equal a b)) [
  | inl same ↦ let e = eq_of_out_points_equal a b same in rw e refl
  | inr other ↦ elim (Bool-cases (out_points_equal b a)) [
    | inl same ↦ let e = eq_of_out_points_equal b a same in rw e refl
    | inr other' ↦ other ∙ sym other'
  ]
]

abbrev pub same_utxo : Utxo → Utxo → Bool
same_utxo u v = out_points_equal u.op v.op

abbrev pub same_stxo : Stxo → Stxo → Bool
same_stxo s t = out_points_equal s.utxo.op t.utxo.op

abbrev pub FitsUtxo : Utxo → Type 0
FitsUtxo u = IsOutPoint u.op

abbrev pub FitsStxo : Stxo → Type 0
FitsStxo s = IsOutPoint s.utxo.op × (length s.spend_txid ≡ 32)

module _ (texts : HashTexts) (prints : Prints texts) where
  op_string_injective :
      (a b : OutPoint) → IsOutPoint a → IsOutPoint b → texts.op_string a ≡ texts.op_string b → a ≡ b
  op_string_injective a b fa fb e = some_injective (
      sym (new_out_point_from_string-op_string texts a prints fa)
      ∙ ap (new_out_point_from_string texts) e
      ∙ new_out_point_from_string-op_string texts b prints fb)

  pub op_string_same :
      (a b : OutPoint)
      → IsOutPoint a
      → IsOutPoint b
      → bytes_eq (texts.op_string a) (texts.op_string b) ≡ out_points_equal a b
  op_string_same a b fa fb = elim (Bool-cases (bytes_eq (texts.op_string a) (texts.op_string b))) [
    | inl same ↦
        let e = op_string_injective a b fa fb ((bytes_eq_iff _ _).0 same) in
        same ∙ sym (ap (out_points_equal a) (sym e) ∙ out_points_equal_refl a)
    | inr other ↦ elim (Bool-cases (out_points_equal a b)) [
      | inr no_match ↦ other ∙ sym no_match
      | inl equal ↦
          let e = ap texts.op_string (eq_of_out_points_equal a b equal) in
          (bytes_eq_iff (texts.op_string a) (texts.op_string b)).1 e ∙ sym equal
    ]
  ]

  pub utxo_reads_back : (u : Utxo) → FitsUtxo u → Utxos.of_rec texts (Utxos.to_rec texts u) ≡ ok u
  unfolding Utxos.of_rec Utxos.to_rec
  utxo_reads_back u fit =
      rw (new_out_point_from_string-op_string texts u.op prints fit, Utxos.of_rec) refl

  pub stxo_reads_back : (s : Stxo) → FitsStxo s → Stxos.of_rec texts (Stxos.to_rec texts s) ≡ ok s
  unfolding Stxos.of_rec Stxos.to_rec
  stxo_reads_back s fit =
      rw (new_out_point_from_string-op_string texts s.utxo.op prints fit.0, Stxos.of_rec)
        (rw (prints.reads_back s.spend_txid fit.1, Stxos.of_rec) refl)

  abbrev pub utxo_recording : Recording UtxoRec Utxo
  utxo_recording = record {
    key = λ u. texts.op_string u.op;
    to_rec = Utxos.to_rec texts;
    of_rec = Utxos.of_rec texts;
    same = same_utxo;
    Fits = FitsUtxo;
    reads_back = utxo_reads_back;
    same_key_lem = λ u v. op_string_same u.op v.op;
  }

  abbrev pub stxo_recording : Recording StxoRec Stxo
  stxo_recording = record {
    key = λ s. texts.op_string s.utxo.op;
    to_rec = Stxos.to_rec texts;
    of_rec = Stxos.of_rec texts;
    same = same_stxo;
    Fits = FitsStxo;
    reads_back = stxo_reads_back;
    same_key_lem = λ s t fs ft. op_string_same s.utxo.op t.utxo.op fs.0 ft.0;
  }

  -- The bucket of unspent outputs keeps a list of outputs with different output points: a put
  -- replaces the output at its point or adds it, a delete takes it out, and GetAll gives the list.
  pub utxo_store-Keeps :
      {B : Type 0} (ops : Bucket UtxoRec B)
      → Lawful ops
      → Keeps same_utxo FitsUtxo (utxo_store texts ops) (IsRecorded utxo_recording ops)
  unfolding Utxos.put Utxos.get_all Utxos.delete
  utxo_store-Keeps ops laws = recorded-Keeps utxo_recording ops laws

  -- So does the bucket of spent outputs.
  pub stxo_store-Keeps :
      {B : Type 0} (ops : Bucket StxoRec B)
      → Lawful ops
      → Keeps same_stxo FitsStxo (stxo_store texts ops) (IsRecorded stxo_recording ops)
  unfolding Stxos.put Stxos.get_all Stxos.delete
  stxo_store-Keeps ops laws = recorded-Keeps stxo_recording ops laws
