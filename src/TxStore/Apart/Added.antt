-- ===== src/TxStore/Apart/Added.antt =====
-- AddTransaction of wallet/wltbtc/txstore.go keeps unspent and spent outputs apart.
use go_electrum_client.Prelude.{
  ℕ, suc, ◌≡◌, refl, sym, ap, subst, ◌∙◌, inl, inr, false, some, List, [], ◌∷◌, arith, Bool-cases,
  Option-cases, length,
}
use go_electrum_client.Prelude.Bytes.{bytes_eq}
use go_electrum_client.Prelude.Int.{ℤ}
use go_electrum_client.Datastore.{OutPoint, Utxo, Stxo, out_points_equal}
use go_electrum_client.Datastore.Interface.{Store, TxnStore, Keeps}
use go_electrum_client.Datastore.Keyed.{
  erase, find, All, All-map, All-find, find-none_of_All, Distinct,
}
use go_electrum_client.Stores.Refined.{
  same_utxo, same_stxo, FitsUtxo, FitsStxo, eq_of_out_points_equal,
}
use go_electrum_client.TxStore.{TxOut, Calls, State, Tally}
use go_electrum_client.TxStore.Dead.{mark_dead}
use go_electrum_client.TxStore.Add.{
  pays_us, new_utxo, take_spent, first_spent_by, tally_received, tally_spent, mark_all, receive,
  scan_outputs, spend, scan_inputs,
}
use go_electrum_client.TxStore.Add.Taken.{take_spent-some}
use go_electrum_client.TxStore.Apart.{Inv, put_utxo-Inv}
use go_electrum_client.TxStore.Apart.Spent.{Deletes, spend-Inv}
use go_electrum_client.TxStore.Apart.Dead.{mark_dead-Inv}

-- A spent output of another transaction.
abbrev pub IsOther : List ℕ → Stxo → Type 0
IsOther hash x = bytes_eq hash x.utxo.op.hash ≡ false

abbrev pub Any : Stxo → Type 0
Any x = Unit {0}

other_point :
    (hash : List ℕ) (height : ℤ) (i : ℕ) (out : TxOut) (x : Stxo)
    → IsOther hash x
    → out_points_equal (new_utxo hash height i out).op x.utxo.op ≡ false
unfolding out_points_equal new_utxo
other_point hash height i out x other = rw other refl

pub All-Any : (l : List Stxo) → All Any l
All-Any [] = tt
All-Any (x ∷ l) = (tt, All-Any l)

pub find-first_spent_by :
    (hash : List ℕ) (l : List Stxo) (x : Stxo)
    → first_spent_by hash l ≡ some x
    → find (λ (z : Stxo). bytes_eq z.spend_txid hash) l ≡ some x
unfolding first_spent_by find
find-first_spent_by hash [] x e = absurd cc
find-first_spent_by hash (z ∷ l) x e = elim (Bool-cases (bytes_eq z.spend_txid hash)) [
  | inl here ↦ rw here (rw (here, first_spent_by) at e)
  | inr there ↦ rw there (find-first_spent_by hash l x (rw (there, first_spent_by) at e))
]

module _ {A K U X T : Type 0} (calls : Calls A K) (us : Store Utxo U) (xs : Store Stxo X)
    (ts : TxnStore T) (ValidU : U → Type 0) (ValidX : X → Type 0)
    (keeps_u : Keeps same_utxo FitsUtxo us ValidU)
    (keeps_x : Keeps same_stxo FitsStxo xs ValidX) where
  abbrev pub Ok : (Stxo → Type 0) → State A K U X T → Type 0
  Ok P = Inv calls us xs ts ValidU ValidX keeps_u keeps_x P

  abbrev pub NoFail : Type 0
  NoFail = Deletes calls us xs ts ValidU ValidX keeps_u keeps_x Any

  pub Any-of : (P : Stxo → Type 0) (s : State A K U X T) → Ok P s → Ok Any s
  Any-of P s h = record {
    unspent = h.unspent;
    spent = h.spent;
    valid_utxos = h.valid_utxos;
    valid_stxos = h.valid_stxos;
    all_utxos = h.all_utxos;
    all_stxos = h.all_stxos;
    apart = h.apart;
    have = All-Any h.spent;
  }

  pub mark_all-Inv :
      (P : Stxo → Type 0) (l : List (List ℕ)) (s : State A K U X T)
      → Ok P s
      → Ok P (mark_all calls us xs ts l s)
  unfolding mark_all
  mark_all-Inv P [] s h = h
  mark_all-Inv P (d ∷ l) s h =
      mark_all-Inv P l (mark_dead calls us xs ts d s).0
        (mark_dead-Inv calls us xs ts ValidU ValidX keeps_u keeps_x P d s h)

  receive-Inv :
      (hash : List ℕ) (height : ℤ) (i : ℕ) (out : TxOut) (s : State A K U X T)
      → length hash ≡ 32
      → Ok (IsOther hash) s
      → Ok (IsOther hash) (receive calls us xs ts hash height i out s)
  unfolding receive new_utxo
  receive-Inv hash height i out s long h =
      let s' : State A K U X T = record s {
        keys = calls.mark_key_as_used s.keys (calls.script_address out.pk_script);
      } in
      put_utxo-Inv calls us xs ts ValidU ValidX keeps_u keeps_x (IsOther hash)
        (new_utxo hash height i out) s' h (long, omega arith)
        (find-none_of_All (λ (x : Stxo). out_points_equal (new_utxo hash height i out).op x.utxo.op)
          h.spent
          (All-map (IsOther hash)
            (λ x. out_points_equal (new_utxo hash height i out).op x.utxo.op ≡ false) h.spent
            (other_point hash height i out) h.have))

  pub scan_outputs-Inv :
      (scripts : List (List ℕ)) (hash : List ℕ) (height : ℤ) (i : ℕ) (l : List TxOut)
      (s : State A K U X T) (y : Tally)
      → length hash ≡ 32
      → Ok (IsOther hash) s
      → Ok (IsOther hash) (scan_outputs calls us xs ts scripts hash height i l (s, y)).0
  unfolding scan_outputs
  scan_outputs-Inv scripts hash height i [] s y long h = h
  scan_outputs-Inv scripts hash height i (out ∷ l) s y long h =
      elim (Bool-cases (pays_us scripts out.pk_script)) [
        | inl ours ↦
            rw (ours, scan_outputs)
              (scan_outputs-Inv scripts hash height (suc i) l
                (receive calls us xs ts hash height i out s) (tally_received out.value y) long
                (receive-Inv hash height i out s long h))
        | inr other ↦
            rw (other, scan_outputs) (scan_outputs-Inv scripts hash height (suc i) l s y long h)
      ]

  pub scan_inputs-Inv :
      (hash : List ℕ) (height : ℤ) (l : List OutPoint) (outs : List Utxo) (s : State A K U X T)
      (y : Tally) (h : Ok Any s)
      → length hash ≡ 32
      → NoFail
      → h.unspent ≡ outs
      → Ok Any (scan_inputs calls us xs ts hash height l outs (s, y)).0
  unfolding scan_inputs spend
  scan_inputs-Inv hash height [] outs s y h long deletes same = h
  scan_inputs-Inv hash height (i ∷ l) outs s y h long deletes same =
      elim (Option-cases (take_spent i outs)) [
        | inl no_match ↦
            rw (no_match, scan_inputs) (scan_inputs-Inv hash height l outs s y h long deletes same)
        | inr ((u, left), q) ↦
            let d =
              subst (Distinct same_utxo) same
                (keeps_u.distinct s.utxos h.unspent h.valid_utxos h.all_utxos) in
            let fits =
              subst (All FitsUtxo) same
                (keeps_u.all_fit s.utxos h.unspent h.valid_utxos h.all_utxos) in
            let (found, rest) = take_spent-some i outs left u d q in
            let (fit, at_op) =
              All-find FitsUtxo (λ (w : Utxo). out_points_equal i w.op) outs u fits found in
            let st : Stxo = record { utxo = u; spend_height = height; spend_txid = hash } in
            let (k, lost) =
              spend-Inv calls us xs ts ValidU ValidX keeps_u keeps_x Any st s h deletes (fit, long)
                tt in
            let e : i ≡ u.op = eq_of_out_points_equal i u.op at_op in
            rw (q, scan_inputs)
              (scan_inputs-Inv hash height l left (spend calls us xs ts hash height u s)
                (tally_spent u y) k long deletes
                (lost
                  ∙ ap (erase (same_utxo u)) same
                  ∙ ap (λ o. erase (λ (w : Utxo). out_points_equal o w.op) outs) (sym e)
                  ∙ sym rest))
      ]
