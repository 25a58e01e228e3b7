-- ===== src/TxStore/Add/Value.antt =====
-- The value that AddTransaction of wallet/wltbtc/txstore.go finds a transaction to have.
use go_electrum_client.Prelude.{
  ℕ, suc, ◌≡◌, length, refl, sym, ap, subst, ◌∙◌, inl, inr, false, List, [], ◌∷◌, arith,
  if◌then◌else◌, Bool-cases, Option-cases,
}
use go_electrum_client.Prelude.Int.{ℤ, pos, ◌+ℤ◌, ◌-ℤ◌, wrap64, wrap64_of_IsInt64, int_laws}
use go_electrum_client.Datastore.{OutPoint, Utxo, Stxo}
use go_electrum_client.Datastore.Interface.{Store, TxnStore, Keeps}
use go_electrum_client.Datastore.Keyed.{Distinct, Distinct-erase}
use go_electrum_client.Stores.Refined.{same_utxo, FitsUtxo}
use go_electrum_client.TxStore.{Tx, TxOut, Calls, State, Tally}
use go_electrum_client.TxStore.Add.{
  pays_us, take_spent, tally_hit, tally_received, tally_spent, receive, spend, scan_outputs,
  scan_inputs, new_utxo,
}
use go_electrum_client.TxStore.Dead.{put_utxo}
use go_electrum_client.TxStore.Doubles.Exact.{member}
use go_electrum_client.Prelude.Results.{ok, Result-cases}
use go_electrum_client.Wallet.Sums.{
  sum_of, zero_add, wrap64-wrap64_add, wrap64-wrap64_sub, +ℤ_assoc,
}
use go_electrum_client.TxStore.Add.Taken.{
  spent_worth, nothing_spent, add_zero, sub_zero, unspent_worth, take_spent-none, take_spent-some,
  owned, taken_worth, is_op,
}

-- What an output is worth to the owner of some scripts.
abbrev pub received : List (List ℕ) → TxOut → ℤ
received scripts out = if member out.pk_script scripts then out.value else pos 0

pays_us-member :
    (scripts : List (List ℕ)) (script : List ℕ) → pays_us scripts script ≡ member script scripts
unfolding pays_us
pays_us-member [] script = refl
pays_us-member (s ∷ l) script = ground (arith, pays_us-member l script)

module _ {A K U X T : Type 0} (calls : Calls A K) (us : Store Utxo U) (xs : Store Stxo X)
    (ts : TxnStore T) where
  scan_outputs_value :
      (scripts : List (List ℕ)) (hash : List ℕ) (height : ℤ) (i : ℕ) (l : List TxOut)
      (s : State A K U X T) (y : Tally) (v : ℤ)
      → y.value ≡ wrap64 v
      → (scan_outputs calls us xs ts scripts hash height i l (s, y)).1.value
        ≡ wrap64 (v +ℤ sum_of (received scripts) l)
  unfolding scan_outputs sum_of tally_received
  scan_outputs_value scripts hash height i [] s y v e = e ∙ ap wrap64 (sym (add_zero v))
  scan_outputs_value scripts hash height i (out ∷ l) s y v e =
      elim (Bool-cases (pays_us scripts out.pk_script)) [
        | inl ours ↦
            let listed = sym (pays_us-member scripts out.pk_script) ∙ ours in
            rw (ours, listed, scan_outputs)
              (scan_outputs_value scripts hash height (suc i) l
                  (receive calls us xs ts hash height i out s) (tally_received out.value y)
                  (v +ℤ out.value)
                  (ap (λ z. wrap64 (z +ℤ out.value)) e ∙ wrap64-wrap64_add v out.value)
                ∙ ap wrap64 (+ℤ_assoc v out.value (sum_of (received scripts) l)))
        | inr other ↦
            let listed = sym (pays_us-member scripts out.pk_script) ∙ other in
            rw (other, listed, scan_outputs)
              (scan_outputs_value scripts hash height (suc i) l s y v e
                ∙ ap (λ z. wrap64 (v +ℤ z)) (sym (zero_add (sum_of (received scripts) l))))
      ]

  tally_spent_value :
      (u : Utxo) (y : Tally) (v : ℤ)
      → y.value ≡ wrap64 v
      → (tally_spent u y).value ≡ wrap64 (v -ℤ owned u)
  unfolding tally_spent tally_hit
  tally_spent_value u y v e = ground (arith, sub_zero v, wrap64-wrap64_sub v u.value)

  sub_sub : (a b c : ℤ) → (a -ℤ b) -ℤ c ≡ a -ℤ (b +ℤ c)
  sub_sub a b c = omega int_laws

  scan_inputs_value :
      (hash : List ℕ) (height : ℤ) (l : List OutPoint) (outs : List Utxo) (s : State A K U X T)
      (y : Tally) (v : ℤ)
      → Distinct same_utxo outs
      → y.value ≡ wrap64 v
      → (scan_inputs calls us xs ts hash height l outs (s, y)).1.value
        ≡ wrap64 (v -ℤ sum_of (spent_worth l) outs)
  unfolding scan_inputs
  scan_inputs_value hash height [] outs s y v d e =
      e ∙ ap wrap64 (sym (sub_zero v) ∙ ap (λ z. v -ℤ z) (sym (nothing_spent outs)))
  scan_inputs_value hash height (i ∷ l) outs s y v d e = elim (Option-cases (take_spent i outs)) [
    | inl no_match ↦
        rw (no_match, scan_inputs)
          (scan_inputs_value hash height l outs s y v d e
            ∙ ap (λ z. wrap64 (v -ℤ z))
                (sym (unspent_worth i l outs (take_spent-none i outs no_match))))
    | inr ((u, left), q) ↦
        let (found, rest) = take_spent-some i outs left u d q in
        rw (q, scan_inputs)
          (scan_inputs_value hash height l left (spend calls us xs ts hash height u s)
              (tally_spent u y) (v -ℤ owned u)
              (subst (Distinct same_utxo) (sym rest) (Distinct-erase same_utxo (is_op i) outs d))
              (tally_spent_value u y v e)
            ∙ ap wrap64 (
                sub_sub v (owned u) (sum_of (spent_worth l) left)
                ∙ ap (λ z. v -ℤ (owned u +ℤ sum_of (spent_worth l) z)) rest
                ∙ ap (λ z. v -ℤ z) (sym (taken_worth i l outs u d found))))
  ]

  module _ (Valid : U → Type 0) (keeps : Keeps same_utxo FitsUtxo us Valid) where
    receive-valid :
        (hash : List ℕ) (height : ℤ) (i : ℕ) (out : TxOut) (s : State A K U X T)
        → length hash ≡ 32
        → Valid s.utxos
        → Valid (receive calls us xs ts hash height i out s).utxos
    unfolding receive put_utxo new_utxo
    receive-valid hash height i out s long valid =
        let v : Utxo = new_utxo hash height i out in
        elim (Result-cases (us.put s.utxos v)) [
          | inl (u, e) ↦
              rw (receive, put_utxo, e) (keeps.put_valid s.utxos u v valid (long, omega arith) e)
          | inr (inl (x, e)) ↦ rw (receive, put_utxo, e) valid
          | inr (inr e) ↦ rw (receive, put_utxo, e) valid
        ]

    scan_outputs-valid :
        (scripts : List (List ℕ)) (hash : List ℕ) (height : ℤ) (i : ℕ) (l : List TxOut)
        (s : State A K U X T) (y : Tally)
        → length hash ≡ 32
        → Valid s.utxos
        → Valid (scan_outputs calls us xs ts scripts hash height i l (s, y)).0.utxos
    unfolding scan_outputs
    scan_outputs-valid scripts hash height i [] s y long valid = valid
    scan_outputs-valid scripts hash height i (out ∷ l) s y long valid =
        elim (Bool-cases (pays_us scripts out.pk_script)) [
          | inl ours ↦
              rw (ours, scan_outputs)
                (scan_outputs-valid scripts hash height (suc i) l
                  (receive calls us xs ts hash height i out s) (tally_received out.value y) long
                  (receive-valid hash height i out s long valid))
          | inr other ↦
              rw (other, scan_outputs)
                (scan_outputs-valid scripts hash height (suc i) l s y long valid)
        ]

    -- The value that a transaction gets is what its outputs pay to the scripts less what the unspent
    -- outputs that its inputs name are worth, watch-only ones left out, each output counted once; it
    -- wraps around as an int64. The unspent outputs are those that the store lists when the
    -- transaction's own outputs have been put, whichever of the puts fail; the store is one that
    -- keeps its elements under their output points, and the transaction's hash has 32 bytes.
    pub scan_value :
        (scripts : List (List ℕ)) (hash : List ℕ) (height : ℤ) (tx : Tx) (outs : List Utxo)
        (s : State A K U X T)
        → length hash ≡ 32
        → Valid s.utxos
        → us.get_all
            (scan_outputs calls us xs ts scripts hash height 0 tx.tx_out
              (s, record { value = pos 0; hits = 0; matches_watch_only = false })).0.utxos
          ≡ ok outs
        → (scan_inputs calls us xs ts hash height tx.tx_in outs (
            scan_outputs calls us xs ts scripts hash height 0 tx.tx_out
              (s, record { value = pos 0; hits = 0; matches_watch_only = false }))).1.value
          ≡ wrap64 (sum_of (received scripts) tx.tx_out -ℤ sum_of (spent_worth tx.tx_in) outs)
    scan_value scripts hash height tx outs s long valid listed =
        let start : Tally = record { value = pos 0; hits = 0; matches_watch_only = false } in
        let r = scan_outputs calls us xs ts scripts hash height 0 tx.tx_out (s, start) in
        let d : Distinct same_utxo outs =
          keeps.distinct r.0.utxos outs
            (scan_outputs-valid scripts hash height 0 tx.tx_out s start long valid) listed in
        scan_inputs_value hash height tx.tx_in outs r.0 r.1 (sum_of (received scripts) tx.tx_out) d
          (scan_outputs_value scripts hash height 0 tx.tx_out s start (pos 0)
              (sym (wrap64_of_IsInt64 (pos 0) (omega arith, omega arith)))
            ∙ ap wrap64 (zero_add (sum_of (received scripts) tx.tx_out)))
