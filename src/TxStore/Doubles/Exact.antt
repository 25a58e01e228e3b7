-- ===== src/TxStore/Doubles/Exact.antt =====
-- Which transactions CheckDoubleSpends of wallet/wltbtc/txstore.go finds.
use go_electrum_client.Prelude.{
  ℕ, ◌≡◌, refl, sym, ap, ◌∙◌, inl, inr, Bool, true, false, not, ◌&&◌, ◌||◌, List, [], ◌∷◌, ◌++◌,
  arith, Bool-cases,
}
use go_electrum_client.Prelude.Bytes.{bytes_eq}
use go_electrum_client.Prelude.Int.{pos, ltb_ℤ}
use go_electrum_client.Prelude.Results.{
  Result, ok, Result-cases, ok_injective, err_ne_ok, panic_ne_ok,
}
use go_electrum_client.Datastore.{OutPoint, Txn, out_points_equal}
use go_electrum_client.Datastore.Interface.{TxnStore}
use go_electrum_client.TxStore.{Tx, TxError, Calls, new_wire_tx}
use go_electrum_client.TxStore.Doubles.{is_input, double_inputs, double_spends, check_double_spends}

abbrev pub member : List ℕ → List (List ℕ) → Bool
member d [] = false
member d (x ∷ l) = bytes_eq d x || member d l

abbrev pub spends_one : OutPoint → List OutPoint → Bool
spends_one op [] = false
spends_one op (i ∷ l) = out_points_equal op i || spends_one op l

-- Two lists of inputs have an output point in common.
abbrev pub overlap : List OutPoint → List OutPoint → Bool
overlap [] inputs = false
overlap (i ∷ l) inputs = spends_one i inputs || overlap l inputs

is_input_lem : (op : OutPoint) (l : List OutPoint) → is_input op l ≡ spends_one op l
unfolding is_input
is_input_lem op [] = refl
is_input_lem op (i ∷ l) = ground (arith, is_input_lem op l)

member-append : (d : List ℕ) (l m : List (List ℕ)) → member d (l ++ m) ≡ (member d l || member d m)
member-append d [] m = refl
member-append d (x ∷ l) m = ground (arith, member-append d l m)

member-double_inputs :
    (d txid : List ℕ) (same : Bool) (l inputs : List OutPoint)
    → member d (double_inputs txid same l inputs)
      ≡ (bytes_eq d txid && (not same && overlap l inputs))
unfolding double_inputs
member-double_inputs d txid same [] inputs = ground arith
member-double_inputs d txid same (i ∷ l) inputs =
    ground (arith, is_input_lem i inputs, member-double_inputs d txid same l inputs)

module _ {A K : Type 0} (calls : Calls A K) where
  -- Another transaction of the hash `d` that spends an input of `arg`.
  abbrev pub is_rival : List ℕ → Tx → Tx → Bool
  is_rival d arg tx =
      bytes_eq d (calls.tx_hash tx)
      && (not (bytes_eq (calls.tx_hash tx) (calls.tx_hash arg)) && overlap arg.tx_in tx.tx_in)

  abbrev pub holds_rival : List ℕ → Tx → Result TxError Tx → Bool
  holds_rival d arg (ok tx) = is_rival d arg tx
  holds_rival d arg _ = false

  -- Some stored transaction that is not dead is one.
  abbrev pub some_rival : List ℕ → Tx → List Txn → Bool
  some_rival d arg [] = false
  some_rival d arg (t ∷ l) =
      (not (ltb_ℤ t.height (pos 0)) && holds_rival d arg (new_wire_tx calls t.bytes true))
      || some_rival d arg l

  member-double_spends :
      (d : List ℕ) (arg : Tx) (l : List Txn) (dubs : List (List ℕ))
      → double_spends calls arg l ≡ ok dubs
      → member d dubs ≡ some_rival d arg l
  unfolding double_spends
  member-double_spends d arg [] dubs e = ap (member d) (sym (ok_injective e))
  member-double_spends d arg (t ∷ l) dubs e = elim (Bool-cases (ltb_ℤ t.height (pos 0))) [
    | inl dead ↦ rw dead (member-double_spends d arg l dubs (rw (dead, double_spends) at e))
    | inr alive ↦ elim (Result-cases (new_wire_tx calls t.bytes true)) [
      | inl (tx, q) ↦ elim (Result-cases (double_spends calls arg l)) [
        | inl (rest, r) ↦
            let found : double_inputs (calls.tx_hash tx)
                    (bytes_eq (calls.tx_hash tx) (calls.tx_hash arg)) arg.tx_in tx.tx_in
                  ++ rest
                ≡ dubs =
              ok_injective (rw r at (rw q at (rw (alive, double_spends) at e))) in
            ap (member d) (sym found)
            ∙ member-append d
                (double_inputs (calls.tx_hash tx) (bytes_eq (calls.tx_hash tx) (calls.tx_hash arg))
                  arg.tx_in tx.tx_in)
                rest
            ∙ rw
                (
                  alive,
                  q,
                  member-double_inputs d (calls.tx_hash tx)
                      (bytes_eq (calls.tx_hash tx) (calls.tx_hash arg)) arg.tx_in tx.tx_in,
                  member-double_spends d arg l rest r,
                )
                refl
        | inr (inl (x, r)) ↦ absurd (err_ne_ok (rw r at (rw q at (rw (alive, double_spends) at e))))
        | inr (inr r) ↦ absurd (panic_ne_ok (rw r at (rw q at (rw (alive, double_spends) at e))))
      ]
      | inr (inl (x, q)) ↦ absurd (err_ne_ok (rw q at (rw (alive, double_spends) at e)))
      | inr (inr q) ↦ absurd (panic_ne_ok (rw q at (rw (alive, double_spends) at e)))
    ]
  ]

  -- What CheckDoubleSpends returns holds a hash exactly when a stored transaction that is not dead
  -- has that hash, is not the given one and spends an output that the given one spends.
  pub check_double_spends-member :
      {T : Type 0} (ts : TxnStore T) (t : T) (d : List ℕ) (arg : Tx) (l : List Txn)
      (dubs : List (List ℕ))
      → ts.get_all t true ≡ ok l
      → check_double_spends calls ts t arg ≡ ok dubs
      → member d dubs ≡ some_rival d arg l
  unfolding check_double_spends
  check_double_spends-member ts t d arg l dubs all e =
      member-double_spends d arg l dubs (rw (all, check_double_spends) at e)
