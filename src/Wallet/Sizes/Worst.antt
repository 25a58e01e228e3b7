-- ===== src/Wallet/Sizes/Worst.antt =====
-- The estimates of wallet/wltbtc/txsizes.go and sizes.go are not below the sizes that they are for.
use go_electrum_client.Prelude.{
  ℕ, suc, ◌+◌, ◌*◌, ◌^◌, ◌<◌, ◌≤◌, ◌≡◌, ap, true, false, List, [], ◌∷◌, ◌++◌, length, length-append,
  arith, subst, ◌==◌, if◌then◌else◌,
}
use go_electrum_client.Prelude.Int.{pos, ◌≤ℤ◌, wrap64_of_IsInt64}
use go_electrum_client.Wallet.Sizes.{
  Wire, p2pkh, redeem_size, sum_output_sizes, estimate_serialize_size, estimate_fee,
  p2pkh_output_size, msg_tx_vbytes,
}

-- The inputs of a signed transaction, by the sizes of their signature scripts and witnesses. The
-- size of an input without its witness: an output point, the length of the script in one byte, the
-- script, and a sequence number.
abbrev pub inputs_size : List (ℕ × ℕ) → ℕ
inputs_size [] = 0
inputs_size ((script, witness) ∷ l) = 36 + 1 + script + 4 + inputs_size l

abbrev pub witness_size : List (ℕ × ℕ) → ℕ
witness_size [] = 0
witness_size ((script, witness) ∷ l) = witness + witness_size l

-- The segwit marker and flag, where some input has a witness.
abbrev pub marker_size : List (ℕ × ℕ) → ℕ
marker_size ins = if witness_size ins == 0 then 0 else 2

-- The script and the witness of every input have at most so many bytes together.
abbrev pub AllAtMost : ℕ → List (ℕ × ℕ) → Type 0
AllAtMost k [] = Unit {0}
AllAtMost k ((script, witness) ∷ l) = (script + witness ≤ k) × AllAtMost k l

inputs_size-le :
    (ins : List (ℕ × ℕ)) → AllAtMost 108 ins → inputs_size ins + witness_size ins ≤ length ins * 149
inputs_size-le [] h = omega arith
inputs_size-le ((n, w) ∷ l) h = omega (arith, h.0, inputs_size-le l h.1)

marker_size-le : (ins : List (ℕ × ℕ)) → marker_size ins ≤ 2
marker_size-le ins = ground arith

sum_output_sizes-append :
    {O : Type 0} (wire : Wire O) (l m : List O)
    → sum_output_sizes wire (l ++ m) ≡ sum_output_sizes wire l + sum_output_sizes wire m
unfolding sum_output_sizes
sum_output_sizes-append wire [] m = omega arith
sum_output_sizes-append wire (o ∷ l) m = omega (arith, sum_output_sizes-append wire l m)

-- The stripped size of a transaction: version and lock time, the counts, the inputs and the outputs.
abbrev pub base_size : {O : Type 0} → Wire O → List (ℕ × ℕ) → List O → ℕ
base_size wire ins outs =
    8
    + wire.var_int_size (length ins)
    + wire.var_int_size (length outs)
    + inputs_size ins
    + sum_output_sizes wire outs

-- The whole size, with the witnesses.
abbrev pub serialized_size : {O : Type 0} → Wire O → List (ℕ × ℕ) → List O → ℕ
serialized_size wire ins outs = base_size wire ins outs + marker_size ins + witness_size ins

covers :
    {O : Type 0} (wire : Wire O) (ins : List (ℕ × ℕ)) (outs : List O)
    → AllAtMost 108 ins
    → serialized_size wire ins outs ≤ estimate_serialize_size wire (length ins) outs false p2pkh
unfolding estimate_serialize_size redeem_size
covers wire ins outs small = omega (arith, inputs_size-le ins small, marker_size-le ins)

times_mono : (a b r : ℕ) → a ≤ b → pos (a * r) ≤ℤ pos (b * r)
times_mono a b r h = grind arith

covers_change :
    {O : Type 0} (wire : Wire O) (ins : List (ℕ × ℕ)) (outs : List O) (change : O)
    → AllAtMost 108 ins
    → wire.out_size change ≤ p2pkh_output_size
    → serialized_size wire ins (outs ++ change ∷ [])
      ≤ estimate_serialize_size wire (length ins) outs true p2pkh
unfolding estimate_serialize_size redeem_size sum_output_sizes
covers_change wire ins outs change small fits =
    let count : length (outs ++ change ∷ []) ≡ suc (length outs) =
      omega (arith, length-append {0} outs (change ∷ [])) in
    omega (
      arith,
      inputs_size-le ins small,
      marker_size-le ins,
      sum_output_sizes-append wire outs (change ∷ []),
      ap wire.var_int_size count,
    )

vbytes-le : (base more : ℕ) → msg_tx_vbytes base (base + more) ≤ base + more
unfolding msg_tx_vbytes
vbytes-le base more = omega arith

-- A signed transaction whose signature scripts and witnesses have at most 108 bytes together for
-- each input is, with its witnesses, not larger than the estimate for its inputs and outputs, also
-- where a change output of at most the size of a P2PKH one has been added at the end; neither is
-- its virtual size by msgTxVBytes. The fee for the estimate, without change, pays the wanted rate
-- for every byte, those of the witnesses too, if it fits an int64.
pub estimate_serialize_size-covers :
    {O : Type 0} (wire : Wire O) (ins : List (ℕ × ℕ)) (outs : List O) (change : O) (rate : ℕ)
    → AllAtMost 108 ins
    → wire.out_size change ≤ p2pkh_output_size
    → estimate_serialize_size wire (length ins) outs false p2pkh * rate < 2 ^ 63
    → (serialized_size wire ins outs ≤ estimate_serialize_size wire (length ins) outs false p2pkh)
      × (serialized_size wire ins (outs ++ change ∷ [])
          ≤ estimate_serialize_size wire (length ins) outs true p2pkh)
      × (msg_tx_vbytes (base_size wire ins outs) (serialized_size wire ins outs)
          ≤ estimate_serialize_size wire (length ins) outs false p2pkh)
      × (pos (serialized_size wire ins outs * rate) ≤ℤ estimate_fee wire (length ins) outs rate)
unfolding estimate_fee
estimate_serialize_size-covers wire ins outs change rate small fits in_range =
    let size = covers wire ins outs small in
    let virtual = vbytes-le (base_size wire ins outs) (marker_size ins + witness_size ins) in
    (
      size,
      covers_change wire ins outs change small fits,
      omega (
        arith,
        size,
        subst (λ n. msg_tx_vbytes (base_size wire ins outs) n ≤ n)
            (add_assoc (base_size wire ins outs) (marker_size ins) (witness_size ins)) virtual,
      ),
      fee size,
    )
  where
    add_assoc : (a b c : ℕ) → a + (b + c) ≡ a + b + c
    add_assoc a b c = omega arith

    fee :
        serialized_size wire ins outs ≤ estimate_serialize_size wire (length ins) outs false p2pkh
        → pos (serialized_size wire ins outs * rate) ≤ℤ estimate_fee wire (length ins) outs rate
    fee size =
        rw
          (
            wrap64_of_IsInt64
                (pos (estimate_serialize_size wire (length ins) outs false p2pkh * rate))
                (in_range, omega arith),
            estimate_fee,
          )
          (times_mono _ _ rate size)
