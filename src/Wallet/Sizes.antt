-- ===== src/Wallet/Sizes.antt =====
-- wallet/wltbtc/txsizes.go and sizes.go: the estimates of a transaction's size, and EstimateFee of
-- send.go. VarIntSerializeSize and TxOut.SerializeSize are wire's, and arguments here; the sizes of
-- scripts are constants.
pub mod Worst
use go_electrum_client.Prelude.{
  ℕ, suc, ◌+◌, ◌-◌, ◌*◌, ◌/◌, Bool, false, List, [], ◌∷◌, if◌then◌else◌, length,
}
use go_electrum_client.Prelude.Int.{ℤ, pos, wrap64}

abbrev pub redeem_p2pkh_sig_script_size : ℕ
redeem_p2pkh_sig_script_size = 1 + 73 + 1 + 33

abbrev pub redeem_2of3_sig_script_size : ℕ
redeem_2of3_sig_script_size = 1 + 1 + 72 + 1 + 72 + 1 + 1 + 1 + 33 + 1 + 33 + 1 + 33 + 1 + 1

abbrev pub redeem_1of2_sig_script_size : ℕ
redeem_1of2_sig_script_size = 1 + 1 + 72 + 1 + 1 + 1 + 33 + 1 + 33 + 1 + 1

abbrev pub redeem_timelock1_sig_script_size : ℕ
redeem_timelock1_sig_script_size =
    1 + 72 + 1 + 1 + 1 + 1 + 1 + 33 + 1 + 33 + 1 + 33 + 1 + 1 + 1 + 1 + 2 + 1 + 1 + 1 + 33 + 1 + 1

abbrev pub redeem_timelock2_sig_script_size : ℕ
redeem_timelock2_sig_script_size =
    1 + 1 + 72 + 1 + 72 + 1 + 1 + 1 + 1 + 1 + 33 + 1 + 33 + 1 + 33 + 1 + 1 + 1 + 1 + 2 + 1 + 1 + 1
    + 33 + 1 + 1

abbrev pub p2pkh_pk_script_size : ℕ
p2pkh_pk_script_size = 1 + 1 + 1 + 20 + 1 + 1

abbrev pub p2pkh_output_size : ℕ
p2pkh_output_size = 8 + 1 + p2pkh_pk_script_size

pub data InputType : Type 0 where
  p2pkh p2sh_1of2 p2sh_2of3 p2sh_timelock_1sig p2sh_timelock_2sigs : InputType

-- The sizes of the inputs, and the choice among them.
unfoldable pub redeem_size : InputType → ℕ
redeem_size p2pkh = 32 + 4 + 1 + redeem_p2pkh_sig_script_size + 4
redeem_size p2sh_1of2 = 32 + 4 + 1 + 4 + redeem_1of2_sig_script_size / 4
redeem_size p2sh_2of3 = 32 + 4 + 1 + 4 + redeem_2of3_sig_script_size / 4
redeem_size p2sh_timelock_1sig = 32 + 4 + 1 + 4 + redeem_timelock1_sig_script_size / 4
redeem_size p2sh_timelock_2sigs = 32 + 4 + 1 + 4 + redeem_timelock2_sig_script_size / 4

-- What wire says of sizes: O are the outputs.
pub record Wire (O : Type 0) : Type 0 where
  pub var_int_size : ℕ → ℕ
  pub out_size : O → ℕ

module _ {O : Type 0} (wire : Wire O) where
  unfoldable pub sum_output_sizes : List O → ℕ
  sum_output_sizes [] = 0
  sum_output_sizes (o ∷ l) = wire.out_size o + sum_output_sizes l

  unfoldable pub estimate_serialize_size : ℕ → List O → Bool → InputType → ℕ
  estimate_serialize_size input_count outs add_change kind =
      let change_size : ℕ = if add_change then p2pkh_output_size else 0 in
      let output_count = if add_change then suc (length outs) else length outs in
      10
      + wire.var_int_size input_count
      + wire.var_int_size output_count
      + input_count * redeem_size kind
      + sum_output_sizes outs
      + change_size

  -- EstimateFee at a rate that is not negative: the outputs of the transaction are given.
  unfoldable pub estimate_fee : ℕ → List O → ℕ → ℤ
  estimate_fee input_count outs fee_per_byte =
      wrap64 (pos (estimate_serialize_size input_count outs false p2pkh * fee_per_byte))

abbrev pub witness_weight : ℕ
witness_weight = 4

-- msgTxVBytes: the stripped size and the whole size of a transaction.
unfoldable pub msg_tx_vbytes : ℕ → ℕ → ℕ
msg_tx_vbytes base total =
    (base * (witness_weight - 1) + total + (witness_weight - 1)) / witness_weight

abbrev pub default_sig_script_size : ℕ
default_sig_script_size = 1 + 73 + 1 + 33

abbrev pub p2wpkh_output_size : ℕ
p2wpkh_output_size = (8 + 1) + (1 + 1 + 20)

unfoldable pub tx_serial_size_est : ℕ → ℕ → ℕ
unfolding msg_tx_vbytes
tx_serial_size_est base total =
    msg_tx_vbytes base total + (default_sig_script_size + 2 + 3) / 4 + p2wpkh_output_size
