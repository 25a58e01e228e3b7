-- ===== src/Tests/Wallets.antt =====
-- One output, under the theorems of the balance, the coins and the sizes.
use go_electrum_client.Prelude.{ℕ, ◌*◌, ◌^◌, ◌<◌, ◌≤◌, ◌≡◌, refl, true, false, List, [], ◌∷◌, arith}
use go_electrum_client.Prelude.Int.{pos, ◌+ℤ◌, ◌≤ℤ◌, ◌<ℤ◌, wrap64}
use go_electrum_client.Prelude.Results.{ok}
use go_electrum_client.Datastore.{Utxo}
use go_electrum_client.Wallet.{Amounts, balance, add_utxos, add_utxo, gather_coins}
use go_electrum_client.Wallet.Sums.{sum_of}
use go_electrum_client.Wallet.Balances.{owned_worth, locked_worth, balance-owned}
use go_electrum_client.Wallet.Coins.{coin_value, spendable_worth, gather_coins-le-balance}
use go_electrum_client.Wallet.Sizes.{
  Wire, p2pkh, redeem_size, sum_output_sizes, estimate_serialize_size, estimate_fee, msg_tx_vbytes,
}
use go_electrum_client.Wallet.Sizes.Worst.{
  base_size, serialized_size, estimate_serialize_size-covers,
}
use go_electrum_client.Tests.Ledgers.{us, xs, coin_of}

-- A balance of one output, and the coins to spend of it.
abbrev mined : List Utxo
mined = coin_of 5 (pos 5) (pos 2) ∷ []

mined-balance :
    balance us xs mined [] ≡ ok (record { confirmed = pos 5; unconfirmed = pos 0; locked = pos 0 })
unfolding balance add_utxos add_utxo wrap64 ◌+ℤ◌
mined-balance = refl

balance-owned_example :
    (a : Amounts) × (balance us xs mined [] ≡ ok a)
    × (wrap64 (a.confirmed +ℤ a.unconfirmed) ≡ wrap64 (sum_of owned_worth mined))
    × (a.locked ≡ wrap64 (sum_of locked_worth mined))
balance-owned_example = balance-owned us xs mined [] mined [] refl refl

mined_below : sum_of owned_worth mined <ℤ pos (2 ^ 63)
unfolding sum_of ◌+ℤ◌
mined_below = omega arith

gather_coins-le-balance_example :
    (sum_of coin_value (gather_coins us xs (pos 7) true mined) ≤ℤ pos 5)
    × (sum_of coin_value (gather_coins us xs (pos 7) true mined)
        ≡ sum_of (spendable_worth true) mined)
gather_coins-le-balance_example =
    gather_coins-le-balance us xs (pos 7) mined []
      (record { confirmed = pos 5; unconfirmed = pos 0; locked = pos 0 }) mined [] (omega arith, tt)
      mined_below refl refl mined-balance

-- Outputs of 34 bytes, and counts of one byte.
abbrev wire : Wire (Unit {0})
wire = record { var_int_size = λ n. 1; out_size = λ o. 34 }

two_inputs_size : estimate_serialize_size wire 2 (tt ∷ []) false p2pkh ≡ 344
unfolding estimate_serialize_size sum_output_sizes redeem_size
two_inputs_size = refl

size_small : estimate_serialize_size wire 2 (tt ∷ []) false p2pkh * 3 < 2 ^ 63
size_small = omega (arith, two_inputs_size)

-- A P2PKH and a P2WPKH input.
abbrev two_signed : List (ℕ × ℕ)
two_signed = (107, 1) ∷ (0, 108) ∷ []

estimate_serialize_size-covers_example :
    (serialized_size wire two_signed (tt ∷ [])
      ≤ estimate_serialize_size wire 2 (tt ∷ []) false p2pkh)
    × (serialized_size wire two_signed (tt ∷ tt ∷ [])
        ≤ estimate_serialize_size wire 2 (tt ∷ []) true p2pkh)
    × (msg_tx_vbytes
          (base_size wire two_signed (tt ∷ []))
          (serialized_size wire two_signed (tt ∷ []))
        ≤ estimate_serialize_size wire 2 (tt ∷ []) false p2pkh)
    × (pos (serialized_size wire two_signed (tt ∷ []) * 3) ≤ℤ estimate_fee wire 2 (tt ∷ []) 3)
estimate_serialize_size-covers_example =
    estimate_serialize_size-covers wire two_signed (tt ∷ []) tt 3 (omega arith, (omega arith, tt))
      (omega arith) size_small
