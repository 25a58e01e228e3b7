-- ===== src/Tests/KeyManagers.antt =====
-- Keys that are numbers, under the theorems of the key manager.
use go_electrum_client.Prelude.{ℕ, suc, ◌+◌, ◌-◌, ◌≡◌, refl, some, arith}
use go_electrum_client.Prelude.Results.{ok}
use go_electrum_client.Keys.{external, internal, get_last_key_index, get_lookahead_windows}
use go_electrum_client.KeyManager.{Hd, get_fresh_key, lookahead, size_of, first_index}
use go_electrum_client.KeyManager.Fresh.{HaveAddresses, Next, get_fresh_key-Next}
use go_electrum_client.KeyManager.Ahead.{AlwaysDerives, Extends, lookahead-Extends}
use go_electrum_client.Tests.Keys.{Pairs, pairs, pairs-Lawful, address, one_key}

-- External keys are the even numbers.
abbrev numbers : Hd ℕ
numbers = record {
  derive = λ p i. elim p [ external ↦ some (i + i) | internal ↦ some (suc (i + i)) ];
  script_address = λ k. some (address k);
}

numbers-derive : AlwaysDerives numbers pairs 5
numbers-derive external i = (0, _, omega arith, refl)
numbers-derive internal i = (0, _, omega arith, refl)

numbers-addresses : HaveAddresses numbers pairs
numbers-addresses p i k e = (address k, refl, refl)

get_fresh_key-Next_example :
    (c : Pairs) × (k : ℕ) × (get_fresh_key numbers pairs 5 one_key external ≡ ok (c, k))
    × Next numbers pairs external one_key c k
get_fresh_key-Next_example =
    get_fresh_key-Next numbers pairs 5 one_key external
      (numbers-derive external (first_index (get_last_key_index pairs one_key external)))
      numbers-addresses refl

lookahead-Extends_example :
    (c : Pairs) × (m : Pairs) × (lookahead numbers pairs 5 internal one_key ≡ ok c)
    × Extends numbers pairs internal one_key
        (10 - size_of (get_lookahead_windows pairs one_key) internal)
        m
    × Extends numbers pairs external m
        (10 - size_of (get_lookahead_windows pairs one_key) external)
        c
lookahead-Extends_example =
    lookahead-Extends numbers pairs 5 internal one_key numbers-derive numbers-addresses pairs-Lawful
      refl
