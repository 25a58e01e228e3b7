-- ===== src/Wallet/Coins.antt =====
-- gatherCoins of wallet/wltbtc/send.go, against Balance of wallet/wltbtc/wallet.go.
use go_electrum_client.Prelude.{
  ◌^◌, ◌≡◌, refl, ◌∙◌, subst, Bool, true, not, ◌&&◌, List, [], ◌∷◌, arith, if◌then◌else◌,
}
use go_electrum_client.Prelude.Int.{
  ℤ, pos, negsuc, ◌≤ℤ◌, ◌<ℤ◌, wrap64_of_IsInt64, IsInt64, leb_ℤ, int_laws,
}
use go_electrum_client.Prelude.Results.{ok}
use go_electrum_client.Datastore.{Utxo, Stxo}
use go_electrum_client.Datastore.Interface.{Store}
use go_electrum_client.Datastore.Keyed.{All}
use go_electrum_client.Wallet.{Amounts, balance, Coin, new_unspent_coin, coins_of, gather_coins}
use go_electrum_client.Wallet.Sums.{sum_of, zero_add}
use go_electrum_client.Wallet.Balances.{owned_worth, confirmed_worth, balance-sums}

abbrev pub coin_value : Coin → ℤ
coin_value c = c.value

-- The outputs that a payment may spend.
abbrev pub is_spendable : Bool → Utxo → Bool
is_spendable exclude u =
    not u.watch_only && (not u.frozen && not (exclude && leb_ℤ u.at_height (pos 0)))

abbrev pub spendable_worth : Bool → Utxo → ℤ
spendable_worth exclude u = if is_spendable exclude u then u.value else pos 0

sum_of-coins_of :
    (tip : ℤ) (exclude : Bool) (l : List Utxo)
    → sum_of coin_value (coins_of tip exclude l) ≡ sum_of (spendable_worth exclude) l
unfolding sum_of coins_of new_unspent_coin
sum_of-coins_of tip exclude [] = refl
sum_of-coins_of tip exclude (u ∷ l) =
    ground (arith, sum_of-coins_of tip exclude l, zero_add (sum_of (spendable_worth exclude) l))

abbrev pub IsAmount : Utxo → Type 0
IsAmount u = pos 0 ≤ℤ u.value

spendable-le :
    (spent : List Stxo) (u : Utxo) → IsAmount u → spendable_worth true u ≤ℤ confirmed_worth spent u
spendable-le spent u h = ground arith

confirmed-le :
    (spent : List Stxo) (u : Utxo) → IsAmount u → confirmed_worth spent u ≤ℤ owned_worth u
confirmed-le spent u h = ground arith

confirmed-pos : (spent : List Stxo) (u : Utxo) → IsAmount u → pos 0 ≤ℤ confirmed_worth spent u
confirmed-pos spent u h = ground arith

sum_of-mono :
    (f g : Utxo → ℤ) (l : List Utxo)
    → ((u : Utxo) → IsAmount u → f u ≤ℤ g u)
    → All IsAmount l
    → sum_of f l ≤ℤ sum_of g l
unfolding sum_of
sum_of-mono f g [] le a = omega arith
sum_of-mono f g (u ∷ l) le a = omega (int_laws, le u a.0, sum_of-mono f g l le a.1)

sum_of-zero : (l : List Utxo) → sum_of (λ (u : Utxo). pos 0) l ≡ pos 0
unfolding sum_of
sum_of-zero [] = refl
sum_of-zero (u ∷ l) = zero_add (sum_of (λ (v : Utxo). pos 0) l) ∙ sum_of-zero l

IsInt64-of_bounds : (z : ℤ) → pos 0 ≤ℤ z → z <ℤ pos (2 ^ 63) → IsInt64 z
IsInt64-of_bounds (pos n) h k = (omega arith, omega arith)
IsInt64-of_bounds (negsuc n) h k = absurd (omega arith)

module _ {U X : Type 0} (us : Store Utxo U) (xs : Store Stxo X) where
  -- Where no output has a negative value and the wallet owns less than an int64 counts, the coins
  -- that a payment may spend, unconfirmed ones excluded, are worth no more than the confirmed
  -- balance, and exactly what the outputs are worth that are confirmed by their height, not frozen
  -- and not watch-only.
  pub gather_coins-le-balance :
      (tip : ℤ) (u : U) (x : X) (a : Amounts) (outs : List Utxo) (spent : List Stxo)
      → All IsAmount outs
      → sum_of owned_worth outs <ℤ pos (2 ^ 63)
      → us.get_all u ≡ ok outs
      → xs.get_all x ≡ ok spent
      → balance us xs u x ≡ ok a
      → (sum_of coin_value (gather_coins us xs tip true u) ≤ℤ a.confirmed)
        × (sum_of coin_value (gather_coins us xs tip true u) ≡ sum_of (spendable_worth true) outs)
  unfolding gather_coins
  gather_coins-le-balance tip u x a outs spent amounts fits all all' e =
      let sums = balance-sums us xs u x a outs spent all all' e in
      let up =
        sum_of-mono (spendable_worth true) (confirmed_worth spent) outs (spendable-le spent)
          amounts in
      let top = sum_of-mono (confirmed_worth spent) owned_worth outs (confirmed-le spent) amounts in
      let low : pos 0 ≤ℤ sum_of (confirmed_worth spent) outs =
        subst (λ z. z ≤ℤ sum_of (confirmed_worth spent) outs) (sum_of-zero outs)
          (sum_of-mono (λ (v : Utxo). pos 0) (confirmed_worth spent) outs (confirmed-pos spent)
            amounts) in
      let exact : a.confirmed ≡ sum_of (confirmed_worth spent) outs =
        sums.confirmed_sum
        ∙ wrap64_of_IsInt64 (sum_of (confirmed_worth spent) outs) (
            IsInt64-of_bounds (sum_of (confirmed_worth spent) outs) low
              (omega (arith, top, fits))) in
      let coins : sum_of coin_value (gather_coins us xs tip true u)
          ≡ sum_of (spendable_worth true) outs =
        rw (all, gather_coins) (sum_of-coins_of tip true outs) in
      (rw (coins, exact) up, coins)
