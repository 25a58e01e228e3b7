-- ===== src/Wallet/Balances.antt =====
-- Balance of wallet/wltbtc/wallet.go adds up what the wallet owns.
use go_electrum_client.Prelude.{◌≡◌, refl, sym, ap, ◌∙◌, List, [], ◌∷◌, arith, if◌then◌else◌}
use go_electrum_client.Prelude.Int.{ℤ, pos, ◌+ℤ◌, wrap64, ltb_ℤ, int_laws}
use go_electrum_client.Prelude.Results.{ok, ok_injective}
use go_electrum_client.Datastore.{Utxo, Stxo}
use go_electrum_client.Datastore.Interface.{Store}
use go_electrum_client.Wallet.{Amounts, add_utxo, add_locked, add_utxos, is_stxo_confirmed, balance}
use go_electrum_client.Wallet.Sums.{
  sum_of, +ℤ_comm, +ℤ_assoc, zero_add, wrap64-wrap64_add, wrap64-add_wrap64,
}

-- What an output is worth in all, as locked, and as confirmed.
abbrev pub owned_worth : Utxo → ℤ
owned_worth u = if u.watch_only then pos 0 else u.value

abbrev pub locked_worth : Utxo → ℤ
locked_worth u = if u.watch_only then pos 0 else if u.frozen then u.value else pos 0

abbrev pub confirmed_worth : List Stxo → Utxo → ℤ
confirmed_worth spent u =
    if u.watch_only
    then pos 0
    else if ltb_ℤ (pos 0) u.at_height
    then u.value
    else if is_stxo_confirmed u spent
    then u.value
    else pos 0

abbrev pub unconfirmed_worth : List Stxo → Utxo → ℤ
unconfirmed_worth spent u =
    if u.watch_only
    then pos 0
    else if ltb_ℤ (pos 0) u.at_height
    then pos 0
    else if is_stxo_confirmed u spent
    then pos 0
    else u.value

add_zero : (a : ℤ) → a +ℤ pos 0 ≡ a
add_zero a = +ℤ_comm a (pos 0) ∙ zero_add a

-- Amounts that stand for sums.
pub record Adds (a : Amounts) (c u k : ℤ) : Type 0 where
  pub confirmed_sum : a.confirmed ≡ wrap64 c
  pub unconfirmed_sum : a.unconfirmed ≡ wrap64 u
  pub locked_sum : a.locked ≡ wrap64 k

add_utxo-Adds :
    (spent : List Stxo) (v : Utxo) (a : Amounts) (c u k : ℤ)
    → Adds a c u k
    → Adds
        (add_utxo spent v a)
        (c +ℤ confirmed_worth spent v)
        (u +ℤ unconfirmed_worth spent v)
        (k +ℤ locked_worth v)
unfolding add_utxo add_locked
add_utxo-Adds spent v a c u k h = ground (
  arith,
  add_zero c,
  add_zero u,
  add_zero k,
  wrap64-wrap64_add c v.value,
  wrap64-wrap64_add u v.value,
  wrap64-wrap64_add k v.value,
)

add_utxos-Adds :
    (spent : List Stxo) (l : List Utxo) (a : Amounts) (c u k : ℤ)
    → Adds a c u k
    → Adds
        (add_utxos spent l a)
        (c +ℤ sum_of (confirmed_worth spent) l)
        (u +ℤ sum_of (unconfirmed_worth spent) l)
        (k +ℤ sum_of locked_worth l)
unfolding add_utxos sum_of
add_utxos-Adds spent [] a c u k h = ground (arith, add_zero c, add_zero u, add_zero k)
add_utxos-Adds spent (v ∷ l) a c u k h =
    let rest =
      add_utxos-Adds spent l (add_utxo spent v a) (c +ℤ confirmed_worth spent v)
        (u +ℤ unconfirmed_worth spent v) (k +ℤ locked_worth v) (add_utxo-Adds spent v a c u k h) in
    record {
      confirmed_sum =
          rest.confirmed_sum
          ∙ ap wrap64 (+ℤ_assoc c (confirmed_worth spent v) (sum_of (confirmed_worth spent) l));
      unconfirmed_sum =
          rest.unconfirmed_sum
          ∙ ap wrap64 (+ℤ_assoc u (unconfirmed_worth spent v) (sum_of (unconfirmed_worth spent) l));
      locked_sum =
          rest.locked_sum ∙ ap wrap64 (+ℤ_assoc k (locked_worth v) (sum_of locked_worth l));
    }

worth_parts :
    (spent : List Stxo) (v : Utxo)
    → confirmed_worth spent v +ℤ unconfirmed_worth spent v ≡ owned_worth v
worth_parts spent v = ground (arith, add_zero v.value, zero_add v.value, zero_add (pos 0))

four : (a b c d : ℤ) → (a +ℤ b) +ℤ (c +ℤ d) ≡ (a +ℤ c) +ℤ (b +ℤ d)
four a b c d = omega int_laws

sum_of-parts :
    (spent : List Stxo) (l : List Utxo)
    → sum_of (confirmed_worth spent) l +ℤ sum_of (unconfirmed_worth spent) l ≡ sum_of owned_worth l
unfolding sum_of
sum_of-parts spent [] = zero_add (pos 0)
sum_of-parts spent (v ∷ l) =
    four (confirmed_worth spent v) (sum_of (confirmed_worth spent) l) (unconfirmed_worth spent v)
      (sum_of (unconfirmed_worth spent) l)
    ∙ ap (λ w. w +ℤ (sum_of (confirmed_worth spent) l +ℤ sum_of (unconfirmed_worth spent) l))
        (worth_parts spent v)
    ∙ ap (λ w. owned_worth v +ℤ w) (sum_of-parts spent l)

module _ {U X : Type 0} (us : Store Utxo U) (xs : Store Stxo X) where
  pub balance-sums :
      (u : U) (x : X) (a : Amounts) (outs : List Utxo) (spent : List Stxo)
      → us.get_all u ≡ ok outs
      → xs.get_all x ≡ ok spent
      → balance us xs u x ≡ ok a
      → Adds a
          (sum_of (confirmed_worth spent) outs)
          (sum_of (unconfirmed_worth spent) outs)
          (sum_of locked_worth outs)
  unfolding balance wrap64
  balance-sums u x a outs spent all all' e =
      let start : Amounts = record { confirmed = pos 0; unconfirmed = pos 0; locked = pos 0 } in
      let found : add_utxos spent outs start ≡ a =
        ok_injective (rw all' at (rw (all, balance) at e)) in
      let none_yet : Adds start (pos 0) (pos 0) (pos 0) = record {
        confirmed_sum = refl;
        unconfirmed_sum = refl;
        locked_sum = refl;
      } in
      let sums = add_utxos-Adds spent outs start (pos 0) (pos 0) (pos 0) none_yet in
      record {
        confirmed_sum =
            ap (λ (b : Amounts). b.confirmed) (sym found)
            ∙ sums.confirmed_sum
            ∙ ap wrap64 (zero_add _);
        unconfirmed_sum =
            ap (λ (b : Amounts). b.unconfirmed) (sym found)
            ∙ sums.unconfirmed_sum
            ∙ ap wrap64 (zero_add _);
        locked_sum =
            ap (λ (b : Amounts). b.locked) (sym found) ∙ sums.locked_sum ∙ ap wrap64 (zero_add _);
      }

  -- Where both stores can be read, the balance is given: the confirmed and the unconfirmed balance
  -- together are the worth of all outputs that are not watch-only, frozen ones included; the locked
  -- balance is the worth of the frozen ones. Sums wrap around as int64 values.
  pub balance-owned :
      (u : U) (x : X) (outs : List Utxo) (spent : List Stxo)
      → us.get_all u ≡ ok outs
      → xs.get_all x ≡ ok spent
      → (a : Amounts) × (balance us xs u x ≡ ok a)
        × (wrap64 (a.confirmed +ℤ a.unconfirmed) ≡ wrap64 (sum_of owned_worth outs))
        × (a.locked ≡ wrap64 (sum_of locked_worth outs))
  unfolding balance
  balance-owned u x outs spent all all' =
      let a =
        add_utxos spent outs (record { confirmed = pos 0; unconfirmed = pos 0; locked = pos 0 }) in
      let given : balance us xs u x ≡ ok a = rw (all, all', balance) refl in
      let sums = balance-sums u x a outs spent all all' given in
      (
        a,
        given,
        rw (sums.confirmed_sum, sums.unconfirmed_sum)
            (wrap64-wrap64_add (sum_of (confirmed_worth spent) outs)
                (wrap64 (sum_of (unconfirmed_worth spent) outs))
              ∙ wrap64-add_wrap64 (sum_of (confirmed_worth spent) outs)
                  (sum_of (unconfirmed_worth spent) outs)
              ∙ ap wrap64 (sum_of-parts spent outs)),
        sums.locked_sum,
      )
