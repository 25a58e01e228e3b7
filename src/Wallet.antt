-- ===== src/Wallet.antt =====
-- wallet/wltbtc/wallet.go and send.go: the balance, the lists of outputs, freezing, and the coins
-- that a payment may spend.
pub mod Sums
pub mod Balances
pub mod Coins
pub mod Sizes
pub mod Freezing
pub mod Electrum
use go_electrum_client.Prelude.{
  ℕ, Bool, true, false, not, ◌&&◌, List, [], ◌∷◌, ltb, ◌==◌, if◌then◌else◌,
}
use go_electrum_client.Prelude.Bytes.{bytes_eq}
use go_electrum_client.Prelude.Int.{ℤ, pos, ◌+ℤ◌, ◌-ℤ◌, wrap64, ltb_ℤ, leb_ℤ}
use go_electrum_client.Prelude.Results.{Result, ok, err, panic, ◌>>=◌}
use go_electrum_client.Datastore.{OutPoint, Utxo, Stxo, is_equal}
use go_electrum_client.Datastore.Interface.{StoreError, not_found, Store}

-- isStxoConfirmed of Balance.
unfoldable pub is_stxo_confirmed : Utxo → List Stxo → Bool
is_stxo_confirmed u [] = false
is_stxo_confirmed u (x ∷ l) =
    let rest = is_stxo_confirmed u l in
    if x.utxo.watch_only
    then rest
    else if bytes_eq x.spend_txid u.op.hash
    then ltb_ℤ (pos 0) x.spend_height
    else if is_equal x.utxo u
    then ltb_ℤ (pos 0) x.utxo.at_height
    else rest

pub record Amounts : Type 0 where
  pub confirmed : ℤ
  pub unconfirmed : ℤ
  pub locked : ℤ

unfoldable pub add_locked : Utxo → Amounts → Amounts
add_locked u a = if u.frozen then record a { locked = wrap64 (a.locked +ℤ u.value) } else a

unfoldable pub add_utxo : List Stxo → Utxo → Amounts → Amounts
unfolding add_locked
add_utxo spent u a =
    if u.watch_only
    then a
    else let b = add_locked u a in
      if ltb_ℤ (pos 0) u.at_height
      then record b { confirmed = wrap64 (b.confirmed +ℤ u.value) }
      else if is_stxo_confirmed u spent
      then record b { confirmed = wrap64 (b.confirmed +ℤ u.value) }
      else record b { unconfirmed = wrap64 (b.unconfirmed +ℤ u.value) }

-- The loop of Balance.
unfoldable pub add_utxos : List Stxo → List Utxo → Amounts → Amounts
add_utxos spent [] a = a
add_utxos spent (u ∷ l) a = add_utxos spent l (add_utxo spent u a)

unfoldable pub confirmed_only : List Utxo → List Utxo
confirmed_only [] = []
confirmed_only (u ∷ l) =
    let rest = confirmed_only l in if ltb_ℤ (pos 0) u.at_height then u ∷ rest else rest

unfoldable pub frozen_only : List Utxo → List Utxo
frozen_only [] = []
frozen_only (u ∷ l) = let rest = frozen_only l in if u.frozen then u ∷ rest else rest

pub record Coin : Type 0 where
  pub hash : List ℕ
  pub index : ℕ
  pub value : ℤ
  pub num_confs : ℤ
  pub pk_script : List ℕ

unfoldable pub new_unspent_coin : ℤ → Utxo → Coin
new_unspent_coin tip u = record {
  hash = u.op.hash;
  index = u.op.index;
  value = u.value;
  num_confs = if ltb_ℤ (pos 0) u.at_height then wrap64 (tip -ℤ u.at_height) else pos 0;
  pk_script = u.script_pubkey;
}

-- The loop of gatherCoins.
unfoldable pub coins_of : ℤ → Bool → List Utxo → List Coin
coins_of tip exclude [] = []
coins_of tip exclude (u ∷ l) =
    let rest = coins_of tip exclude l in
    if u.watch_only
    then rest
    else if u.frozen
    then rest
    else if exclude && leb_ℤ u.at_height (pos 0)
    then rest
    else new_unspent_coin tip u ∷ rest

-- The loop of FreezeUTXO and UnFreezeUTXO, with the call for the output that is found.
unfoldable pub on_utxo :
    {U : Type 0} → OutPoint → (Utxo → Result StoreError U) → List Utxo → Result StoreError U
on_utxo op call [] = err not_found
on_utxo op call (u ∷ l) =
    let rest = on_utxo op call l in
    if bytes_eq u.op.hash op.hash && (u.op.index == op.index) then call u else rest

-- Amounts below txrules.DefaultRelayFeePerKb, the first argument.
unfoldable pub is_dust : ℤ → ℤ → Bool
is_dust relay_fee amount = ltb_ℤ amount relay_fee

module _ {U X : Type 0} (us : Store Utxo U) (xs : Store Stxo X) where
  unfoldable pub balance : U → X → Result StoreError Amounts
  balance u x = do
    outs ← us.get_all u
    spent ← xs.get_all x
    ok (add_utxos spent outs (record { confirmed = pos 0; unconfirmed = pos 0; locked = pos 0 }))

  unfoldable pub list_confirmed_unspent : U → Result StoreError (List Utxo)
  list_confirmed_unspent u = do outs ← us.get_all u; ok (confirmed_only outs)

  unfoldable pub list_frozen_unspent : U → Result StoreError (List Utxo)
  list_frozen_unspent u = do outs ← us.get_all u; ok (frozen_only outs)

  -- The error of GetAll is not read: the list is empty then.
  unfoldable pub gather_coins : ℤ → Bool → U → List Coin
  gather_coins tip exclude u = elim (us.get_all u) [ ok outs ↦ coins_of tip exclude outs | _ ↦ [] ]

  unfoldable pub freeze_utxo : (U → Utxo → Result StoreError U) → U → OutPoint → Result StoreError U
  freeze_utxo freeze u op = do outs ← us.get_all u; on_utxo op (freeze u) outs

  unfoldable pub un_freeze_utxo :
      (U → Utxo → Result StoreError U) → U → OutPoint → Result StoreError U
  un_freeze_utxo un_freeze u op = do outs ← us.get_all u; on_utxo op (un_freeze u) outs
