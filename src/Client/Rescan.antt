-- ===== src/Client/Rescan.antt =====
-- client/btc/rescan.go: the keys of a wallet that was made again from its seed are tried against the
-- node, up to an index past the last one with a history.
pub mod Tried
pub mod Found
use go_electrum_client.Prelude.{
  ℕ, zero, suc, ◌+◌, Bool, true, false, Option, none, some, List, [], ◌∷◌, ltb, if◌then◌else◌,
}
use go_electrum_client.Prelude.Results.{Result, ok, err, panic}
use go_electrum_client.Datastore.{Subscription}
use go_electrum_client.Keys.{KeyChange, internal, external}
use go_electrum_client.KeyManager.{gap_limit}
use go_electrum_client.Client.{
  ElectrumWallet, ElectrumX, Scripts, Client, History, ClientError, no_wallet, no_electrumx,
  address_to_electrum_scripthash,
}

abbrev pub highest_key_index : ℕ
highest_key_index = 100

-- The node and the wallet during the scan, and historyHitIndex.
pub record Scan (N W : Type 0) : Type 0 where
  pub node : N
  pub wallet : W
  pub hit : ℕ

module _ {A W N : Type 0} (wallets : ElectrumWallet A W) (nodes : ElectrumX N)
    (scripts : Scripts A) where
  abbrev pub found_sub : A → List ℕ → List ℕ → Subscription
  found_sub a h script = record {
    pk_script = scripts.hex script;
    electrum_scripthash = h;
    address = scripts.address_string a;
  }

  -- What follows a history: an error of the wallet is printed.
  unfoldable pub add_found : A → List ℕ → Scan N W → Scan N W
  add_found a h s = elim (wallets.address_to_script s.wallet a) [
    | none ↦ s
    | some script ↦ elim (wallets.add_subscription s.wallet (found_sub a h script)) [
      | ok w ↦ record s { wallet = w }
      | _ ↦ s
    ]
  ]

  unfoldable pub on_answer : ℕ → A → List ℕ → Scan N W → Option (List History) → Scan N W
  on_answer i a h s none = s
  on_answer i a h s (some []) = s
  on_answer i a h s (some (_ ∷ _)) = add_found a h (record s { hit = i })

  -- One round of the inner loop.
  unfoldable pub rescan_key : ℕ → KeyChange → Scan N W → Scan N W
  rescan_key i change s = elim (wallets.get_address s.wallet change i) [
    | none ↦ s
    | some a ↦ elim (address_to_electrum_scripthash scripts a) [
      | none ↦ s
      | some h ↦
          let (m, answer) = nodes.get_history s.node h in
          on_answer i a h (record s { node = m }) answer
    ]
  ]

  unfoldable pub rescan_index : ℕ → Scan N W → Scan N W
  rescan_index i s = rescan_key i internal (rescan_key i external s)

  -- The rounds of the outer loop from index `i` on, of which there are `n` at most.
  unfoldable pub rescan_loop : ℕ → ℕ → Scan N W → Scan N W
  rescan_loop zero i s = s
  rescan_loop (suc n) i s =
      let t = rescan_index i s in
      let later = rescan_loop n (suc i) t in if ltb (t.hit + gap_limit) i then t else later

  unfoldable pub rescan_wallet : Client N W → Client N W × Option ClientError
  rescan_wallet c = elim c.wallet [
    | none ↦ (c, some no_wallet)
    | some w ↦ elim c.x [
      | none ↦ (c, some no_electrumx)
      | some n ↦
          let s =
            rescan_loop (suc highest_key_index) 0 (record { node = n; wallet = w; hit = 0 }) in
          (record { x = some s.node; wallet = some s.wallet }, none)
    ]
  ]
