-- ===== src/Client/Subscribed.antt =====
-- The subscriptions of the wallet after the calls of wallet_synchronize.go and client_wallet.go.
pub mod NewAddresses
use go_electrum_client.Prelude.{
  ℕ, ◌≡◌, ◌≢◌, refl, sym, subst, ◌∙◌, inl, inr, Bool, false, Option, none, some, List,
  if◌then◌else◌, Bool-cases, Option-cases,
}
use go_electrum_client.Prelude.Bytes.{bytes_eq, bytes_eq_iff}
use go_electrum_client.Prelude.Results.{
  Result, ok, err, panic, Result-cases, err_ne_ok, panic_ne_ok,
}
use go_electrum_client.Datastore.{Subscription}
use go_electrum_client.Datastore.Interface.{StoreError}
use go_electrum_client.Keys.{KeyChange, internal, external}
use go_electrum_client.Client.{
  ElectrumWallet, ElectrumX, Scripts, Client, ClientError, wallet_error, node_error, empty_result,
  add_subscription, remove_subscription, confirm_sub, subscribe_address, on_added, get_new_address,
  new_sub, bad_script, client_panic, no_electrumx,
}

abbrev pub IsSubscribed : Result StoreError (Option Subscription) → Type 0
IsSubscribed r = (t : Subscription) × (r ≡ ok (some t))

module _ {A W : Type 0} (wallets : ElectrumWallet A W) where
  -- The wallet's subscriptions are a map from scripts.
  pub record Maps : Type 0 where
    pub added :
        (w v : W) (s : Subscription)
        → wallets.add_subscription w s ≡ ok v
        → wallets.get_subscription v s.pk_script ≡ ok (some s)
    pub added_other :
        (w v : W) (s : Subscription) (k : List ℕ)
        → wallets.add_subscription w s ≡ ok v
        → bytes_eq s.pk_script k ≡ false
        → wallets.get_subscription v k ≡ wallets.get_subscription w k
    pub removed :
        (w : W) (k : List ℕ)
        → ¬ IsSubscribed (wallets.get_subscription (wallets.remove_subscription w k) k)
    pub removed_other :
        (w : W) (k j : List ℕ)
        → bytes_eq k j ≡ false
        → wallets.get_subscription (wallets.remove_subscription w k) j
          ≡ wallets.get_subscription w j

  -- What is subscribed stays so when another subscription is added.
  pub kept_under :
      Maps
      → (w v : W) (s : Subscription) (k : List ℕ) → wallets.add_subscription w s ≡ ok v
      → IsSubscribed (wallets.get_subscription w k)
      → IsSubscribed (wallets.get_subscription v k)
  kept_under maps w v s k e there = elim (Bool-cases (bytes_eq s.pk_script k)) [
    | inl at ↦
        subst (λ j. IsSubscribed (wallets.get_subscription v j)) ((bytes_eq_iff s.pk_script k).0 at)
          (s, maps.added w v s e)
    | inr other ↦ subst IsSubscribed (sym (maps.added_other w v s k e other)) there
  ]

  -- Apart from what is under one script, the subscriptions are the same.
  abbrev pub SameBut : List ℕ → W → W → Type 0
  SameBut script w v =
      (k : List ℕ)
      → bytes_eq script k ≡ false
      → wallets.get_subscription v k ≡ wallets.get_subscription w k

  module _ {N : Type 0} (nodes : ElectrumX N) (scripts : Scripts A) where
    abbrev pub client : Option N → W → Client N W
    client x w = record { x = x; wallet = some w }

    pub add_subscription_ok :
        (x : Option N) (w v : W) (s : Subscription)
        → wallets.add_subscription w s ≡ ok v
        → add_subscription wallets nodes (client x w) s ≡ (client x v, none)
    unfolding add_subscription
    add_subscription_ok x w v s e = rw (e, add_subscription) refl

    pub add_subscription_fails :
        (x : Option N) (w : W) (s : Subscription) (e : StoreError)
        → wallets.add_subscription w s ≡ err e
        → add_subscription wallets nodes (client x w) s ≡ (client x w, some (wallet_error e))
    unfolding add_subscription
    add_subscription_fails x w s e q = rw (q, add_subscription) refl

    pub add_subscription_panics :
        (x : Option N) (w : W) (s : Subscription)
        → wallets.add_subscription w s ≡ panic
        → add_subscription wallets nodes (client x w) s ≡ (client x w, some client_panic)
    unfolding add_subscription
    add_subscription_panics x w s q = rw (q, add_subscription) refl
