-- ===== src/Client/Sync/Kept.antt =====
-- SyncWallet and the thread that waits for statuses leave the subscriptions as they are.
use go_electrum_client.Prelude.{
  ℕ, ◌≡◌, refl, inl, inr, Option, some, List, [], ◌∷◌, Bool-cases, Option-cases,
}
use go_electrum_client.Prelude.Results.{ok, Result-cases}
use go_electrum_client.Datastore.{Subscription}
use go_electrum_client.Datastore.Keyed.{All}
use go_electrum_client.TxStore.{Calls}
use go_electrum_client.Client.{
  ElectrumWallet, ElectrumX, Scripts, Client, ClientError, subscribe_address_notify,
  get_subscription_for_scripthash,
}
use go_electrum_client.Client.Subscribed.{client}
use go_electrum_client.Client.Sync.{
  ScripthashStatus, on_status, sync_loop, sync_wallet, on_status_change, status_loop,
}
use go_electrum_client.Client.Sync.Steps.{
  Apart, Listed, Same, Kept, subscribe-Kept, with_Kept, asked-Kept, on_status-Kept,
}

module _ {A W N K : Type 0} (wallets : ElectrumWallet A W) (nodes : ElectrumX N)
    (scripts : Scripts A) (calls : Calls A K) where
  abbrev C : Type 0
  C = Client N W

  abbrev made : Option N → W → C
  made = client wallets nodes scripts

  module _ (laws : Apart wallets nodes scripts calls) (w : W) where
    abbrev Remains : C → Type 0
    Remains = Kept wallets nodes scripts calls w

    abbrev Alike : W → Type 0
    Alike = Same wallets nodes scripts calls w

    step : C → Subscription → C × Option ClientError
    step c s = on_status wallets nodes scripts calls s (subscribe_address_notify wallets nodes c s)

    step-Kept :
        (x : Option N) (v : W) (s : Subscription)
        → Alike v
        → wallets.get_subscription w s.pk_script ≡ ok (some s)
        → Remains (step (made x v) s).0
    unfolding step
    step-Kept x v s same there =
        let (c, r) = subscribe_address_notify wallets nodes (made x v) s in
        with_Kept wallets nodes scripts calls laws w
          (λ d. Remains (on_status wallets nodes scripts calls s (d, r)).0) c
          (subscribe-Kept wallets nodes scripts calls laws w x v s same there)
          (λ y u again. on_status-Kept wallets nodes scripts calls laws w y u s r again)

    sync_loop-Kept :
        (l : List Subscription) (x : Option N) (v : W)
        → Alike v
        → All (λ (s : Subscription). wallets.get_subscription w s.pk_script ≡ ok (some s)) l
        → Remains (sync_loop wallets nodes scripts calls (made x v) l).0
    unfolding sync_loop step
    sync_loop-Kept [] x v same there = (v, refl, same)
    sync_loop-Kept (s ∷ l) x v same there =
        let kept = step-Kept x v s same there.0 in
        elim (Option-cases (step (made x v) s).1) [
          | inr (e, q) ↦ rw (q, sync_loop) kept
          | inl q ↦
              rw (q, sync_loop)
                (with_Kept wallets nodes scripts calls laws w
                  (λ c. Remains (sync_loop wallets nodes scripts calls c l).0) (step (made x v) s).0
                  kept (λ y u again. sync_loop-Kept l y u again there.1))
        ]

    changed-Kept :
        (t : List ℕ) (x : Option N) (v : W) (h : List ℕ)
        → Alike v
        → Remains
            (on_status_change wallets nodes scripts calls
              (made x v)
              (record { scripthash = h; status = t })).0
    unfolding on_status_change
    changed-Kept [] x v h same = (v, refl, same)
    changed-Kept (b ∷ t) x v h same =
        elim (Result-cases (get_subscription_for_scripthash wallets nodes (made x v) h)) [
          | inl (sub, e) ↦
              rw (e, on_status_change) (asked-Kept wallets nodes scripts calls laws w x v sub same)
          | inr (inl (e, q)) ↦ rw (q, on_status_change) (v, refl, same)
          | inr (inr q) ↦ rw (q, on_status_change) (v, refl, same)
        ]

    on_status_change-Kept :
        (x : Option N) (v : W) (s : ScripthashStatus)
        → Alike v
        → Remains (on_status_change wallets nodes scripts calls (made x v) s).0
    on_status_change-Kept x v s same = changed-Kept s.status x v s.scripthash same

    status_loop-Kept :
        (l : List ScripthashStatus) (x : Option N) (v : W)
        → Alike v
        → Remains (status_loop wallets nodes scripts calls (made x v) l)
    unfolding status_loop
    status_loop-Kept [] x v same = (v, refl, same)
    status_loop-Kept (s ∷ l) x v same =
        let kept = on_status_change-Kept x v s same in
        elim (Bool-cases (on_status_change wallets nodes scripts calls (made x v) s).1) [
          | inr q ↦ rw (q, status_loop) kept
          | inl q ↦
              rw (q, status_loop)
                (with_Kept wallets nodes scripts calls laws w
                  (λ c. Remains (status_loop wallets nodes scripts calls c l))
                  (on_status_change wallets nodes scripts calls (made x v) s).0 kept
                  (λ y u again. status_loop-Kept l y u again))
        ]

    sync_wallet-Kept :
        (x : Option N)
        → Listed wallets nodes scripts calls w
        → Remains (sync_wallet wallets nodes scripts calls (made x w)).0
    unfolding sync_wallet
    sync_wallet-Kept x listed = elim (Result-cases (wallets.list_subscriptions w)) [
      | inr (inl (e, q)) ↦ rw (q, sync_wallet) (w, refl, λ k. refl)
      | inr (inr q) ↦ rw (q, sync_wallet) (w, refl, λ k. refl)
      | inl (l, e) ↦
          let kept = sync_loop-Kept l x w (λ k. refl) (listed l e) in
          elim (Option-cases (sync_loop wallets nodes scripts calls (made x w) l).1) [
            | inl q ↦ rw (e, q, sync_wallet) kept
            | inr (f, q) ↦ rw (e, q, sync_wallet) kept
          ]
    ]

    -- Whatever the node answers, SyncWallet, also where it fails, and then the thread that takes any
    -- statuses leave every subscription of the wallet as it was, and add none. The subscriptions of
    -- the wallet are a map that transactions do not touch, and the listed ones are in it.
    pub status_loop-sync_wallet-Kept :
        (x : Option N) (l : List ScripthashStatus)
        → Listed wallets nodes scripts calls w
        → Remains (
            status_loop wallets nodes scripts calls
              (sync_wallet wallets nodes scripts calls (made x w)).0
              l)
    status_loop-sync_wallet-Kept x l listed =
        with_Kept wallets nodes scripts calls laws w
          (λ c. Remains (status_loop wallets nodes scripts calls c l))
          (sync_wallet wallets nodes scripts calls (made x w)).0 (sync_wallet-Kept x listed)
          (λ y u again. status_loop-Kept l y u again)
