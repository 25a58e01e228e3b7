-- ===== src/Client/Sync/Steps.antt =====
-- The steps of SyncWallet leave the subscriptions as they are.
use go_electrum_client.Prelude.{
  ℕ, ◌≡◌, refl, sym, subst, ap, ◌∙◌, inl, inr, false, Option, none, some, List, [], ◌∷◌, Bool-cases,
}
use go_electrum_client.Prelude.Bytes.{bytes_eq, bytes_eq_iff}
use go_electrum_client.Prelude.Int.{ℤ}
use go_electrum_client.Prelude.Results.{Result, ok, err, panic, Result-cases, ok_injective}
use go_electrum_client.Datastore.{Subscription}
use go_electrum_client.Datastore.Keyed.{All}
use go_electrum_client.TxStore.{Tx, Calls}
use go_electrum_client.Client.{
  ElectrumWallet, ElectrumX, Scripts, Client, ClientError, History, is_subscribed, on_subscribed,
  subscribe_address_notify, add_subscription,
}
use go_electrum_client.Client.Subscribed.{
  Maps, client, add_subscription_ok, add_subscription_fails, add_subscription_panics,
}
use go_electrum_client.Client.Sync.{
  get_address_history_from_node, get_raw_transaction_from_node, add_raw, add_history, is_confirmed,
  add_tx_history_to_wallet, on_history, on_status,
}

module _ {A W N K : Type 0} (wallets : ElectrumWallet A W) (nodes : ElectrumX N)
    (scripts : Scripts A) (calls : Calls A K) where
  abbrev C : Type 0
  C = Client N W

  -- What SyncWallet relies on: transactions are not subscriptions.
  pub record Apart : Type 0 where
    pub maps : Maps wallets
    pub transactions :
        (w : W) (tx : Tx) (height : ℤ) (time : ℕ) (k : List ℕ)
        → wallets.get_subscription (wallets.add_transaction w tx height time).0 k
          ≡ wallets.get_subscription w k

  -- What is listed is there.
  abbrev pub Listed : W → Type 0
  Listed w =
      (l : List Subscription)
      → wallets.list_subscriptions w ≡ ok l
      → All (λ (s : Subscription). wallets.get_subscription w s.pk_script ≡ ok (some s)) l

  abbrev pub Same : W → W → Type 0
  Same w v = (k : List ℕ) → wallets.get_subscription v k ≡ wallets.get_subscription w k

  abbrev pub Kept : W → C → Type 0
  Kept w c = (v : W) × (c.wallet ≡ some v) × Same w v

  abbrev made : Option N → W → C
  made = client wallets nodes scripts

  module _ (laws : Apart) (w : W) where
    added_again :
        (v u : W) (s : Subscription)
        → Same w v
        → wallets.get_subscription w s.pk_script ≡ ok (some s)
        → wallets.add_subscription v s ≡ ok u
        → Same w u
    added_again v u s same there e k = elim (Bool-cases (bytes_eq s.pk_script k)) [
      | inl at ↦
          let here : s.pk_script ≡ k = (bytes_eq_iff s.pk_script k).0 at in
          ap (wallets.get_subscription u) (sym here)
          ∙ laws.maps.added v u s e
          ∙ sym there
          ∙ ap (wallets.get_subscription w) here
      | inr other ↦ laws.maps.added_other v u s k e other ∙ same k
    ]

    add_subscription-Kept :
        (x : Option N) (v : W) (s : Subscription)
        → Same w v
        → wallets.get_subscription w s.pk_script ≡ ok (some s)
        → Kept w (add_subscription wallets nodes (made x v) s).0
    add_subscription-Kept x v s same there = elim (Result-cases (wallets.add_subscription v s)) [
      | inl (u, e) ↦
          rw (add_subscription_ok wallets nodes scripts x v u s e)
            (u, refl, added_again v u s same there e)
      | inr (inl (e, q)) ↦
          rw (add_subscription_fails wallets nodes scripts x v s e q) (v, refl, same)
      | inr (inr q) ↦ rw (add_subscription_panics wallets nodes scripts x v s q) (v, refl, same)
    ]

    on_subscribed-Kept :
        (x : Option N) (v : W) (s : Subscription) (o : Option (Option (List ℕ)))
        → Same w v
        → wallets.get_subscription w s.pk_script ≡ ok (some s)
        → Kept w (on_subscribed wallets nodes s false (made x v, o)).0
    unfolding on_subscribed
    on_subscribed-Kept x v s none same there = (v, refl, same)
    on_subscribed-Kept x v s (some none) same there = (v, refl, same)
    on_subscribed-Kept x v s (some (some t)) same there = add_subscription-Kept x v s same there

    is_subscribed_lem :
        (x : Option N) (v : W) (s : Subscription)
        → wallets.get_subscription v s.pk_script ≡ ok (some s)
        → is_subscribed wallets nodes (made x v) s.pk_script ≡ ok false
    unfolding is_subscribed
    is_subscribed_lem x v s there = rw (there, is_subscribed) refl

    pub subscribe-Kept :
        (x : Option N) (v : W) (s : Subscription)
        → Same w v
        → wallets.get_subscription w s.pk_script ≡ ok (some s)
        → Kept w (subscribe_address_notify wallets nodes (made x v) s).0
    unfolding subscribe_address_notify
    subscribe-Kept none v s same there = (v, refl, same)
    subscribe-Kept (some n) v s same there =
        rw (is_subscribed_lem (some n) v s (same s.pk_script ∙ there), subscribe_address_notify)
          (on_subscribed-Kept (some (nodes.subscribe_scripthash_notify n s.electrum_scripthash).0) v
            s (nodes.subscribe_scripthash_notify n s.electrum_scripthash).1 same there)

    add_raw-Kept :
        (x : Option N) (v : W) (height : ℤ) (r : Result ClientError (Tx × ℕ))
        → Same w v
        → Kept w (add_raw wallets nodes scripts calls height v (made x v, r))
    unfolding add_raw
    add_raw-Kept x v height (ok (tx, time)) same = (
      (wallets.add_transaction v tx height time).0,
      refl,
      λ k. laws.transactions v tx height time k ∙ same k,
    )
    add_raw-Kept x v height (err e) same = (v, refl, same)
    add_raw-Kept x v height panic same = (v, refl, same)

    raw-Kept :
        (x : Option N) (v : W) (h : History)
        → Same w v
        → Kept w (
            add_raw wallets nodes scripts calls h.height v
              (get_raw_transaction_from_node wallets nodes scripts calls (made x v) h.tx_hash))
    unfolding get_raw_transaction_from_node
    raw-Kept none v h same = add_raw-Kept none v h.height _ same
    raw-Kept (some n) v h same =
        add_raw-Kept (some (nodes.get_raw_transaction n h.tx_hash).0) v h.height _ same

    add_history-Kept :
        (x : Option N) (v : W) (h : History)
        → Same w v
        → Kept w (add_history wallets nodes scripts calls v (made x v) h)
    unfolding add_history
    add_history-Kept x v h same =
        elim (Bool-cases
          (is_confirmed wallets nodes scripts calls (wallets.has_transaction v h.tx_hash))) [
            | inl known ↦ rw known (v, refl, same)
            | inr unknown ↦ rw unknown (raw-Kept x v h same)
          ]

    pub with_Kept :
        (P : C → Type 0) (c : C)
        → Kept w c
        → ((x : Option N) (v : W) → Same w v → P (made x v))
        → P c
    with_Kept P c (v, here, same) f =
        subst P (ap (λ o. record { x = c.x; wallet = o }) (sym here)) (f c.x v same)

    add_tx_history-Kept :
        (l : List History) (x : Option N) (v : W) (d : C)
        → Same w v
        → add_tx_history_to_wallet wallets nodes scripts calls (made x v) l ≡ ok d
        → Kept w d
    unfolding add_tx_history_to_wallet
    add_tx_history-Kept [] x v d same e = subst (Kept w) (ok_injective e) (v, refl, same)
    add_tx_history-Kept (h ∷ l) x v d same e =
        with_Kept (λ c. add_tx_history_to_wallet wallets nodes scripts calls c l ≡ ok d → Kept w d)
          (add_history wallets nodes scripts calls v (made x v) h) (add_history-Kept x v h same)
          (λ y u again. add_tx_history-Kept l y u d again) e

    on_history-Kept :
        (x : Option N) (v : W) (r : Result ClientError (List History))
        → Same w v
        → Kept w (on_history wallets nodes scripts calls (made x v, r)).0
    unfolding on_history
    on_history-Kept x v (err e) same = (v, refl, same)
    on_history-Kept x v panic same = (v, refl, same)
    on_history-Kept x v (ok l) same =
        elim (Result-cases (add_tx_history_to_wallet wallets nodes scripts calls (made x v) l)) [
          | inl (d, e) ↦ rw (e, on_history) (add_tx_history-Kept l x v d same e)
          | inr (inl (e, q)) ↦ rw (q, on_history) (v, refl, same)
          | inr (inr q) ↦ rw (q, on_history) (v, refl, same)
        ]

    pub asked-Kept :
        (x : Option N) (v : W) (s : Subscription)
        → Same w v
        → Kept w
            (on_history wallets nodes scripts calls
              (get_address_history_from_node wallets nodes scripts calls (made x v) s)).0
    unfolding get_address_history_from_node
    asked-Kept none v s same = on_history-Kept none v _ same
    asked-Kept (some n) v s same =
        on_history-Kept (some (nodes.get_history n s.electrum_scripthash).0) v _ same

    pub on_status-Kept :
        (x : Option N) (v : W) (s : Subscription) (r : Result ClientError (List ℕ))
        → Same w v
        → Kept w (on_status wallets nodes scripts calls s (made x v, r)).0
    unfolding on_status
    on_status-Kept x v s (err e) same = (v, refl, same)
    on_status-Kept x v s panic same = (v, refl, same)
    on_status-Kept x v s (ok []) same = (v, refl, same)
    on_status-Kept x v s (ok (b ∷ l)) same = asked-Kept x v s same
