-- ===== src/Client/Subscribed/NewAddresses.antt =====
-- How getNewAddress of client/btc/client_wallet.go ends, by the answer of the node.
use go_electrum_client.Prelude.{
  ℕ, ◌≡◌, ◌≢◌, refl, sym, ◌∙◌, inl, inr, Bool, Option, none, some, List, if◌then◌else◌,
  Option-cases,
}
use go_electrum_client.Prelude.Results.{Result, ok, err, Result-cases, err_ne_ok, panic_ne_ok}
use go_electrum_client.Datastore.{Subscription}
use go_electrum_client.Datastore.Interface.{StoreError}
use go_electrum_client.Keys.{KeyChange, internal, external}
use go_electrum_client.Client.{
  ElectrumWallet, ElectrumX, Scripts, Client, ClientError, wallet_error, node_error, empty_result,
  remove_subscription, confirm_sub, subscribe_address, on_added, get_new_address, new_sub,
  bad_script, client_panic, no_electrumx,
}
use go_electrum_client.Client.Subscribed.{
  IsSubscribed, Maps, SameBut, client, add_subscription_ok, add_subscription_fails,
  add_subscription_panics,
}

module _ {A W : Type 0} (wallets : ElectrumWallet A W) {N : Type 0} (nodes : ElectrumX N)
    (scripts : Scripts A) where
  abbrev sub : A → List ℕ → Subscription
  sub = new_sub wallets nodes scripts

  -- Why GetNewAddress asks nothing of the node.
  pub data Blocked (c : Client N W) (w : W) (p : KeyChange) : Type 0 where
    no_node : c.x ≡ none → Blocked c w p
    no_address : ¬ ((a : A) × (wallets.get_unused_address w p ≡ ok (some a))) → Blocked c w p
    no_script :
        (a : A)
        → wallets.get_unused_address w p ≡ ok (some a)
        → scripts.pay_to_addr_script a ≡ none
        → Blocked c w p
    not_added :
        (a : A) (script : List ℕ)
        → wallets.get_unused_address w p ≡ ok (some a)
        → scripts.pay_to_addr_script a ≡ some script
        → ¬ ((v : W) × (wallets.add_subscription w (sub a script) ≡ ok v))
        → Blocked c w p

  -- What GetNewAddress asks of the node: the unused address has a script, and its subscription is
  -- in the wallet.
  pub record Asked (c : Client N W) (w : W) (p : KeyChange) : Type 0 where
    pub node : N
    pub address : A
    pub script : List ℕ
    pub with_sub : W
    pub at_node : c.x ≡ some node
    pub unused : wallets.get_unused_address w p ≡ ok (some address)
    pub pays : scripts.pay_to_addr_script address ≡ some script
    pub added : wallets.add_subscription w (sub address script) ≡ ok with_sub

  -- The node's answer: an error, nothing, or a status.
  abbrev pub answer :
      {c : Client N W} {w : W} {p : KeyChange} → Asked c w p → Option (Option (List ℕ))
  answer k =
      (nodes.subscribe_scripthash_notify k.node (sub k.address k.script).electrum_scripthash).1

  abbrev pub Refuses : Option (Option (List ℕ)) → ClientError → Type 0
  Refuses none e = e ≡ node_error
  Refuses (some none) e = e ≡ empty_result
  Refuses (some (some status)) e = ⊥

  -- How GetNewAddress ends: the node is not asked and nothing changes, or it refuses and the
  -- script of the address has no subscription any more, or it gives a status and the address is
  -- returned, whose script has a subscription.
  pub data NewAddress (c d : Client N W) (w : W) (p : KeyChange) (r : Result ClientError (List ℕ))
      : Type 0 where
    not_asked : Blocked c w p → d ≡ c → ¬ ((t : List ℕ) × (r ≡ ok t)) → NewAddress c d w p r
    taken_back :
        (k : Asked c w p) (v : W) (e : ClientError)
        → Refuses (answer k) e
        → d.wallet ≡ some v
        → r ≡ err e
        → ¬ IsSubscribed (wallets.get_subscription v (scripts.hex k.script))
        → SameBut wallets (scripts.hex k.script) w v
        → NewAddress c d w p r
    subscribed :
        (k : Asked c w p) (v : W) (status : List ℕ)
        → answer k ≡ some (some status)
        → d.wallet ≡ some v
        → r ≡ ok (scripts.address_string k.address)
        → wallets.get_subscription v (scripts.hex k.script) ≡ ok (some (sub k.address k.script))
        → SameBut wallets (scripts.hex k.script) w v
        → NewAddress c d w p r

  module _ (c d : Client N W) (w : W) (p : KeyChange) (maps : Maps wallets) (k : Asked c w p) where
    dropped :
        (e : ClientError)
        → Refuses (answer k) e
        → d.wallet ≡ some k.with_sub
        → NewAddress c (remove_subscription wallets nodes d (scripts.hex k.script)).0 w p (err e)
    unfolding remove_subscription
    dropped e refuses here =
        rw (here, remove_subscription)
          (taken_back k (wallets.remove_subscription k.with_sub (scripts.hex k.script)) e refuses
            refl refl (maps.removed k.with_sub (scripts.hex k.script))
            (λ j other.
              maps.removed_other k.with_sub (scripts.hex k.script) j other
              ∙ maps.added_other w k.with_sub (sub k.address k.script) j k.added other))

    confirm_sub-NewAddress :
        (o : Option (Option (List ℕ)))
        → answer k ≡ o
        → d.wallet ≡ some k.with_sub
        → (let (e, r) =
              confirm_sub wallets nodes scripts k.address (sub k.address k.script) (d, o) in
            NewAddress c e w p r)
    unfolding confirm_sub
    confirm_sub-NewAddress none q here = dropped node_error (rw q refl) here
    confirm_sub-NewAddress (some none) q here = dropped empty_result (rw q refl) here
    confirm_sub-NewAddress (some (some t)) q here =
        subscribed k k.with_sub t q here refl
          (maps.added w k.with_sub (sub k.address k.script) k.added)
          (λ j other. maps.added_other w k.with_sub (sub k.address k.script) j k.added other)

  failed :
      (c : Client N W) (w : W) (p : KeyChange) (e : ClientError)
      → Blocked c w p
      → NewAddress c c w p (err e)
  failed c w p e why = not_asked why refl (λ r. cc)

  subscribe_address-NewAddress :
      (n : N) (w : W) (p : KeyChange) (a : A) (x : List ℕ)
      → Maps wallets
      → wallets.get_unused_address w p ≡ ok (some a)
      → scripts.pay_to_addr_script a ≡ some x
      → (let (d, r) =
            subscribe_address wallets nodes scripts
              (client wallets nodes scripts (some n) w)
              n
              a
              x in
          NewAddress (client wallets nodes scripts (some n) w) d w p r)
  unfolding subscribe_address on_added
  subscribe_address-NewAddress n w p a x maps unused pays =
      let c = client wallets nodes scripts (some n) w in
      elim (Result-cases (wallets.add_subscription w (sub a x))) [
        | inl (v, e) ↦
            let k : Asked c w p = record {
              node = n;
              address = a;
              script = x;
              with_sub = v;
              at_node = refl;
              unused = unused;
              pays = pays;
              added = e;
            } in
            let (m, o) = nodes.subscribe_scripthash_notify n (sub a x).electrum_scripthash in
            rw
              (
                add_subscription_ok wallets nodes scripts (some n) w v (sub a x) e,
                subscribe_address,
              )
              (confirm_sub-NewAddress c (client wallets nodes scripts (some m) v) w p maps k o refl
                refl)
        | inr (inl (e, q)) ↦
            rw
              (
                add_subscription_fails wallets nodes scripts (some n) w (sub a x) e q,
                subscribe_address,
              )
              (failed c w p (wallet_error e)
                (not_added a x unused pays (λ t. err_ne_ok (sym q ∙ t.1))))
        | inr (inr q) ↦
            rw
              (
                add_subscription_panics wallets nodes scripts (some n) w (sub a x) q,
                subscribe_address,
              )
              (failed c w p client_panic
                (not_added a x unused pays (λ t. panic_ne_ok (sym q ∙ t.1))))
      ]

  abbrev purpose : Bool → KeyChange
  purpose is_internal = if is_internal then internal else external

  -- getNewAddress asks nothing of the node, and then changes nothing and returns no address, only
  -- where there is no node, no unused address, no script for it or the wallet takes no
  -- subscription. Else the node answers. With an error or an empty answer that is the error, and
  -- the script of the address has no subscription any more, also where it had one before. With a
  -- status the unused address is returned, and its script has its subscription. Every other
  -- subscription stays as it was. The wallet is assumed to keep its subscriptions as a map.
  pub get_new_address-NewAddress :
      (x : Option N) (is_internal : Bool) (w : W)
      → Maps wallets
      → (let (d, r) =
            get_new_address wallets nodes scripts (client wallets nodes scripts x w) is_internal in
          NewAddress (client wallets nodes scripts x w) d w (purpose is_internal) r)
  unfolding get_new_address
  get_new_address-NewAddress none is_internal w maps =
      failed (client wallets nodes scripts none w) w (purpose is_internal) no_electrumx
        (no_node refl)
  get_new_address-NewAddress (some n) is_internal w maps =
      let c = client wallets nodes scripts (some n) w in
      let p = purpose is_internal in
      elim (Result-cases (wallets.get_unused_address w p)) [
        | inl (some a, e) ↦ elim (Option-cases (scripts.pay_to_addr_script a)) [
          | inl bad ↦ rw (e, bad, get_new_address) (failed c w p bad_script (no_script a e bad))
          | inr (script, pays) ↦
              rw (e, pays, get_new_address)
                (subscribe_address-NewAddress n w p a script maps e pays)
        ]
        | inl (none, e) ↦
            rw (e, get_new_address)
              (failed c w p bad_script (no_address (λ t. none_address _ t.0 e t.1)))
        | inr (inl (e, q)) ↦
            rw (q, get_new_address)
              (failed c w p (wallet_error e) (no_address (λ t. err_ne_ok (sym q ∙ t.1))))
        | inr (inr q) ↦
            rw (q, get_new_address)
              (not_asked (no_address (λ t. panic_ne_ok (sym q ∙ t.1))) refl (λ r. cc))
      ]
    where
      none_address : (r : Result StoreError (Option A)) (a : A) → r ≡ ok none → r ≢ ok (some a)
      none_address r a e f = cc
