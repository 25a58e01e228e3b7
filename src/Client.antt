-- ===== src/Client.antt =====
-- client/btc: the client between the wallet and the ElectrumX node. The wallet is an interface, and
-- so is the node, whose answers change its state; an answer that is an error is none.
pub mod Subscribed
pub mod Sync
pub mod Rescan
pub mod Broadcast
use go_electrum_client.Prelude.{
  ℕ, Bool, true, false, not, Option, none, some, List, [], ◌∷◌, if◌then◌else◌,
}
use go_electrum_client.Prelude.Int.{ℤ}
use go_electrum_client.Prelude.Results.{Result, ok, err, panic}
use go_electrum_client.Datastore.{Subscription, Txn}
use go_electrum_client.Datastore.Interface.{StoreError}
use go_electrum_client.Keys.{KeyChange, internal, external}
use go_electrum_client.TxStore.{Tx, TxError}

pub data ClientError : Type 0 where
  no_wallet no_electrumx node_error empty_result no_subscription_found : ClientError
  bad_script bad_hex client_panic : ClientError
  wallet_error : StoreError → ClientError
  tx_error : TxError → ClientError

pub record History : Type 0 where
  pub height : ℤ
  pub tx_hash : List ℕ
  pub fee : ℤ

-- What the client calls of wallet.ElectrumWallet, in wallet/wallet.go. `A` are addresses; where the
-- code returns a pointer, none is nil.
pub record ElectrumWallet (A W : Type 0) : Type 0 where
  pub add_subscription : W → Subscription → Result StoreError W
  pub remove_subscription : W → List ℕ → W
  pub get_subscription : W → List ℕ → Result StoreError (Option Subscription)
  pub get_subscription_for_electrum_scripthash :
      W → List ℕ → Result StoreError (Option Subscription)
  pub list_subscriptions : W → Result StoreError (List Subscription)
  pub get_address : W → KeyChange → ℕ → Option A
  pub get_unused_address : W → KeyChange → Result StoreError (Option A)
  pub address_to_script : W → A → Option (List ℕ)
  pub has_transaction : W → List ℕ → Option Txn
  pub add_transaction : W → Tx → ℤ → ℕ → W × Option TxError
  pub list_addresses : W → List A

-- The calls of the node: what is subscribed has a status, or the result is nil. The
-- clock is read at a state of the node.
pub record ElectrumX (N : Type 0) : Type 0 where
  pub subscribe_scripthash_notify : N → List ℕ → N × Option (Option (List ℕ))
  pub unsubscribe_scripthash_notify : N → List ℕ → N
  pub get_history : N → List ℕ → N × Option (List History)
  pub get_raw_transaction : N → List ℕ → N × Option (List ℕ)
  pub broadcast : N → List ℕ → N × Option (List ℕ)
  pub get_scripthash_notify : N → Bool
  pub now : N → ℕ

-- What is called of btcd and the standard library. `hash_b` is chainhash.HashB.
pub record Scripts (A : Type 0) : Type 0 where
  pub pay_to_addr_script : A → Option (List ℕ)
  pub hash_b : List ℕ → List ℕ
  pub hex : List ℕ → List ℕ
  pub of_hex : List ℕ → Option (List ℕ)
  pub address_string : A → List ℕ
  pub script_address : A → List ℕ
  pub extract_pk_script_addrs : List ℕ → Option (List A)
  pub pk_script_to_address_pubkey_hash : List ℕ → List ℕ

pub record Client (N W : Type 0) : Type 0 where
  pub x : Option N
  pub wallet : Option W

-- The loop of revBytes: the byte at `i` of a buffer of the size is that at size - i - 1.
unfoldable pub rev_bytes : List ℕ → List ℕ → List ℕ
rev_bytes [] buf = buf
rev_bytes (b ∷ l) buf = rev_bytes l (b ∷ buf)

unfoldable pub pk_script_to_electrum_scripthash : {A : Type 0} → Scripts A → List ℕ → List ℕ
pk_script_to_electrum_scripthash scripts script = scripts.hex (rev_bytes (scripts.hash_b script) [])

unfoldable pub address_to_electrum_scripthash : {A : Type 0} → Scripts A → A → Option (List ℕ)
address_to_electrum_scripthash scripts a = elim (scripts.pay_to_addr_script a) [
  | none ↦ none
  | some script ↦ some (pk_script_to_electrum_scripthash scripts script)
]

module _ {A W N : Type 0} (wallets : ElectrumWallet A W) (nodes : ElectrumX N) where
  abbrev pub C : Type 0
  C = Client N W

  unfoldable pub add_subscription : C → Subscription → C × Option ClientError
  add_subscription c s = elim c.wallet [
    | none ↦ (c, some no_wallet)
    | some w ↦ elim (wallets.add_subscription w s) [
      | ok w' ↦ (record c { wallet = some w' }, none)
      | err e ↦ (c, some (wallet_error e))
      | panic ↦ (c, some client_panic)
    ]
  ]

  abbrev found : Result StoreError (Option Subscription) → Result ClientError Subscription
  found (ok (some s)) = ok s
  found (ok none) = err no_subscription_found
  found (err e) = err (wallet_error e)
  found panic = err client_panic

  unfoldable pub get_subscription_for_scripthash : C → List ℕ → Result ClientError Subscription
  get_subscription_for_scripthash c h = elim c.wallet [
    | none ↦ err no_wallet
    | some w ↦ found (wallets.get_subscription_for_electrum_scripthash w h)
  ]

  unfoldable pub get_subscription : C → List ℕ → Result ClientError Subscription
  get_subscription c script = elim c.wallet [
    | none ↦ err no_wallet
    | some w ↦ found (wallets.get_subscription w script)
  ]

  -- The test is subscription == nil.
  abbrev is_nil : Result StoreError (Option Subscription) → Result ClientError Bool
  is_nil (ok none) = ok true
  is_nil (ok (some s)) = ok false
  is_nil (err e) = err (wallet_error e)
  is_nil panic = err client_panic

  unfoldable pub is_subscribed : C → List ℕ → Result ClientError Bool
  is_subscribed c script = elim c.wallet [
    | none ↦ err no_wallet
    | some w ↦ is_nil (wallets.get_subscription w script)
  ]

  unfoldable pub remove_subscription : C → List ℕ → C × Option ClientError
  remove_subscription c script = elim c.wallet [
    | none ↦ (c, some no_wallet)
    | some w ↦ (record c { wallet = some (wallets.remove_subscription w script) }, none)
  ]

  -- What follows the answer of the node: an error of the wallet is not read.
  unfoldable pub on_subscribed :
      Subscription → Bool → C × Option (Option (List ℕ)) → C × Result ClientError (List ℕ)
  on_subscribed s subscribed (c, none) = (c, err node_error)
  on_subscribed s subscribed (c, some none) = (c, err empty_result)
  on_subscribed s subscribed (c, some (some status)) =
      (if subscribed then c else (add_subscription c s).0, ok status)

  abbrev pub subscribe_to_node : C → N → List ℕ → C × Option (Option (List ℕ))
  subscribe_to_node c n h =
      let (m, answer) = nodes.subscribe_scripthash_notify n h in (record c { x = some m }, answer)

  unfoldable pub subscribe_address_notify : C → Subscription → C × Result ClientError (List ℕ)
  subscribe_address_notify c s = elim c.x [
    | none ↦ (c, err no_electrumx)
    | some n ↦ elim (is_subscribed c s.pk_script) [
      | err e ↦ (c, err e)
      | panic ↦ (c, panic)
      | ok subscribed ↦ on_subscribed s subscribed (subscribe_to_node c n s.electrum_scripthash)
    ]
  ]

  unfoldable pub unsubscribe_address_notify : C → List ℕ → C
  unsubscribe_address_notify c script = elim c.x [
    | none ↦ c
    | some n ↦ elim (get_subscription c script) [
      | ok s ↦
          (remove_subscription
            (record c { x = some (nodes.unsubscribe_scripthash_notify n s.electrum_scripthash) })
            script).0
      | _ ↦ c
    ]
  ]

  module _ (scripts : Scripts A) where
    abbrev pub new_sub : A → List ℕ → Subscription
    new_sub a script = record {
      pk_script = scripts.hex script;
      electrum_scripthash = pk_script_to_electrum_scripthash scripts script;
      address = scripts.address_string a;
    }

    -- A subscription that the node does not answer is taken back.
    unfoldable pub confirm_sub :
        A → Subscription → C × Option (Option (List ℕ)) → C × Result ClientError (List ℕ)
    confirm_sub a s (c, none) = ((remove_subscription c s.pk_script).0, err node_error)
    confirm_sub a s (c, some none) = ((remove_subscription c s.pk_script).0, err empty_result)
    confirm_sub a s (c, some (some status)) = (c, ok (scripts.address_string a))

    -- What follows the addition to the wallet.
    unfoldable pub on_added :
        N → A → Subscription → C × Option ClientError → C × Result ClientError (List ℕ)
    on_added n a s (d, some e) = (d, err e)
    on_added n a s (d, none) = confirm_sub a s (subscribe_to_node d n s.electrum_scripthash)

    -- What follows the choice of an address: it is put into the wallet, then asked of the node.
    unfoldable pub subscribe_address : C → N → A → List ℕ → C × Result ClientError (List ℕ)
    subscribe_address c n a script =
        on_added n a (new_sub a script) (add_subscription c (new_sub a script))

    -- A nil address has no script.
    unfoldable pub get_new_address : C → Bool → C × Result ClientError (List ℕ)
    get_new_address c is_internal = elim c.wallet [
      | none ↦ (c, err no_wallet)
      | some w ↦ elim c.x [
        | none ↦ (c, err no_electrumx)
        | some n ↦
            elim (wallets.get_unused_address w (if is_internal then internal else external)) [
              | err e ↦ (c, err (wallet_error e))
              | panic ↦ (c, panic)
              | ok none ↦ (c, err bad_script)
              | ok (some a) ↦ elim (scripts.pay_to_addr_script a) [
                | none ↦ (c, err bad_script)
                | some script ↦ subscribe_address c n a script
              ]
            ]
      ]
    ]
