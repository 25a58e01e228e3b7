-- ===== src/Tests/Clients.antt =====
-- A wallet on stores that are lists, and a node that counts its calls, under the theorems of the
-- client.
use go_electrum_client.Prelude.{
  ℕ, suc, ◌≡◌, refl, sym, subst, inl, inr, Bool, true, false, Option, none, some, List, [], ◌∷◌,
  ◌∙◌, if◌then◌else◌, arith, Bool-cases,
}
use go_electrum_client.Prelude.Bytes.{bytes_eq}
use go_electrum_client.Prelude.Int.{pos}
use go_electrum_client.Prelude.Results.{Result, ok, ok_injective}
use go_electrum_client.Datastore.{Subscription}
use go_electrum_client.Datastore.Interface.{StoreError}
use go_electrum_client.Datastore.Keyed.{In, All, erase, find}
use go_electrum_client.Keys.{KeyChange, external, internal}
use go_electrum_client.Stores.{put_rec, get_rec, get_all_recs, values}
use go_electrum_client.Stores.Subscriptions as Subs
use go_electrum_client.Client.{
  ElectrumWallet, ElectrumX, Scripts, Client, History, address_to_electrum_scripthash,
  pk_script_to_electrum_scripthash, rev_bytes, get_new_address,
}
use go_electrum_client.Client.Subscribed.{IsSubscribed, Maps}
use go_electrum_client.Client.Subscribed.NewAddresses.{NewAddress, get_new_address-NewAddress}
use go_electrum_client.Client.Sync.{sync_wallet, status_loop}
use go_electrum_client.Client.Sync.Steps.{Apart, Listed, Kept}
use go_electrum_client.Client.Sync.Kept.{status_loop-sync_wallet-Kept}
use go_electrum_client.Client.Rescan.{rescan_wallet}
use go_electrum_client.Client.Rescan.Tried.{Steady, is_history, has_history}
use go_electrum_client.Client.Rescan.Found.{rescan_wallet-found}
use go_electrum_client.TxStore.{TxOut, new_wire_tx}
use go_electrum_client.Client.Broadcast.{
  broadcast, broadcast_tx, on_sent, subscribe_backs, back_to_wallet, pays_back, is_ours,
}
use go_electrum_client.Client.Broadcast.Watched.{broadcast-HasSub}
use go_electrum_client.Wallet.Electrum.{
  list_addresses, BtcWallet, btc_wallet, add_subscription, get_subscription, list_subscriptions,
  wallet_add_transaction,
}
use go_electrum_client.Wallet.Electrum.Maps.{btc_wallet-Maps}
use go_electrum_client.Tests.Stores.{Entries, entries, entries-Lawful}
use go_electrum_client.Tests.Ledgers.{paying, Wallet, calls, us, xs, list_txns, empty, ours}

abbrev Purse : Type 0
Purse = BtcWallet Wallet (Entries Subscription)

abbrev address : KeyChange → ℕ → Option (List ℕ)
address external i = some (i ∷ 0 ∷ [])
address internal i = some (i ∷ 1 ∷ [])

abbrev unused : List (List ℕ) → KeyChange → Result StoreError (Option (List ℕ))
unused k p = ok (some ours)

abbrev wallets : ElectrumWallet (List ℕ) Purse
wallets = btc_wallet calls us xs list_txns entries address unused

wallets-Maps : Maps wallets
wallets-Maps = btc_wallet-Maps calls us xs list_txns entries address unused entries-Lawful

abbrev scripts : Scripts (List ℕ)
scripts = record {
  pay_to_addr_script = λ a. some a;
  hash_b = λ s. s;
  hex = λ s. s;
  of_hex = λ s. some s;
  address_string = λ a. a;
  script_address = λ a. a;
  extract_pk_script_addrs = λ s. some (s ∷ []);
  pk_script_to_address_pubkey_hash = λ s. s;
}

-- Only the external key with the number 9 has a history.
abbrev known : List ℕ → Bool
known h = bytes_eq h (0 ∷ 9 ∷ [])

abbrev one_history : List History
one_history = record { height = pos 3; tx_hash = 5 ∷ []; fee = pos 0 } ∷ []

abbrev nodes : ElectrumX ℕ
nodes = record {
  subscribe_scripthash_notify = λ n h. (suc n, some (some (7 ∷ [])));
  unsubscribe_scripthash_notify = λ n h. suc n;
  get_history = λ n h. (suc n, some (if known h then one_history else []));
  get_raw_transaction = λ n t. (suc n, some (5 ∷ []));
  broadcast = λ n t. (suc n, some t);
  get_scripthash_notify = λ n. true;
  now = λ n. n;
}

abbrev no_subs : Purse
no_subs = record { subscriptions = ([], tt); txstore = empty; blockchain_tip = pos 0 }

history_known : (n : ℕ) (h : List ℕ) → is_history (nodes.get_history n h).1 ≡ known h
history_known n h = elim (Bool-cases (known h)) [ inl e ↦ rw e refl | inr e ↦ rw e refl ]

abbrev one_more : Purse → Subscription → Purse
one_more w s = record w { subscriptions = entries.put w.subscriptions s.pk_script s }

one_more_lem : (w : Purse) (s : Subscription) → wallets.add_subscription w s ≡ ok (one_more w s)
unfolding add_subscription Subs.put put_rec
one_more_lem w s = refl

wallets-Steady : Steady wallets nodes scripts address scripts.pay_to_addr_script known
wallets-Steady = record {
  get_address = λ w p i. refl;
  address_to_script = λ w a. refl;
  get_history = history_known;
  added = one_more;
  add_ok = one_more_lem;
  maps = wallets-Maps;
}

abbrev no_subs_client : Client ℕ Purse
no_subs_client = record { x = some 0; wallet = some no_subs }

ninth-known :
    has_history wallets nodes scripts address scripts.pay_to_addr_script known wallets-Steady
      external 9
    ≡ true
unfolding has_history address_to_electrum_scripthash pk_script_to_electrum_scripthash rev_bytes
    bytes_eq
ninth-known = refl

rescan_wallet-found_example :
    (v : Purse) × ((rescan_wallet wallets nodes scripts no_subs_client).0.wallet ≡ some v)
    × ((rescan_wallet wallets nodes scripts no_subs_client).1 ≡ none)
    × IsSubscribed (wallets.get_subscription v (9 ∷ 0 ∷ []))
rescan_wallet-found_example =
    rescan_wallet-found wallets nodes scripts address scripts.pay_to_addr_script known
      wallets-Steady no_subs_client no_subs 0 9 external (9 ∷ 0 ∷ []) (9 ∷ 0 ∷ []) refl refl
      (omega arith) (λ k below. inl (omega arith)) refl refl ninth-known

get_new_address-NewAddress_example :
    (let (d, r) = get_new_address wallets nodes scripts no_subs_client false in
      NewAddress wallets nodes scripts no_subs_client d no_subs external r)
get_new_address-NewAddress_example =
    get_new_address-NewAddress wallets nodes scripts (some 0) false no_subs wallets-Maps

abbrev one_sub : Subscription
one_sub = record { pk_script = ours; electrum_scripthash = 0 ∷ 9 ∷ []; address = ours }

one_subscribed : Purse
one_subscribed = one_more no_subs one_sub

one_sub-there : wallets.get_subscription one_subscribed ours ≡ ok (some one_sub)
unfolding one_subscribed get_subscription Subs.get get_rec find bytes_eq
one_sub-there = refl

one_sub-listed : wallets.list_subscriptions one_subscribed ≡ ok (one_sub ∷ [])
unfolding one_subscribed list_subscriptions Subs.get_all get_all_recs values erase
one_sub-listed = refl

one_subscribed-Listed : Listed wallets nodes scripts calls one_subscribed
one_subscribed-Listed l e =
    subst
      (All
        (λ (s : Subscription). wallets.get_subscription one_subscribed s.pk_script ≡ ok (some s)))
      (ok_injective (sym one_sub-listed ∙ e)) (one_sub-there, tt)

wallets-Apart : Apart wallets nodes scripts calls
unfolding wallet_add_transaction get_subscription
wallets-Apart = record { maps = wallets-Maps; transactions = λ w tx height time k. refl }

status_loop-sync_wallet-Kept_example : Kept wallets nodes scripts calls one_subscribed (
    status_loop wallets nodes scripts calls
      (sync_wallet wallets nodes scripts calls
        (record { x = some 0; wallet = some one_subscribed })).0
      (record { scripthash = 0 ∷ 9 ∷ []; status = 7 ∷ [] } ∷ []))
status_loop-sync_wallet-Kept_example =
    status_loop-sync_wallet-Kept wallets nodes scripts calls wallets-Apart one_subscribed (some 0)
      (record { scripthash = 0 ∷ 9 ∷ []; status = 7 ∷ [] } ∷ []) one_subscribed-Listed

abbrev paid : TxOut
paid = record { value = pos 5; pk_script = ours }

paying-sent : (broadcast wallets nodes scripts calls no_subs_client (5 ∷ [])).1 ≡ ok (5 ∷ [])
unfolding broadcast broadcast_tx on_sent subscribe_backs back_to_wallet pays_back is_ours
    new_wire_tx list_addresses add_subscription Subs.put put_rec bytes_eq
paying-sent = refl

ours-listed : In ours (wallets.list_addresses no_subs)
unfolding list_addresses
ours-listed = inl refl

broadcast-HasSub_example :
    (v : Purse) × ((broadcast wallets nodes scripts calls no_subs_client (5 ∷ [])).0.wallet
      ≡ some v)
    × IsSubscribed (wallets.get_subscription v ours)
unfolding new_wire_tx
broadcast-HasSub_example =
    broadcast-HasSub wallets nodes scripts calls wallets-Maps 0 no_subs (5 ∷ []) (5 ∷ []) paying
      paid ours ours refl (inl refl) refl ours-listed refl paying-sent
