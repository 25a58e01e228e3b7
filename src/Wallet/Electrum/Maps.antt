-- ===== src/Wallet/Electrum/Maps.antt =====
-- The wallet's subscriptions on bbolt are a map from scripts, as the client needs.
use go_electrum_client.Prelude.{
  ℕ, ◌≡◌, refl, sym, ap, ◌∙◌, inl, inr, true, false, Option, some, List, arith, Bool-cases,
}
use go_electrum_client.Prelude.Bytes.{bytes_eq}
use go_electrum_client.Prelude.Results.{Result, ok, err, ◌>>=◌, ok_injective, err_ne_ok}
use go_electrum_client.Datastore.{Utxo, Stxo, Subscription}
use go_electrum_client.Datastore.Interface.{
  StoreError, Store, TxnStore, bucket_not_found, no_record,
}
use go_electrum_client.Keys.{KeyChange}
use go_electrum_client.Stores.{Bucket, get_rec, put_rec, delete_rec}
use go_electrum_client.Stores.Subscriptions as Subs
use go_electrum_client.Stores.Walks.{Lawful}
use go_electrum_client.Stores.Walks.Lookups.{get-put, get-put_other, get-delete, get-delete_other}
use go_electrum_client.TxStore.{Calls}
use go_electrum_client.Client.Subscribed.{Maps, IsSubscribed}
use go_electrum_client.Wallet.Electrum.{
  W, btc_wallet, add_subscription, remove_subscription, get_subscription,
}

module _ {B : Type 0} (ops : Bucket Subscription B) where
  -- Two buckets have the same answer for a key.
  get_alike :
      (b c : B) (k : List ℕ)
      → ops.reachable c ≡ ops.reachable b
      → ops.get c k ≡ ops.get b k
      → Subs.get ops c k ≡ Subs.get ops b k
  unfolding Subs.get get_rec
  get_alike b c k up e = rw (up, e, Subs.get, get_rec) refl

  put_up : (b c : B) (s : Subscription) → Subs.put ops b s ≡ ok c → ops.reachable b ≡ true
  unfolding Subs.put put_rec
  put_up b c s e = ground arith

  put_ok : (b c : B) (s : Subscription) → Subs.put ops b s ≡ ok c → ops.put b s.pk_script s ≡ c
  unfolding Subs.put put_rec
  put_ok b c s e = ground arith

module _ {A K U X T B : Type 0} (calls : Calls A K) (us : Store Utxo U) (xs : Store Stxo X)
    (ts : TxnStore T) (ops : Bucket Subscription B) (address : KeyChange → ℕ → Option A)
    (unused : K → KeyChange → Result StoreError (Option A)) (laws : Lawful ops) where
  abbrev Wal : Type 0
  Wal = W calls us xs ts ops

  abbrev found : Wal → List ℕ → Result StoreError (Option Subscription)
  found = get_subscription calls us xs ts ops

  found_alike :
      (w v : Wal) (k : List ℕ)
      → ops.reachable v.subscriptions ≡ ops.reachable w.subscriptions
      → ops.get v.subscriptions k ≡ ops.get w.subscriptions k
      → found v k ≡ found w k
  unfolding get_subscription
  found_alike w v k up e =
      ap (λ (r : Result StoreError Subscription). r >>= λ s. ok (some s))
        (get_alike ops w.subscriptions v.subscriptions k up e)

  -- A wallet after an addition that ends well.
  record Put (w v : Wal) (s : Subscription) : Type 0 where
    pub up : ops.reachable w.subscriptions ≡ true
    pub now : v.subscriptions ≡ ops.put w.subscriptions s.pk_script s

  Put-of :
      (w v : Wal) (s : Subscription) → add_subscription calls us xs ts ops w s ≡ ok v → Put w v s
  unfolding add_subscription Subs.put put_rec
  Put-of w v s e = elim (Bool-cases (ops.reachable w.subscriptions)) [
    | inl up ↦ record {
      up = up;
      now =
          ap (λ (u : Wal). u.subscriptions)
            (sym (ok_injective (rw (up, add_subscription, Subs.put, put_rec) at e)));
    }
    | inr down ↦ absurd (err_ne_ok (rw (down, add_subscription, Subs.put, put_rec) at e))
  ]

  added_lem :
      (w v : Wal) (s : Subscription)
      → add_subscription calls us xs ts ops w s ≡ ok v
      → found v s.pk_script ≡ ok (some s)
  unfolding get_subscription Subs.get get_rec
  added_lem w v s e =
      let p = Put-of w v s e in
      rw
        (
          p.now,
          laws.reachable_put w.subscriptions s.pk_script s,
          p.up,
          get-put ops laws w.subscriptions s.pk_script s,
          get_subscription,
          Subs.get,
          get_rec,
        )
        refl

  added_other_lem :
      (w v : Wal) (s : Subscription) (k : List ℕ)
      → add_subscription calls us xs ts ops w s ≡ ok v
      → bytes_eq s.pk_script k ≡ false
      → found v k ≡ found w k
  added_other_lem w v s k e other =
      let p = Put-of w v s e in
      found_alike w v k (ap ops.reachable p.now ∙ laws.reachable_put w.subscriptions s.pk_script s)
        (ap (λ b. ops.get b k) p.now ∙ get-put_other ops laws w.subscriptions s.pk_script k s other)

  removed_error :
      (w : Wal) (k : List ℕ)
      → (e : StoreError) × (found (remove_subscription calls us xs ts ops w k) k ≡ err e)
  unfolding remove_subscription get_subscription Subs.get get_rec Subs.delete delete_rec
  removed_error w k = elim (Bool-cases (ops.reachable w.subscriptions)) [
    | inr down ↦ (
      bucket_not_found,
      rw (down, remove_subscription, get_subscription, Subs.delete, delete_rec, Subs.get, get_rec)
          (rw (down) refl),
    )
    | inl up ↦ (
      no_record,
      rw
          (
            up,
            remove_subscription,
            get_subscription,
            Subs.delete,
            delete_rec,
            Subs.get,
            get_rec,
            laws.reachable_delete w.subscriptions k,
          )
          (rw (up, get-delete ops laws w.subscriptions k) refl),
    )
  ]

  removed_lem :
      (w : Wal) (k : List ℕ) → ¬ IsSubscribed (found (remove_subscription calls us xs ts ops w k) k)
  removed_lem w k (t, e) = let (x, q) = removed_error w k in absurd (err_ne_ok (sym q ∙ e))

  removed_other_lem :
      (w : Wal) (k j : List ℕ)
      → bytes_eq k j ≡ false
      → found (remove_subscription calls us xs ts ops w k) j ≡ found w j
  unfolding remove_subscription Subs.delete delete_rec
  removed_other_lem w k j other = elim (Bool-cases (ops.reachable w.subscriptions)) [
    | inr down ↦ rw (down, remove_subscription, Subs.delete, delete_rec) refl
    | inl up ↦
        rw (up, remove_subscription, Subs.delete, delete_rec)
          (found_alike w (record w { subscriptions = ops.delete w.subscriptions k }) j
            (laws.reachable_delete w.subscriptions k)
            (get-delete_other ops laws w.subscriptions k j other))
  ]

  pub btc_wallet-Maps : Maps (btc_wallet calls us xs ts ops address unused)
  btc_wallet-Maps = record {
    added = added_lem;
    added_other = added_other_lem;
    removed = removed_lem;
    removed_other = removed_other_lem;
  }
