-- ===== src/Client/Rescan/Tried.antt =====
-- What a round of RescanWallet for one key does, where the node answers alike for the time of the
-- scan and the wallet keeps what it is given.
use go_electrum_client.Prelude.{
  some_injective, ℕ, ◌+◌, ◌≤◌, ◌<◌, ◌≡◌, refl, sym, subst, ap, ◌∙◌, ◌⊎◌, inl, inr, Bool, true,
  false, ◌||◌, Option, none, some, List, [], ◌∷◌, if◌then◌else◌, Option-cases,
}
use go_electrum_client.Prelude.Results.{ok}
use go_electrum_client.Datastore.{Subscription}
use go_electrum_client.Keys.{KeyChange, internal, external}
use go_electrum_client.KeyManager.{gap_limit}
use go_electrum_client.Client.{
  ElectrumWallet, ElectrumX, Scripts, History, address_to_electrum_scripthash,
}
use go_electrum_client.Client.Subscribed.{IsSubscribed, Maps, kept_under}
use go_electrum_client.Client.Rescan.{Scan, found_sub, add_found, on_answer, rescan_key}

abbrev pub is_history : Option (List History) → Bool
is_history none = false
is_history (some []) = false
is_history (some (_ ∷ _)) = true

module _ {A W N : Type 0} (wallets : ElectrumWallet A W) (nodes : ElectrumX N)
    (scripts : Scripts A) where
  -- The addresses and scripts of the keys, and the script hashes with a history.
  pub record Steady (address : KeyChange → ℕ → Option A) (script : A → Option (List ℕ))
      (known : List ℕ → Bool) : Type 0 where
    pub get_address : (w : W) (p : KeyChange) (i : ℕ) → wallets.get_address w p i ≡ address p i
    pub address_to_script : (w : W) (a : A) → wallets.address_to_script w a ≡ script a
    pub get_history : (n : N) (h : List ℕ) → is_history (nodes.get_history n h).1 ≡ known h
    pub added : W → Subscription → W
    pub add_ok : (w : W) (s : Subscription) → wallets.add_subscription w s ≡ ok (added w s)
    pub maps : Maps wallets

  module _ (address : KeyChange → ℕ → Option A) (script : A → Option (List ℕ))
      (known : List ℕ → Bool) (steady : Steady address script known) where
    abbrev pub S : Type 0
    S = Scan N W

    unfoldable pub has_history : KeyChange → ℕ → Bool
    has_history p i = elim (address p i) [
      | none ↦ false
      | some a ↦ elim (address_to_electrum_scripthash scripts a) [ none ↦ false | some h ↦ known h ]
    ]

    unfoldable pub any_history : ℕ → Bool
    any_history i = has_history external i || has_history internal i

    -- Every index below `i` is either one of the first or not far above one with a history.
    abbrev pub Dense : ℕ → Type 0
    Dense i =
        (k : ℕ)
        → k < i
        → (k ≤ gap_limit) ⊎ ((j : ℕ) × (any_history j ≡ true) × (j ≤ k) × (k ≤ j + gap_limit))

    abbrev pub Holds : List ℕ → S → Type 0
    Holds k s = IsSubscribed (wallets.get_subscription s.wallet k)

    abbrev sub : A → List ℕ → List ℕ → Subscription
    sub = found_sub wallets nodes scripts

    abbrev pub key : ℕ → KeyChange → S → S
    key = rescan_key wallets nodes scripts

    -- What one key does to the scan: nothing but a call of the node, or a hit.
    record Hit (i : ℕ) (p : KeyChange) (s t : S) : Type 0 where
      pub a : A
      pub h : List ℕ
      pub node : N
      pub at_key : address p i ≡ some a
      pub hits : has_history p i ≡ true
      pub now :
          t
          ≡ add_found wallets nodes scripts a h (record { node = node; wallet = s.wallet; hit = i })

    record Miss (i : ℕ) (p : KeyChange) (s t : S) : Type 0 where
      pub misses : has_history p i ≡ false
      pub wallet_same : t.wallet ≡ s.wallet
      pub hit_same : t.hit ≡ s.hit

    on_answer-cases :
        (i : ℕ) (p : KeyChange) (a : A) (h : List ℕ) (s : S) (n : N) (o : Option (List History))
        → address p i ≡ some a
        → has_history p i ≡ is_history o
        → Hit i p s (on_answer wallets nodes scripts i a h (record s { node = n }) o)
          ⊎ Miss i p s (on_answer wallets nodes scripts i a h (record s { node = n }) o)
    unfolding on_answer
    on_answer-cases i p a h s n none at_key e =
        inr (record { misses = e; wallet_same = refl; hit_same = refl })
    on_answer-cases i p a h s n (some []) at_key e =
        inr (record { misses = e; wallet_same = refl; hit_same = refl })
    on_answer-cases i p a h s n (some (x ∷ l)) at_key e =
        inl (record { a = a; h = h; node = n; at_key = at_key; hits = e; now = refl })

    rescan_key-cases :
        (i : ℕ) (p : KeyChange) (s : S) → Hit i p s (key i p s) ⊎ Miss i p s (key i p s)
    unfolding rescan_key has_history
    rescan_key-cases i p s = elim (Option-cases (address p i)) [
      | inl e ↦
          rw (steady.get_address s.wallet p i, e, rescan_key)
            (inr
              (record { misses = rw (e, has_history) refl; wallet_same = refl; hit_same = refl }))
      | inr (a, e) ↦ elim (Option-cases (address_to_electrum_scripthash scripts a)) [
        | inl f ↦
            rw (steady.get_address s.wallet p i, e, f, rescan_key)
              (inr (record {
                misses = rw (e, f, has_history) refl;
                wallet_same = refl;
                hit_same = refl;
              }))
        | inr (h, f) ↦
            rw (steady.get_address s.wallet p i, e, f, rescan_key)
              (on_answer-cases i p a h s (nodes.get_history s.node h).0
                (nodes.get_history s.node h).1 e
                (rw (e, f, has_history) (sym (steady.get_history s.node h))))
      ]
    ]

    add_found-Holds :
        (k : List ℕ) (a : A) (h : List ℕ) (s : S)
        → Holds k s
        → Holds k (add_found wallets nodes scripts a h s)
    unfolding add_found
    add_found-Holds k a h s holds = elim (Option-cases (script a)) [
      | inl e ↦ rw (steady.address_to_script s.wallet a, e, add_found) holds
      | inr (x, e) ↦
          rw (steady.address_to_script s.wallet a, e, steady.add_ok s.wallet (sub a h x), add_found)
            (kept_under wallets steady.maps s.wallet (steady.added s.wallet (sub a h x)) (sub a h x)
              k (steady.add_ok s.wallet (sub a h x)) holds)
    ]

    add_found-found :
        (a : A) (h x : List ℕ) (s : S)
        → script a ≡ some x
        → Holds (scripts.hex x) (add_found wallets nodes scripts a h s)
    unfolding add_found
    add_found-found a h x s e =
        rw (steady.address_to_script s.wallet a, e, steady.add_ok s.wallet (sub a h x), add_found)
          (
            sub a h x,
            steady.maps.added s.wallet (steady.added s.wallet (sub a h x)) (sub a h x)
                (steady.add_ok s.wallet (sub a h x)),
          )

    add_found_hit :
        (a : A) (h : List ℕ) (s : S) → (add_found wallets nodes scripts a h s).hit ≡ s.hit
    unfolding add_found
    add_found_hit a h s = elim (Option-cases (script a)) [
      | inl e ↦ rw (steady.address_to_script s.wallet a, e, add_found) refl
      | inr (x, e) ↦
          rw (steady.address_to_script s.wallet a, e, steady.add_ok s.wallet (sub a h x), add_found)
            refl
    ]

    pub rescan_key-Holds :
        (k : List ℕ) (i : ℕ) (p : KeyChange) (s : S) → Holds k s → Holds k (key i p s)
    rescan_key-Holds k i p s holds = elim (rescan_key-cases i p s) [
      | inl r ↦
          subst (Holds k) (sym r.now)
            (add_found-Holds k r.a r.h (record { node = r.node; wallet = s.wallet; hit = i }) holds)
      | inr r ↦ subst (λ w. IsSubscribed (wallets.get_subscription w k)) (sym r.wallet_same) holds
    ]

    pub rescan_key_hit :
        (i : ℕ) (p : KeyChange) (s : S) → (key i p s).hit ≡ (if has_history p i then i else s.hit)
    rescan_key_hit i p s = elim (rescan_key-cases i p s) [
      | inl r ↦ rw r.hits (
          ap (λ (t : S). t.hit) r.now
          ∙ add_found_hit r.a r.h (record { node = r.node; wallet = s.wallet; hit = i }))
      | inr r ↦ rw r.misses r.hit_same
    ]

    pub rescan_key-found :
        (i : ℕ) (p : KeyChange) (s : S) (a : A) (x : List ℕ)
        → address p i ≡ some a
        → script a ≡ some x
        → has_history p i ≡ true
        → Holds (scripts.hex x) (key i p s)
    rescan_key-found i p s a x e f has = elim (rescan_key-cases i p s) [
      | inl r ↦ subst (Holds (scripts.hex x)) (sym r.now) (
          add_found-found r.a r.h x (record { node = r.node; wallet = s.wallet; hit = i })
            (ap script (some_injective (sym r.at_key ∙ e)) ∙ f))
      | inr r ↦ absurd (cc (has, r.misses))
    ]
