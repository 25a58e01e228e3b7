-- ===== src/Client/Rescan/Found.antt =====
-- What RescanWallet finds, where the node answers alike for the time of the scan and the wallet
-- keeps what it is given.
use go_electrum_client.Prelude.{
  ℕ, zero, suc, ◌+◌, ◌≤◌, ◌<◌, ◌≡◌, refl, sym, ap, ◌∙◌, ◌⊎◌, inl, inr, Bool, true, false, Option,
  none, some, List, ltb, if◌then◌else◌, arith, Bool-cases,
}
use go_electrum_client.Keys.{KeyChange, internal, external}
use go_electrum_client.KeyManager.{gap_limit}
use go_electrum_client.Client.{ElectrumWallet, ElectrumX, Scripts, Client}
use go_electrum_client.Client.Subscribed.{IsSubscribed}
use go_electrum_client.Client.Rescan.{
  Scan, highest_key_index, rescan_key, rescan_index, rescan_loop, rescan_wallet,
}
use go_electrum_client.Client.Rescan.Tried.{
  Steady, has_history, any_history, Dense, Holds, rescan_key-Holds, rescan_key_hit,
  rescan_key-found,
}

module _ {A W N : Type 0} (wallets : ElectrumWallet A W) (nodes : ElectrumX N) (scripts : Scripts A)
    (address : KeyChange → ℕ → Option A) (script : A → Option (List ℕ)) (known : List ℕ → Bool)
    (steady : Steady wallets nodes scripts address script known) where
  abbrev any : ℕ → Bool
  any = any_history wallets nodes scripts address script known steady

  abbrev Under : List ℕ → Scan N W → Type 0
  Under = Holds wallets nodes scripts address script known steady

  abbrev index : ℕ → Scan N W → Scan N W
  index = rescan_index wallets nodes scripts

  abbrev loop : ℕ → ℕ → Scan N W → Scan N W
  loop = rescan_loop wallets nodes scripts

  rescan_index-Holds : (k : List ℕ) (i : ℕ) (s : Scan N W) → Under k s → Under k (index i s)
  unfolding rescan_index
  rescan_index-Holds k i s holds =
      rescan_key-Holds wallets nodes scripts address script known steady k i internal
        (rescan_key wallets nodes scripts i external s)
        (rescan_key-Holds wallets nodes scripts address script known steady k i external s holds)

  rescan_index-found :
      (i : ℕ) (p : KeyChange) (s : Scan N W) (a : A) (x : List ℕ)
      → address p i ≡ some a
      → script a ≡ some x
      → has_history wallets nodes scripts address script known steady p i ≡ true
      → Under (scripts.hex x) (index i s)
  unfolding rescan_index
  rescan_index-found i external s a x e f has =
      rescan_key-Holds wallets nodes scripts address script known steady (scripts.hex x) i internal
        (rescan_key wallets nodes scripts i external s)
        (rescan_key-found wallets nodes scripts address script known steady i external s a x e f
          has)
  rescan_index-found i internal s a x e f has =
      rescan_key-found wallets nodes scripts address script known steady i internal
        (rescan_key wallets nodes scripts i external s) a x e f has

  rescan_index_hit : (i : ℕ) (s : Scan N W) → (index i s).hit ≡ (if any i then i else s.hit)
  unfolding rescan_index any_history
  rescan_index_hit i s = ground (
    arith,
    rescan_key_hit wallets nodes scripts address script known steady i internal
        (rescan_key wallets nodes scripts i external s),
    rescan_key_hit wallets nodes scripts address script known steady i external s,
  )

  rescan_loop-Holds : (n : ℕ) (k : List ℕ) (i : ℕ) (s : Scan N W) → Under k s → Under k (loop n i s)
  unfolding rescan_loop
  rescan_loop-Holds zero k i s holds = holds
  rescan_loop-Holds (suc n) k i s holds =
      let here = rescan_index-Holds k i s holds in
      elim (Bool-cases (ltb ((index i s).hit + gap_limit) i)) [
        | inl e ↦ rw e here
        | inr e ↦ rw e (rescan_loop-Holds n k (suc i) (index i s) here)
      ]

  -- The last hit is at least every index below `i` with a history.
  abbrev Past : ℕ → Scan N W → Type 0
  Past i s = (j : ℕ) → any j ≡ true → j < i → j ≤ s.hit

  rescan_index-Past : (i : ℕ) (s : Scan N W) → Past i s → Past (suc i) (index i s)
  rescan_index-Past i s past j has below = elim (Bool-cases (any i)) [
    | inl hits ↦ ground (arith, rescan_index_hit i s)
    | inr not_i ↦ elim (Bool-cases (ltb j i)) [
      | inl less ↦ ground (arith, rescan_index_hit i s, past j has (ground arith))
      | inr above ↦ let same : j ≡ i = ground arith in absurd (cc (has, not_i, ap any same))
    ]
  ]

  -- The scan does not end at an index that is dense.
  goes_on :
      (i : ℕ) (s : Scan N W)
      → Past (suc i) s
      → (i ≤ gap_limit) ⊎ ((j : ℕ) × (any j ≡ true) × (j ≤ i) × (i ≤ j + gap_limit))
      → ltb (s.hit + gap_limit) i ≡ false
  goes_on i s past (inl low) = ground arith
  goes_on i s past (inr (j, has, below, near)) = ground (arith, past j has (omega arith))

  rescan_loop-found :
      (n i d target : ℕ) (p : KeyChange) (s : Scan N W) (a : A) (x : List ℕ)
      → target ≡ i + d
      → d < n
      → Past i s
      → Dense wallets nodes scripts address script known steady target
      → address p target ≡ some a
      → script a ≡ some x
      → has_history wallets nodes scripts address script known steady p target ≡ true
      → Under (scripts.hex x) (loop n i s)
  unfolding rescan_loop
  rescan_loop-found zero i d target p s a x at short past dense e f has = absurd (omega arith)
  rescan_loop-found (suc n) i zero target p s a x at short past dense e f has =
      let same : target ≡ i = omega arith in
      let here : Under (scripts.hex x) (index i s) =
        rescan_index-found i p s a x (ap (address p) (sym same) ∙ e) f
          (ap (has_history wallets nodes scripts address script known steady p) (sym same) ∙ has) in
      elim (Bool-cases (ltb ((index i s).hit + gap_limit) i)) [
        | inl ends ↦ rw ends here
        | inr on ↦ rw on (rescan_loop-Holds n (scripts.hex x) (suc i) (index i s) here)
      ]
  rescan_loop-found (suc n) i (suc d) target p s a x at short past dense e f has =
      let past' = rescan_index-Past i s past in
      rw (goes_on i (index i s) past' (dense i (omega arith))) (
        rescan_loop-found n (suc i) d target p (index i s) a x (omega arith) (omega arith) past'
          dense e f has)

  -- Where the node gives the same answer whenever it is asked for a script hash, and the wallet
  -- takes every subscription, RescanWallet ends with no error, and the wallet has a subscription of
  -- the script of every key with a history whose index is at most the highest one and dense: each
  -- index below it is at most the gap limit, or at most that far above one with a history.
  pub rescan_wallet-found :
      (c : Client N W) (w : W) (n : N) (i : ℕ) (p : KeyChange) (a : A) (x : List ℕ)
      → c.wallet ≡ some w
      → c.x ≡ some n
      → i ≤ highest_key_index
      → Dense wallets nodes scripts address script known steady i
      → address p i ≡ some a
      → script a ≡ some x
      → has_history wallets nodes scripts address script known steady p i ≡ true
      → (v : W) × ((rescan_wallet wallets nodes scripts c).0.wallet ≡ some v)
        × ((rescan_wallet wallets nodes scripts c).1 ≡ none)
        × IsSubscribed (wallets.get_subscription v (scripts.hex x))
  unfolding rescan_wallet
  rescan_wallet-found c w n i p a x here up low dense e f has =
      let start : Scan N W = record { node = n; wallet = w; hit = 0 } in
      (
        (loop 101 0 start).wallet,
        rw (here, up, rescan_wallet) refl,
        rw (here, up, rescan_wallet) refl,
        rescan_loop-found 101 0 i i p start a x (omega arith) (omega arith)
            (λ j has below. absurd (omega arith)) dense e f has,
      )
