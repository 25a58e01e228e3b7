-- ===== src/KeyManager/Ahead.antt =====
-- lookahead of wallet/wltbtc/keys.go: the keys that it adds.
use go_electrum_client.Prelude.{ℕ, zero, suc, ◌-◌, ◌≡◌, ◌∙◌, refl, ap, true}
use go_electrum_client.Prelude.Results.{ok}
use go_electrum_client.Keys.{KeyChange, Ops, get_last_key_index, get_lookahead_windows}
use go_electrum_client.Keys.Bucket.{Lawful}
use go_electrum_client.KeyManager.{
  Hd, first_index, add_keys, gap_limit, size_of, other_change, lookahead,
}
use go_electrum_client.KeyManager.Fresh.{Next, Derives, HaveAddresses, get_fresh_key-Next}

module _ {K B : Type 0} (hd : Hd K) (ops : Ops B) where
  -- Keys of one purpose that are added one after another.
  pub data Extends (p : KeyChange) : B → ℕ → B → Type 0 where
    none_added : {b : B} → Extends p b 0 b
    one_added :
        {n : ℕ} {b c d : B} (k : K) → Next hd ops p b c k → Extends p c n d → Extends p b (suc n) d

  -- Wherever the search starts, it ends within the fuel.
  abbrev pub AlwaysDerives : ℕ → Type 0
  AlwaysDerives fuel = (p : KeyChange) (i : ℕ) → Derives hd ops fuel p i

  add_keys-Extends :
      (fuel n : ℕ) (b : B) (p : KeyChange)
      → AlwaysDerives fuel
      → HaveAddresses hd ops
      → Lawful ops
      → ops.reachable b ≡ true
      → (c : B) × (add_keys hd ops fuel n b p ≡ ok c) × Extends p b n c × (ops.reachable c ≡ true)
  unfolding add_keys
  add_keys-Extends fuel zero b p derives addresses laws up = (b, refl, none_added, up)
  add_keys-Extends fuel (suc n) b p derives addresses laws up =
      let (d, k, got, next) =
        get_fresh_key-Next hd ops fuel b p (derives p (first_index (get_last_key_index ops b p)))
          addresses up in
      let still : ops.reachable d ≡ true =
        ap ops.reachable next.recorded ∙ laws.reachable_put b next.address _ ∙ up in
      let (c, run, more, there) = add_keys-Extends fuel n d p derives addresses laws still in
      (c, rw (got, add_keys) run, one_added k next more, there)

  -- Where the search for a key always ends within the fuel, every key has a script address of 20
  -- bytes and the bucket is a keyed store that can be reached, a lookahead ends well. For each
  -- purpose it has then added, unused and each above the indices before, exactly as many keys as
  -- its window of unused keys lacked of the gap limit; which purpose comes first is up to the map.
  pub lookahead-Extends :
      (fuel : ℕ) (first : KeyChange) (b : B)
      → AlwaysDerives fuel
      → HaveAddresses hd ops
      → Lawful ops
      → ops.reachable b ≡ true
      → (c : B) × (m : B) × (lookahead hd ops fuel first b ≡ ok c)
        × Extends first b (gap_limit - size_of (get_lookahead_windows ops b) first) m
        × Extends
            (other_change first)
            m
            (gap_limit - size_of (get_lookahead_windows ops b) (other_change first))
            c
  unfolding lookahead
  lookahead-Extends fuel first b derives addresses laws up =
      let windows = get_lookahead_windows ops b in
      let (m, ran, before, there) =
        add_keys-Extends fuel (gap_limit - size_of windows first) b first derives addresses laws
          up in
      let (c, run, after, still) =
        add_keys-Extends fuel (gap_limit - size_of windows (other_change first)) m
          (other_change first) derives addresses laws there in
      (c, m, rw (ran, lookahead) run, before, after)
