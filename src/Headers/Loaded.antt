-- ===== src/Headers/Loaded.antt =====
-- verifyAll of electrumx/headers.go after a successful store: the file, the map and the tip then
-- represent one chain.
use go_electrum_client.Prelude.{
  ℕ, suc, ◌*◌, ◌/◌, ◌%◌, ◌<◌, ◌≡◌, refl, sym, ap, subst, ◌∙◌, ◌⊎◌, inl, inr, Option, none, some,
  List, [], ◌∷◌, arith, length,
}
use native.Mathlib.Nat.{div-add-mod'}
use go_electrum_client.Prelude.Int.{ℤ, pos, ◌+ℤ◌, int_laws, parts}
use go_electrum_client.Prelude.Results.{
  ok, err, panic, Result-cases, err_ne_ok, panic_ne_ok, ok_injective,
}
use go_electrum_client.Headers.{BlockHeader, Headers, store_at}
use go_electrum_client.Headers.File.{bytes_to_num_hdrs}
use go_electrum_client.Headers.Maps.{set_tip, store, store_loop, put_hdr, verify_all}
use go_electrum_client.Headers.Chain.{Entry, Stored, InMaps, Represents, store_at_self, store_at_ne}
use go_electrum_client.Headers.Verify.{LinkAt, verify_all_iff}
use go_electrum_client.Headers.Restart.{put_chain, put_chain-maps, put_chain-InMaps}
use go_electrum_client.Headers.Load.{TakesSize, Decoded, Loads, store_loop-Decoded}

abbrev Placed : ℤ → (ℤ → Option BlockHeader) → List Entry → Type 0
Placed at m [] = Unit {0}
Placed at m (e ∷ c) = (m (at +ℤ pos (length c)) ≡ some e.header) × Placed at m c

Placed-agree :
    (at : ℤ) (m m' : ℤ → Option BlockHeader) (c : List Entry)
    → ((i : ℕ) → i < length c → m' (at +ℤ pos i) ≡ m (at +ℤ pos i))
    → Placed at m c
    → Placed at m' c
Placed-agree at m m' [] same p = tt
Placed-agree at m m' (e ∷ c) same p =
    (same (length c) (omega arith) ∙ p.0, Placed-agree at m m' c (λ i lt. same i (omega arith)) p.1)

put_chain-Placed : (h : Headers) (at : ℤ) (c : List Entry) → Placed at (put_chain h at c).hdrs c
unfolding put_chain put_hdr
put_chain-Placed h at [] = tt
put_chain-Placed h at (e ∷ c) =
    let filled : Headers = put_chain h at c in
    (
      store_at_self (at +ℤ pos (length c)) e.header filled.hdrs,
      Placed-agree at filled.hdrs (store_at (at +ℤ pos (length c)) e.header filled.hdrs) c
          (λ i lt.
            store_at_ne (at +ℤ pos (length c)) (at +ℤ pos i) e.header filled.hdrs
              (inl (omega int_laws)))
          (put_chain-Placed h at c),
    )

-- Decoded headers that the map holds, and whose links verifyAll has seen, are a chain.
some_injective {ℓ} : {A : Type ℓ} {a b : A} → some a ≡ some b → a ≡ b
some_injective e = cc

Stored-of_links :
    (h : Headers) (m : ℤ → Option BlockHeader) (c : List Entry)
    → Decoded h.header_size h.deserialize c
    → Placed h.start_point m c
    → ((i : ℕ) → suc i < length c → LinkAt m (h.start_point +ℤ pos i))
    → Stored h m c
Stored-of_links h m [] d p links = tt
Stored-of_links h m (e ∷ []) d p links = (d.0, d.1, p.0, tt, tt)
Stored-of_links h m (e ∷ x ∷ c) d p links =
    let (below, above, at, next, same) = links (length c) (omega arith) in
    let up : h.start_point +ℤ pos (length c) +ℤ pos 1 ≡ h.start_point +ℤ pos (suc (length c)) =
      omega int_laws in
    let top : m (h.start_point +ℤ pos (suc (length c))) ≡ some above = ap m (sym up) ∙ next in
    (
      d.0,
      d.1,
      p.0,
      ap (λ b. b.hash) (some_injective (sym p.1.0 ∙ at))
          ∙ same
          ∙ ap (λ b. b.prev) (some_injective (sym top ∙ p.0)),
      Stored-of_links h m (x ∷ c) d.2 p.1 (λ i lt. links i (omega arith)),
    )

bytes_to_num_hdrs_ok :
    (h : Headers) (k n : ℕ) → bytes_to_num_hdrs h k ≡ ok n → k ≡ n * h.header_size
unfolding bytes_to_num_hdrs
bytes_to_num_hdrs_ok h k n e =
    let counted : ((k ≡ 0) × (n ≡ 0)) ⊎ ((k % h.header_size ≡ 0) × (n ≡ k / h.header_size)) =
      ground arith in
    elim counted [
      | inl (none_left, zero_of_them) ↦ rw (none_left, zero_of_them) (omega arith)
      | inr (whole, quotient) ↦ rw quotient (omega (arith, div-add-mod' k h.header_size))
    ]

-- store gives what its loop gives, for the number of headers in the bytes.
store-Loads :
    (h g : Headers) (b : List ℕ) (start : ℤ)
    → TakesSize h.header_size h.deserialize
    → store h b start ≡ (g, ok tt)
    → (n : ℕ) × (bytes_to_num_hdrs h (length b) ≡ ok n) × Loads h.header_size n h g start b
unfolding store
store-Loads h g b start takes run = elim (Result-cases (bytes_to_num_hdrs h (length b))) [
  | inl (n, e) ↦
      let step : store h b start ≡ store_loop n h start b = rw (e, store) refl in
      (
        n,
        e,
        store_loop-Decoded h.header_size n h g start b takes (bytes_to_num_hdrs_ok h (length b) n e)
            (sym step ∙ run),
      )
  | inr (inl (x, e)) ↦
      let step : store h b start ≡ (h, err x) = rw (e, store) refl in
      absurd (err_ne_ok (ap (λ p. p.1) (sym step ∙ run)))
  | inr (inr e) ↦
      let step : store h b start ≡ (h, panic) = rw (e, store) refl in
      absurd (panic_ne_ok (ap (λ p. p.1) (sym step ∙ run)))
]

-- What a load has checked, in one record: the tip that is set belongs to the bytes stored.
module _ (h : Headers) (c : List Entry) (t : ℤ) where
  abbrev with_maps : Headers
  with_maps = record h {
    hdrs = (put_chain h h.start_point c).hdrs;
    blk_hdrs = (put_chain h h.start_point c).blk_hdrs;
  }

  verified-InMaps :
      ((j : ℤ) → h.hdrs j ≡ none)
      → Decoded h.header_size h.deserialize c
      → t +ℤ pos 1 ≡ h.start_point +ℤ pos (length c)
      → verify_all (record with_maps { tip = t }) ≡ ok tt
      → InMaps (record with_maps { tip = t }) c
  verified-InMaps empty decoded at_tip verified =
      let m = (put_chain h h.start_point c).hdrs in
      let links = (verify_all_iff (record with_maps { tip = t })).0 verified in
      let stored : Stored h m c =
        Stored-of_links h m c decoded (put_chain-Placed h h.start_point c) (λ i lt.
          links (h.start_point +ℤ pos i) (omega int_laws) (omega (int_laws, parts at_tip))) in
      let maps = put_chain-InMaps h h m c t stored refl refl empty at_tip in
      subst (λ (g : Headers). InMaps (record g { tip = t }) c) (put_chain-maps h h.start_point c)
        maps

-- Headers that were stored from the file into empty maps and then verified up to the last header
-- of the file represent one chain, and it has as many headers as the file holds.
pub load-Represents :
    (h g : Headers) (n : ℕ) (t : ℤ)
    → 0 < h.header_size
    → ((j : ℤ) → h.hdrs j ≡ none)
    → TakesSize h.header_size h.deserialize
    → bytes_to_num_hdrs h (length h.file) ≡ ok n
    → t +ℤ pos 1 ≡ h.start_point +ℤ pos n
    → store h h.file h.start_point ≡ (g, ok tt)
    → verify_all (set_tip g t) ≡ ok tt
    → (c : List Entry) × (length c ≡ n) × Represents (set_tip g t) c
unfolding set_tip
load-Represents h g n t size empty takes counted at_tip stored verified =
    let (k, num, loads) = store-Loads h g h.file h.start_point takes stored in
    let (c, len, bytes, decoded, maps) = loads in
    let same : k ≡ n = ok_injective (sym num ∙ counted) in
    let here : g ≡ with_maps h c t = maps ∙ put_chain-maps h h.start_point c in
    let loaded : InMaps (record (with_maps h c t) { tip = t }) c =
      verified-InMaps h c t empty decoded (rw (len, same) at_tip)
        (subst (λ (f : Headers). verify_all (record f { tip = t }) ≡ ok tt) here verified) in
    (
      c,
      len ∙ same,
      subst (λ (f : Headers). Represents (record f { tip = t }) c) (sym here)
          (record { sized = size; maps = loaded; on_disk = bytes }),
    )
