-- ===== src/Headers/Restart.antt =====
-- store of electrumx/headers.go over the bytes of the headers file: what a restart rebuilds.
use go_electrum_client.Prelude.{
  ℕ, suc, ◌+◌, ◌*◌, ◌<◌, ◌≡◌, refl, ap, ◌∙◌, sym, subst, ◌⊎◌, inl, inr, Option, none, some, List,
  [], ◌∷◌, ◌++◌, arith, Bool-cases, length,
}
use mathlib.Core.List.{append_assoc, append-nil}
use native.Mathlib.Decide.{dec_lt}
use go_electrum_client.Prelude.Int.{
  ℤ, pos, pos_part, ◌+ℤ◌, ◌-ℤ◌, ◌<ℤ◌, ltb_ℤ, not_ltb_ℤ, lt_of_ltb_ℤ, int_laws, parts, distance,
  offset,
}
use go_electrum_client.Prelude.Results.{ok}
use go_electrum_client.Headers.{BlockHeader, Deserialize, Headers, new_headers}
use go_electrum_client.Headers.Maps.{put_hdr, store_loop, store, set_tip}
use go_electrum_client.Headers.Chain.{
  Entry, file_of, header_of, Stored, InMaps, Represents, put_hdr-InMaps, length-file_of,
  bytes_to_num_hdrs_exact,
}

-- A deserializer that reads one header of `size` bytes leaves what follows in the buffer.
pub record ReadsOne (size : ℕ) (d : Deserialize) : Type 0 where
  pub at :
      (raw rest : List ℕ) (b : BlockHeader)
      → length raw ≡ size
      → header_of d raw ≡ some b
      → d (raw ++ rest) ≡ some (b, rest)

unfoldable pub put_chain : Headers → ℤ → List Entry → Headers
put_chain h at [] = h
put_chain h at (e ∷ c) = put_hdr (put_chain h at c) (at +ℤ pos (length c)) e.header

-- Only the two maps change.
pub put_chain-maps :
    (h : Headers) (at : ℤ) (c : List Entry)
    → put_chain h at c
      ≡ record h { hdrs = (put_chain h at c).hdrs; blk_hdrs = (put_chain h at c).blk_hdrs }
unfolding put_chain put_hdr
put_chain-maps h at [] = refl
put_chain-maps h at (e ∷ c) =
    ap (λ (g : Headers). put_hdr g (at +ℤ pos (length c)) e.header) (put_chain-maps h at c)

module _ (g : Headers) (m : ℤ → Option BlockHeader) where
  -- The loop over the oldest entries of the file, and then over what follows them.
  store_loop-file_of :
      (h : Headers) (at : ℤ) (c : List Entry) (n k : ℕ) (rest : List ℕ)
      → ReadsOne g.header_size g.deserialize
      → h.deserialize ≡ g.deserialize
      → Stored g m c
      → k ≡ length c + n
      → store_loop k h at (file_of c ++ rest)
        ≡ store_loop n (put_chain h at c) (at +ℤ pos (length c)) rest
  unfolding store_loop file_of put_chain
  store_loop-file_of h at [] n k rest one same s e =
      let ends : k ≡ n = omega arith in
      let here : at ≡ at +ℤ pos 0 = omega int_laws in
      ap (λ j. store_loop j h at rest) ends ∙ ap (λ j. store_loop n h j rest) here
  store_loop-file_of h at (x ∷ c) n k rest one same s e =
      let filled : Headers = put_chain h at c in
      let reads : filled.deserialize (x.raw ++ rest) ≡ some (x.header, rest) =
        ap (λ (d : Deserialize). d (x.raw ++ rest))
          (ap (λ (f : Headers). f.deserialize) (put_chain-maps h at c) ∙ same)
        ∙ one.at x.raw rest x.header s.0 s.1 in
      let up : at +ℤ pos (length c) +ℤ pos 1 ≡ at +ℤ pos (suc (length c)) = omega int_laws in
      ap (store_loop k h at) (append_assoc (file_of c) x.raw rest)
      ∙ store_loop-file_of h at c (suc n) k (x.raw ++ rest) one same s.4 (omega arith)
      ∙ rw (reads, store_loop)
          (ap (λ j. store_loop n (put_hdr filled (at +ℤ pos (length c)) x.header) j rest) up)

-- The map that the loop builds holds the chain, for the tip that belongs to it.
pub put_chain-InMaps :
    (g h : Headers) (m : ℤ → Option BlockHeader) (c : List Entry) (t : ℤ)
    → Stored g m c
    → h.header_size ≡ g.header_size
    → h.deserialize ≡ g.deserialize
    → ((j : ℤ) → h.hdrs j ≡ none)
    → t +ℤ pos 1 ≡ h.start_point +ℤ pos (length c)
    → InMaps (record (put_chain h h.start_point c) { tip = t }) c
unfolding put_chain put_hdr
put_chain-InMaps g h m [] t s size des empty e = record {
  stored = tt;
  at_tip = e;
  nowhere_else = λ j out. empty j;
}
put_chain-InMaps g h m (x ∷ c) t s size des empty e =
    let filled : Headers = put_chain h h.start_point c in
    let same = put_chain-maps h h.start_point c in
    let last : ℤ = h.start_point +ℤ pos (length c) in
    let before =
      put_chain-InMaps g h m c (t -ℤ pos 1) s.4 size des empty (omega (int_laws, parts e)) in
    let after =
      put_hdr-InMaps (record filled { tip = t -ℤ pos 1 }) c x last (omega (int_laws, parts e))
        (s.0 ∙ sym size ∙ sym (ap (λ (f : Headers). f.header_size) same))
        (ap (λ (f : Headers). header_of f.deserialize x.raw) same
          ∙ ap (λ (d : Deserialize). header_of d x.raw) des
          ∙ s.1)
        s.3 before in
    let top : last ≡ t = omega (int_laws, parts e) in
    subst (λ z. InMaps (record (put_hdr filled last x.header) { tip = z }) (x ∷ c)) top
      (record { stored = after.stored; at_tip = after.at_tip; nowhere_else = after.nowhere_else })

-- Two maps that hold one chain between the same heights are equal at every height.
Stored-unique :
    (h : Headers) (m m' : ℤ → Option BlockHeader) (c : List Entry) (i : ℕ)
    → Stored h m c
    → Stored h m' c
    → i < length c
    → m (h.start_point +ℤ pos i) ≡ m' (h.start_point +ℤ pos i)
Stored-unique h m m' [] i s s' lt = absurd (omega arith)
Stored-unique h m m' (e ∷ c) i s s' lt = elim (dec_lt i (length c)) [
  | yes below ↦ Stored-unique h m m' c i s.4 s'.4 below
  | no top ↦
      let same : length c ≡ i = omega arith in
      subst (λ k. m (h.start_point +ℤ pos k) ≡ m' (h.start_point +ℤ pos k)) same (s.2 ∙ sym s'.2)
]

maps_agree :
    (h : Headers) (c : List Entry) (m : ℤ → Option BlockHeader)
    → InMaps h c
    → Stored h m c
    → ((j : ℤ) → (j <ℤ h.start_point) ⊎ (h.tip <ℤ j) → m j ≡ none)
    → (j : ℤ) → m j ≡ h.hdrs j
maps_agree h c m i s empty j = elim (Bool-cases (ltb_ℤ j h.start_point)) [
  | inl low ↦
      let lt = lt_of_ltb_ℤ j h.start_point low in empty j (inl lt) ∙ sym (i.nowhere_else j (inl lt))
  | inr ge ↦ elim (Bool-cases (ltb_ℤ h.tip j)) [
    | inl high ↦
        let lt = lt_of_ltb_ℤ h.tip j high in empty j (inr lt) ∙ sym (i.nowhere_else j (inr lt))
    | inr le ↦
        let from = not_ltb_ℤ j h.start_point ge in
        let to = not_ltb_ℤ h.tip j le in
        let k : ℕ = pos_part (j -ℤ h.start_point) in
        subst (λ z. m z ≡ h.hdrs z) (offset h.start_point j from)
          (Stored-unique h m h.hdrs c k s i.stored
            (omega (int_laws, distance j h.start_point, parts i.at_tip)))
  ]
]

abbrev restarted : Headers → Headers
restarted h = new_headers h.header_size h.file h.start_point h.deserialize

restart_store :
    (h : Headers) (c : List Entry)
    → Represents h c
    → ReadsOne h.header_size h.deserialize
    → store (restarted h) h.file h.start_point ≡ (put_chain (restarted h) h.start_point c, ok tt)
unfolding store new_headers store_loop
restart_store h c r one =
    let fresh : Headers = restarted h in
    let size : length h.file ≡ length c * h.header_size =
      ap length r.on_disk ∙ length-file_of h h.hdrs c r.maps.stored in
    rw (bytes_to_num_hdrs_exact fresh (length c) (length h.file) r.sized size, store)
      (ap (store_loop (length c) fresh h.start_point) (r.on_disk ∙ sym (append-nil (file_of c)))
        ∙ store_loop-file_of h h.hdrs fresh h.start_point c 0 (length c) [] one refl r.maps.stored
            (omega arith))

-- A restart loses nothing: storing the headers file of a chain into empty maps succeeds, with the
-- tip set it represents the same chain, and the rebuilt map agrees with the old one at every
-- height. The deserializer is assumed to read one header at a time.
pub store-file :
    (h : Headers) (c : List Entry)
    → Represents h c
    → ReadsOne h.header_size h.deserialize
    → let (g, result) =
        store (new_headers h.header_size h.file h.start_point h.deserialize) h.file h.start_point in
      (result ≡ ok tt) × Represents (set_tip g h.tip) c × ((j : ℤ) → g.hdrs j ≡ h.hdrs j)
unfolding set_tip new_headers
store-file h c r one =
    let filled : Headers = put_chain (restarted h) h.start_point c in
    let only_maps : Headers = record (restarted h) {
      hdrs = filled.hdrs;
      blk_hdrs = filled.blk_hdrs;
    } in
    let same : filled ≡ only_maps = put_chain-maps (restarted h) h.start_point c in
    let maps : InMaps (record only_maps { tip = h.tip }) c =
      subst (λ (g : Headers). InMaps (record g { tip = h.tip }) c) same
        (put_chain-InMaps h (restarted h) h.hdrs c h.tip r.maps.stored refl refl (λ j. refl)
          r.maps.at_tip) in
    rw (restart_store h c r one, same)
      (
        refl,
        record {
          sized = r.sized;
          maps = record {
            stored = maps.stored;
            at_tip = maps.at_tip;
            nowhere_else = maps.nowhere_else;
          };
          on_disk = r.on_disk;
        },
        maps_agree h c filled.hdrs r.maps maps.stored maps.nowhere_else,
      )
