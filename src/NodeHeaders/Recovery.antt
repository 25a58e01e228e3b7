-- ===== src/NodeHeaders/Recovery.antt =====
-- reorgRecovery of electrumx/node_headers.go, against the chain that the
-- headers represent.
use go_electrum_client.Prelude.{
  ℕ, zero, suc, ◌+◌, ◌*◌, ◌≤◌, ◌<◌, ◌≡◌, ◌≢◌, refl, sym, ap, subst, ◌∙◌, inl, inr, true, List, [],
  ◌∷◌, arith, Bool-cases, length, drop, take,
}
use go_electrum_client.Prelude.Int.{ℤ, pos, ◌+ℤ◌, int_laws, parts, ltb_ℤ, not_ltb_ℤ}
use go_electrum_client.Prelude.Results.{Result, ok, err, panic, ok_injective}
use go_electrum_client.Headers.{Headers, Disk, Error}
use go_electrum_client.Headers.File.{cut_length, truncate_headers_file}
use go_electrum_client.Headers.Maps.{remove_one_hdr_from_tip}
use go_electrum_client.Headers.Chain.{
  Entry, file_of, InMaps, Represents, remove_one_hdr_from_tip-InMaps, length-file_of, take-file_of,
}
use go_electrum_client.NodeHeaders.{rewind, remove_hdrs, finish_recovery, reorg_recovery}

remove_hdrs-InMaps :
    (n : ℕ) (h : Headers) (c : List Entry)
    → n ≤ length c
    → InMaps h c
    → InMaps (remove_hdrs n h) (drop n c)
unfolding remove_hdrs
remove_hdrs-InMaps zero h c le i = i
remove_hdrs-InMaps (suc n) h [] le i = absurd (omega arith)
remove_hdrs-InMaps (suc n) h (e ∷ c) le i =
    remove_hdrs-InMaps n (remove_one_hdr_from_tip h) c (omega arith)
      (remove_one_hdr_from_tip-InMaps h c e i)

-- What removing headers leaves alone.
remove_hdrs-file : (n : ℕ) (h : Headers) → (remove_hdrs n h).file ≡ h.file
unfolding remove_hdrs remove_one_hdr_from_tip
remove_hdrs-file zero h = refl
remove_hdrs-file (suc n) h = remove_hdrs-file n (remove_one_hdr_from_tip h)

remove_hdrs-header_size : (n : ℕ) (h : Headers) → (remove_hdrs n h).header_size ≡ h.header_size
unfolding remove_hdrs remove_one_hdr_from_tip
remove_hdrs-header_size zero h = refl
remove_hdrs-header_size (suc n) h = remove_hdrs-header_size n (remove_one_hdr_from_tip h)

remove_hdrs-start_point : (n : ℕ) (h : Headers) → (remove_hdrs n h).start_point ≡ h.start_point
unfolding remove_hdrs remove_one_hdr_from_tip
remove_hdrs-start_point zero h = refl
remove_hdrs-start_point (suc n) h = remove_hdrs-start_point n (remove_one_hdr_from_tip h)

pub cut_bound :
    (h : Headers) (c : List Entry) (n : ℕ)
    → Represents h c
    → n ≤ length c
    → cut_length h (pos n) + n * h.header_size ≡ length c * h.header_size
unfolding cut_length
cut_bound h c n r le =
    let size : length h.file ≡ length c * h.header_size =
      ap length r.on_disk ∙ length-file_of h h.hdrs c r.maps.stored in
    let fits : n * h.header_size ≤ length c * h.header_size = grind arith in ground arith

pub cut_file :
    (h : Headers) (c : List Entry) (n : ℕ)
    → Represents h c
    → n ≤ length c
    → take (cut_length h (pos n)) h.file ≡ file_of (drop n c)
cut_file h c n r le =
    ap (take (cut_length h (pos n))) r.on_disk
    ∙ take-file_of h h.hdrs c n (cut_length h (pos n)) r.maps.stored le (cut_bound h c n r le)

-- A cut by `n` headers changes the file only.
truncate_headers_file_lem :
    (d : Disk) (h h' : Headers) (n k : ℕ)
    → truncate_headers_file d h (pos n) ≡ ok (h', k)
    → h' ≡ record h { file = take (cut_length h (pos n)) h.file }
unfolding truncate_headers_file
truncate_headers_file_lem d h h' n k e = ground arith

rewound-Represents :
    (h : Headers) (c : List Entry) (tip : ℤ)
    → 0 < h.header_size
    → InMaps h c
    → rewind ≤ length c
    → h.file ≡ file_of (drop rewind c)
    → Represents
        (record (remove_hdrs rewind h) { recovery_tip = tip; recovery = true })
        (drop rewind c)
rewound-Represents h c tip size i le file =
    let maps = remove_hdrs-InMaps rewind h c le i in
    record {
      sized = rw (remove_hdrs-header_size rewind h) size;
      maps = record {
        stored = maps.stored;
        at_tip = maps.at_tip;
        nowhere_else = maps.nowhere_else;
      };
      on_disk = remove_hdrs-file rewind h ∙ file;
    }

-- The headers after a recovery from tip `tip` on chain `c`.
pub record Rewound (h : Headers) (c : List Entry) (tip : ℤ) : Type 0 where
  pub deep : rewind < length c
  pub represents : Represents h (drop rewind c)
  pub recovering : h.recovery ≡ true
  pub remembered : h.recovery_tip ≡ tip
  pub was_tip : tip +ℤ pos 1 ≡ h.start_point +ℤ pos (length c)

finish_recovery-Rewound :
    (h h' : Headers) (c : List Entry) (t : Result Error (Headers × ℕ))
    → Represents h c
    → rewind < length c
    → ((h2 : Headers) (k : ℕ)
        → t ≡ ok (h2, k)
        → h2 ≡ record h { file = take (cut_length h (pos rewind)) h.file })
    → finish_recovery h.tip t ≡ ok h'
    → Rewound h' c h.tip
unfolding finish_recovery
finish_recovery-Rewound h h' c (ok (h2, k)) r deep cut e =
    let cut_headers : Headers = record h { file = take (cut_length h (pos rewind)) h.file } in
    let rewound : Headers = record (remove_hdrs rewind cut_headers) {
      recovery_tip = h.tip;
      recovery = true;
    } in
    let same_cut : h2 ≡ cut_headers = cut h2 k refl in
    let same : rewound ≡ h' =
      ap (λ (g : Headers). record (remove_hdrs rewind g) { recovery_tip = h.tip; recovery = true })
        (sym same_cut)
      ∙ ok_injective e in
    subst (λ g. Rewound g c h.tip) same
      (record {
        deep = deep;
        represents =
            rewound-Represents cut_headers c h.tip r.sized
              (record {
                stored = r.maps.stored;
                at_tip = r.maps.at_tip;
                nowhere_else = r.maps.nowhere_else;
              })
              (omega arith) (cut_file h c rewind r (omega arith));
        recovering = refl;
        remembered = refl;
        was_tip =
            r.maps.at_tip
            ∙ ap (λ z. z +ℤ pos (length c)) (sym (remove_hdrs-start_point rewind cut_headers));
      })
finish_recovery-Rewound h h' c (err x) r deep cut e = cc
finish_recovery-Rewound h h' c panic r deep cut e = cc

-- A recovery that ends takes exactly the top eight headers off a chain of more than eight, in the
-- file, in the map and in the tip, and remembers the old tip for the client.
pub reorg_recovery-Rewound :
    (d : Disk) (h h' : Headers) (c : List Entry)
    → Represents h c
    → reorg_recovery d h ≡ ok h'
    → Rewound h' c h.tip
unfolding reorg_recovery
reorg_recovery-Rewound d h h' c r e =
    elim (Bool-cases (ltb_ℤ h.tip (h.start_point +ℤ pos rewind))) [
      | inl low ↦ ground arith
      | inr high ↦
          finish_recovery-Rewound h h' c (truncate_headers_file d h (pos rewind)) r
            (omega
              (int_laws, parts r.maps.at_tip, not_ltb_ℤ h.tip (h.start_point +ℤ pos rewind) high))
            (λ h2 k. truncate_headers_file_lem d h h2 rewind k) (rw high at e)
    ]

pub reorg_recovery-ne-err : (d : Disk) (h : Headers) (x : Error) → reorg_recovery d h ≢ err x
unfolding reorg_recovery finish_recovery
reorg_recovery-ne-err d h x = ground arith
