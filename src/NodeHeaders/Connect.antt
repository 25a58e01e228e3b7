-- ===== src/NodeHeaders/Connect.antt =====
-- connectTip of electrumx/node_headers.go, against the chain that the
-- headers represent.
use go_electrum_client.Prelude.{
  ℕ, zero, suc, ◌≡◌, ◌≢◌, refl, ap, ◌⊎◌, inl, inr, Bool, true, false, none, some, List, [], ◌∷◌,
  ◌++◌, arith, Bool-cases, Option-cases, length,
}
use go_electrum_client.Prelude.Int.{ℤ, pos, ◌+ℤ◌, ◌-ℤ◌, int_laws, parts}
use go_electrum_client.Prelude.Bytes.{decode_string, bytes_eq, bytes_eq_iff}
use go_electrum_client.Prelude.Results.{Result, ok, err, panic, Result-cases}
use go_electrum_client.Headers.{BlockHeader, Headers, Disk, Error}
use go_electrum_client.Headers.File.{append_headers_file}
use go_electrum_client.Headers.Maps.{check_can_connect, store_one_hdr}
use go_electrum_client.Headers.Chain.{
  Entry, file_of, header_of, Linked, InMaps, Represents, put_hdr-InMaps,
}
use go_electrum_client.NodeHeaders.{
  Node, convert_string_hdr, dump_tip_hashes, reorg_recovery, refuse_tip, extend_tip, connect_tip,
}
use go_electrum_client.NodeHeaders.Recovery.{Rewound, reorg_recovery-Rewound, reorg_recovery-ne-err}

-- What connectTip may do to a node whose headers are chain `c`, when it is given the text `s`.
abbrev pub Connects : Node → List Entry → List ℕ → Result Error (Node × Bool) → Type 0
Connects n c s (ok (m, true)) =
    (e : Entry) × (decode_string s ≡ some e.raw)
    × Represents m.headers (e ∷ c)
    × (m.headers.recovery ≡ false)
Connects n c s (ok (m, false)) = (m ≡ n) ⊎ Rewound m.headers c n.headers.tip
Connects n c s (err e) = ⊥
Connects n c s panic = Unit {0}

append_headers_file_lem :
    (d : Disk) (h h' : Headers) (raw : List ℕ) (k : ℕ)
    → append_headers_file d h raw ≡ ok (h', k)
    → h' ≡ record h { file = h.file ++ raw }
unfolding append_headers_file
append_headers_file_lem d h h' raw k e = ground arith

pub extended-Represents :
    (h : Headers) (c : List Entry) (e : Entry)
    → Represents h c
    → length e.raw ≡ h.header_size
    → header_of h.deserialize e.raw ≡ some e.header
    → Linked e c
    → Represents
        (record (store_one_hdr (record h { file = h.file ++ e.raw }) e.header) { recovery = false })
        (e ∷ c)
unfolding store_one_hdr file_of
extended-Represents h c e r size reads link =
    let maps = put_hdr-InMaps h c e (h.tip +ℤ pos 1) refl size reads link r.maps in
    record {
      sized = r.sized;
      maps = record {
        stored = maps.stored;
        at_tip = maps.at_tip;
        nowhere_else = maps.nowhere_else;
      };
      on_disk = ap (λ f. f ++ e.raw) r.on_disk;
    }

extend_tip-Connects :
    (d : Disk) (n : Node) (c : List Entry) (s : List ℕ) (e : Entry)
    → Represents n.headers c
    → decode_string s ≡ some e.raw
    → length e.raw ≡ n.headers.header_size
    → header_of n.headers.deserialize e.raw ≡ some e.header
    → Linked e c
    → Connects n c s (extend_tip d n e.header e.raw)
unfolding extend_tip
extend_tip-Connects d n c s e r text size reads link =
    elim (Result-cases (append_headers_file d n.headers e.raw)) [
      | inl ((h, k), q) ↦
          rw (q, Connects)
            (
              e,
              text,
              rw (append_headers_file_lem d n.headers h e.raw k q)
                  (extended-Represents n.headers c e r size reads link),
              refl,
            )
      | inr (inl (x, q)) ↦ rw (q, Connects) (inl refl)
      | inr (inr q) ↦ rw (q, Connects) tt
    ]

dump_tip_hashes-ne-err : (h : Headers) (i : ℤ) (n : ℕ) (x : Error) → dump_tip_hashes h i n ≢ err x
unfolding dump_tip_hashes
dump_tip_hashes-ne-err h i zero x = ground arith
dump_tip_hashes-ne-err h i (suc n) x = ground (arith, dump_tip_hashes-ne-err h (i -ℤ pos 1) n x)

refuse_tip-Connects :
    (d : Disk) (n : Node) (c : List Entry) (s : List ℕ)
    → Represents n.headers c
    → Connects n c s (refuse_tip d n)
unfolding refuse_tip
refuse_tip-Connects d n c s r = elim (Result-cases (dump_tip_hashes n.headers n.headers.tip 3)) [
  | inl (u, q) ↦ elim (Result-cases (reorg_recovery d n.headers)) [
    | inl (h, p) ↦ rw (q, p, Connects) (inr (reorg_recovery-Rewound d n.headers h c r p))
    | inr (inl (x, p)) ↦ absurd (reorg_recovery-ne-err d n.headers x p)
    | inr (inr p) ↦ rw (q, p, Connects) tt
  ]
  | inr (inl (x, q)) ↦ absurd (dump_tip_hashes-ne-err n.headers n.headers.tip 3 x q)
  | inr (inr q) ↦ rw (q, Connects) tt
]

pub hdrs-tip :
    (h : Headers) (c : List Entry) (p : Entry) → InMaps h (p ∷ c) → h.hdrs h.tip ≡ some p.header
hdrs-tip h c p i =
    let e : h.start_point +ℤ pos (length c) ≡ h.tip = omega (int_laws, parts i.at_tip) in
    rw e at i.stored.2

hdrs-tip_empty : (h : Headers) → InMaps h [] → h.hdrs h.tip ≡ none
hdrs-tip_empty h i = i.nowhere_else h.tip (omega (int_laws, parts i.at_tip))

-- A header connects exactly if it names the hash at the tip; with no header at the tip it panics.
pub check_can_connect_lem :
    (h : Headers) (c : List Entry) (b : BlockHeader)
    → InMaps h c
    → check_can_connect h b ≡ elim c [ [] ↦ panic | p ∷ _ ↦ ok (bytes_eq p.header.hash b.prev) ]
unfolding check_can_connect
check_can_connect_lem h [] b i = ground (arith, hdrs-tip_empty h i)
check_can_connect_lem h (p ∷ c) b i = ground (arith, hdrs-tip h c p i)

pub convert_string_hdr_lem :
    (h : Headers) (s raw : List ℕ) (b : BlockHeader)
    → convert_string_hdr h s ≡ some (b, raw)
    → (decode_string s ≡ some raw)
      × (length raw ≡ h.header_size)
      × (header_of h.deserialize raw ≡ some b)
unfolding convert_string_hdr
convert_string_hdr_lem h s raw b e = ground arith

connect_tip-Connects_converted :
    (d : Disk) (n : Node) (c : List Entry) (s raw : List ℕ) (b : BlockHeader)
    → Represents n.headers c
    → convert_string_hdr n.headers s ≡ some (b, raw)
    → Connects n c s (connect_tip d n s)
unfolding connect_tip
connect_tip-Connects_converted d n [] s raw b r e =
    rw (e, check_can_connect_lem n.headers [] b r.maps, Connects) tt
connect_tip-Connects_converted d n (p ∷ c) s raw b r e =
    let (text, size, reads) = convert_string_hdr_lem n.headers s raw b e in
    elim (Bool-cases (bytes_eq p.header.hash b.prev)) [
      | inl same ↦
          rw (e, check_can_connect_lem n.headers (p ∷ c) b r.maps, same, Connects)
            (extend_tip-Connects d n (p ∷ c) s (record { raw = raw; header = b }) r text size reads
              ((bytes_eq_iff p.header.hash b.prev).0 same))
      | inr other ↦
          rw (e, check_can_connect_lem n.headers (p ∷ c) b r.maps, other, Connects)
            (refuse_tip-Connects d n (p ∷ c) s r)
    ]

-- Whatever text the server sends, connectTip extends the chain by a header that decodes from the
-- text and names the hash at the tip, or leaves the node alone, or takes the last eight headers
-- off the chain and remembers the tip, unless it panics; it returns no error.
pub connect_tip-Connects :
    (d : Disk) (n : Node) (c : List Entry) (s : List ℕ)
    → Represents n.headers c
    → Connects n c s (connect_tip d n s)
connect_tip-Connects d n c s r = elim (Option-cases (convert_string_hdr n.headers s)) [
  | inl bad ↦ unfold connect_tip in rw (bad, Connects) (inl refl)
  | inr ((b, raw), e) ↦ connect_tip-Connects_converted d n c s raw b r e
]
