-- ===== src/NodeHeaders/Progress.antt =====
-- connectTip and reorgRecovery of electrumx/node_headers.go get through: when they succeed, and when
-- they do not panic.
use go_electrum_client.Prelude.{
  ℕ, zero, suc, ◌+◌, ◌-◌, ◌*◌, ◌%◌, ◌≤◌, ◌<◌, ◌≡◌, ◌≢◌, refl, sym, ap, ◌∙◌, true, false, some, List,
  ◌∷◌, ◌++◌, arith, length, drop, take, length-take,
}
use native.Mathlib.Nat.{mul-mod_left}
use go_electrum_client.Prelude.Int.{ℤ, pos, ◌+ℤ◌, ◌-ℤ◌, ◌≤ℤ◌, int_laws, parts, ltb_ℤ_of_le}
use go_electrum_client.Prelude.Bytes.{bytes_eq_iff, bytes_eq_of_ne}
use go_electrum_client.Session.{bump_cost_error}
use go_electrum_client.Prelude.Results.{ok}
use go_electrum_client.Headers.{BlockHeader, Headers, Disk}
use go_electrum_client.Headers.File.{truncate_headers_file, cut_length, append_headers_file}
use go_electrum_client.Headers.Maps.{get_client_tip, store_one_hdr}
use go_electrum_client.Headers.Chain.{
  Entry, file_of, Represents, InMaps, length-file_of, bytes_to_num_hdrs_exact,
}
use go_electrum_client.Headers.Answers.{header_in_range}
use go_electrum_client.NodeHeaders.{
  Node, rewind, convert_string_hdr, reorg_recovery, finish_recovery, dump_tip_hashes, connect_tip,
  remove_hdrs, extend_tip, refuse_tip,
}
use go_electrum_client.NodeHeaders.Recovery.{reorg_recovery-Rewound, cut_bound, cut_file}
use go_electrum_client.NodeHeaders.Connect.{
  check_can_connect_lem, convert_string_hdr_lem, extended-Represents, hdrs-tip,
}

rounds : (k m n s : ℕ) → k + n * s ≡ (m + n) * s → k ≡ m * s
rounds k m n s e = omega arith

-- Cutting `n` headers off a synced file of at least `n` leaves the file of the chain without its
-- top `n` headers, and returns the number of headers left.
pub truncate_headers_file_total :
    (d : Disk) (h : Headers) (c : List Entry) (n : ℕ)
    → Represents h c
    → 0 < n
    → n ≤ length c
    → h.synced ≡ true
    → d.can_stat ≡ true
    → d.can_truncate ≡ true
    → d.can_stat_again ≡ true
    → truncate_headers_file d h (pos n) ≡ ok (record h { file = file_of (drop n c) }, length c - n)
unfolding truncate_headers_file
truncate_headers_file_total d h c n r more le synced stat cut again =
    let size : length h.file ≡ length c * h.header_size =
      ap length r.on_disk ∙ length-file_of h h.hdrs c r.maps.stored in
    let left : ℕ = cut_length h (pos n) in
    let bound : left + n * h.header_size ≡ length c * h.header_size = cut_bound h c n r le in
    let kept : length (take left h.file) ≡ left = omega (arith, length-take left h.file) in
    let whole : length h.file % h.header_size ≡ 0 =
      ap (λ j. j % h.header_size) size ∙ mul-mod_left (length c) h.header_size in
    let total : length c ≡ length c - n + n = omega arith in
    let count =
      bytes_to_num_hdrs_exact (record h { file = take left h.file }) (length c - n)
        (length (take left h.file)) r.sized
        (kept
          ∙ rounds left (length c - n) n h.header_size
              (bound ∙ ap (λ j. j * h.header_size) total)) in
    ground (arith, whole, count, cut_file h c n r le)

reorg_recovery_total :
    (d : Disk) (h : Headers) (c : List Entry)
    → Represents h c
    → rewind < length c
    → h.synced ≡ true
    → d.can_stat ≡ true
    → d.can_truncate ≡ true
    → d.can_stat_again ≡ true
    → (h' : Headers) × (reorg_recovery d h ≡ ok h')
unfolding reorg_recovery finish_recovery
reorg_recovery_total d h c r deep synced stat cut again = (
  record (remove_hdrs rewind (record h { file = file_of (drop rewind c) })) {
    recovery_tip = h.tip;
    recovery = true;
  },
  rw (
    ltb_ℤ_of_le h.tip (h.start_point +ℤ pos rewind) (omega (int_laws, parts r.maps.at_tip)),
    truncate_headers_file_total d h c rewind r (omega arith) (omega arith) synced stat cut again,
    finish_recovery,
  ),
)

dump_tip_hashes_total :
    (h : Headers) (c : List Entry) (i : ℤ) (n : ℕ)
    → InMaps h c
    → i ≤ℤ h.tip
    → h.start_point +ℤ pos n ≤ℤ i +ℤ pos 1
    → dump_tip_hashes h i n ≡ ok tt
unfolding dump_tip_hashes
dump_tip_hashes_total h c i zero m le ge = refl
dump_tip_hashes_total h c i (suc n) m le ge =
    let (b, e) = header_in_range h c i m (omega int_laws) le in
    ground (arith, e, dump_tip_hashes_total h c (i -ℤ pos 1) n m (omega int_laws) (omega int_laws))

append_headers_file_one :
    (d : Disk) (h : Headers) (raw : List ℕ)
    → 0 < h.header_size
    → length raw ≡ h.header_size
    → d.can_open ≡ true
    → d.can_write ≡ true
    → append_headers_file d h raw ≡ ok (record h { file = h.file ++ raw }, 1)
unfolding append_headers_file
append_headers_file_one d h raw sized size opened written =
    ground (arith, bytes_to_num_hdrs_exact h 1 (length raw) sized (omega arith))

-- A header that names the hash at the tip connects, where the file can be opened and written: the
-- node then represents the chain with it on top, the tip is one higher and the header is stored at
-- it, the file ends with its bytes, and recovery is over.
pub connect_tip-connects :
    (d : Disk) (n : Node) (c : List Entry) (p : Entry) (s raw : List ℕ) (b : BlockHeader)
    → Represents n.headers (p ∷ c)
    → convert_string_hdr n.headers s ≡ some (b, raw)
    → b.prev ≡ p.header.hash
    → d.can_open ≡ true
    → d.can_write ≡ true
    → (m : Node) × (connect_tip d n s ≡ ok (m, true))
      × Represents m.headers (record { raw = raw; header = b } ∷ p ∷ c)
      × (m.headers.tip ≡ n.headers.tip +ℤ pos 1)
      × (m.headers.hdrs m.headers.tip ≡ some b)
      × (m.headers.file ≡ n.headers.file ++ raw)
      × (m.headers.recovery ≡ false)
unfolding connect_tip extend_tip store_one_hdr
connect_tip-connects d n c p s raw b r e link opened written =
    let (text, size, reads) = convert_string_hdr_lem n.headers s raw b e in
    let entry : Entry = record { raw = raw; header = b } in
    let grown = extended-Represents n.headers (p ∷ c) entry r size reads (sym link) in
    (
      record n {
        headers = record (store_one_hdr (record n.headers { file = n.headers.file ++ raw }) b) {
          recovery = false;
        };
      },
      rw (
        e,
        connect_tip,
        check_can_connect_lem n.headers (p ∷ c) b r.maps,
        (bytes_eq_iff p.header.hash b.prev).1 (sym link),
        extend_tip,
        append_headers_file_one d n.headers raw r.sized size opened written,
      ),
      grown,
      refl,
      hdrs-tip _ (p ∷ c) entry grown.maps,
      refl,
      refl,
    )

-- A header that does not connect is survived on a synced chain of more than eight headers whose
-- file can be measured, cut and measured again: the chain loses its top eight headers, and the
-- client is then given the tip that the node had before this rewind.
pub connect_tip-recovers :
    (d : Disk) (n : Node) (c : List Entry) (p : Entry) (s raw : List ℕ) (b : BlockHeader)
    → Represents n.headers (p ∷ c)
    → convert_string_hdr n.headers s ≡ some (b, raw)
    → b.prev ≢ p.header.hash
    → rewind < length (p ∷ c)
    → n.headers.synced ≡ true
    → d.can_stat ≡ true
    → d.can_truncate ≡ true
    → d.can_stat_again ≡ true
    → (m : Node) × (connect_tip d n s ≡ ok (m, false))
      × Represents m.headers (drop rewind (p ∷ c))
      × (get_client_tip m.headers ≡ n.headers.tip)
unfolding connect_tip refuse_tip get_client_tip
connect_tip-recovers d n c p s raw b r e link deep synced stat cut again =
    let (h, recovered) = reorg_recovery_total d n.headers (p ∷ c) r deep synced stat cut again in
    let after = reorg_recovery-Rewound d n.headers h (p ∷ c) r recovered in
    (
      record n { headers = h; cost = bump_cost_error n.cost },
      rw (
        e,
        connect_tip,
        check_can_connect_lem n.headers (p ∷ c) b r.maps,
        bytes_eq_of_ne p.header.hash b.prev (λ q. link (sym q)),
        refuse_tip,
        dump_tip_hashes_total n.headers (p ∷ c) n.headers.tip 3 r.maps (omega arith)
            (omega (int_laws, parts r.maps.at_tip)),
        recovered,
      ),
      after.represents,
      rw after.recovering after.remembered,
    )
