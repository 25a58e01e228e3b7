-- ===== src/NodeHeaders/Sync/Verified.antt =====
-- What syncNetworkHeaders of electrumx/node_headers.go has established when it ends well.
use go_electrum_client.Prelude.{
  ℕ, ◌*◌, ◌<◌, ◌≡◌, refl, sym, ap, subst, ◌∙◌, inl, inr, true, none, List, length, take, take_all,
  arith,
}
use go_electrum_client.Prelude.Int.{ℤ, pos, ◌+ℤ◌}
use go_electrum_client.Prelude.Results.{Result, ok, err, panic, Result-cases}
use go_electrum_client.Headers.{Headers, Disk, Error}
use go_electrum_client.Headers.File.{bytes_to_num_hdrs, read_all_bytes_from_file}
use go_electrum_client.Headers.Maps.{store, set_tip, verify_all}
use go_electrum_client.Headers.Chain.{Entry, Represents, bytes_to_num_hdrs_exact}
use go_electrum_client.Headers.Load.{TakesSize}
use go_electrum_client.Headers.Loaded.{load-Represents}
use go_electrum_client.NodeHeaders.{Node, Server}
use go_electrum_client.NodeHeaders.Sync.{
  Wait, Gathered, gathered, stopped, waiting, synced_up, gather, verify_sync, store_sync,
  finish_sync, after_gather, sync_network_headers,
}
use go_electrum_client.NodeHeaders.Sync.Kept.{gather-OnlyFile, OnlyMaps, store-OnlyMaps}

read_all_bytes_from_file_ok :
    (d : Disk) (h : Headers) (b : List ℕ) → read_all_bytes_from_file d h ≡ ok b → b ≡ h.file
unfolding read_all_bytes_from_file
read_all_bytes_from_file_ok d h b e =
    let whole : take (length h.file) h.file ≡ h.file =
      take_all (length h.file) h.file (omega arith) in
    ground (arith, whole)

verify_sync_ok :
    (t : ℤ) (g h : Headers)
    → verify_sync t g ≡ (h, ok synced_up)
    → (verify_all (set_tip g t) ≡ ok tt) × (h ≡ record (set_tip g t) { synced = true })
unfolding verify_sync
verify_sync_ok t g h e = ground arith

store_sync_ok :
    (t : ℤ) (s : Headers × Result Error (Unit {0})) (h : Headers)
    → store_sync t s ≡ (h, ok synced_up)
    → (g : Headers) × (s ≡ (g, ok tt)) × (verify_sync t g ≡ (h, ok synced_up))
unfolding store_sync
store_sync_ok t (g, ok _) h e = (g, refl, e)
store_sync_ok t (g, err x) h e = cc
store_sync_ok t (g, panic) h e = cc

after_gather_ok :
    (d : Disk) (p : Node × Result Error Gathered) (m : Node)
    → after_gather d p ≡ (m, ok synced_up)
    → (t : ℤ) × (finish_sync d t p.0.headers ≡ (m.headers, ok synced_up))
after_gather_ok d (n, ok (gathered t)) m e = (t, ap (λ q. (q.0.headers, q.1)) e)
after_gather_ok d (n, ok stopped) m e = cc
after_gather_ok d (n, ok waiting) m e = cc
after_gather_ok d (n, err x) m e = cc
after_gather_ok d (n, panic) m e = cc

sync_network_headers_ok :
    (d : Disk) (v : Server) (ws : List Wait) (n m : Node)
    → sync_network_headers d v ws n ≡ (m, ok synced_up)
    → (num : ℕ) × (after_gather d (gather d v ws num n) ≡ (m, ok synced_up))
unfolding sync_network_headers
sync_network_headers_ok d v ws n m e = elim (Result-cases (read_all_bytes_from_file d n.headers)) [
  | inl (b, bytes) ↦ elim (Result-cases (bytes_to_num_hdrs n.headers (length b))) [
    | inl (num, counted) ↦
        let step : sync_network_headers d v ws n ≡ after_gather d (gather d v ws num n) =
          rw (bytes, sync_network_headers, counted) refl in
        (num, sym step ∙ e)
    | inr (inl (x, bad)) ↦ absurd (ground (arith, bytes, bad))
    | inr (inr bad) ↦ absurd (ground (arith, bytes, bad))
  ]
  | inr (inl (x, bad)) ↦ absurd (ground (arith, bad))
  | inr (inr bad) ↦ absurd (ground (arith, bad))
]

finish_sync_ok :
    (d : Disk) (t : ℤ) (h g : Headers)
    → finish_sync d t h ≡ (g, ok synced_up)
    → store_sync t (store h h.file h.start_point) ≡ (g, ok synced_up)
unfolding finish_sync
finish_sync_ok d t h g e = elim (Result-cases (read_all_bytes_from_file d h)) [
  | inl (b, bytes) ↦
      let step : finish_sync d t h ≡ store_sync t (store h b h.start_point) =
        rw (bytes, finish_sync) refl in
      ap (λ l. store_sync t (store h l h.start_point))
        (sym (read_all_bytes_from_file_ok d h b bytes))
      ∙ sym step
      ∙ e
  | inr (inl (x, bad)) ↦ absurd (ground (arith, bad))
  | inr (inr bad) ↦ absurd (ground (arith, bad))
]

-- A finish that ends well, with a tip that belongs to the headers in the file.
finish_sync-Represents :
    (d : Disk) (t : ℤ) (h g : Headers) (num : ℕ)
    → 0 < h.header_size
    → ((j : ℤ) → h.hdrs j ≡ none)
    → TakesSize h.header_size h.deserialize
    → finish_sync d t h ≡ (g, ok synced_up)
    → length g.file ≡ num * g.header_size
    → g.tip +ℤ pos 1 ≡ g.start_point +ℤ pos num
    → (c : List Entry) × (length c ≡ num) × Represents g c × (g.synced ≡ true)
unfolding set_tip
finish_sync-Represents d t h g num sized empty takes run counted at_tip =
    let (s, stored, verifying) =
      store_sync_ok t (store h h.file h.start_point) g (finish_sync_ok d t h g run) in
    let (verified, same) = verify_sync_ok t s g verifying in
    let kept : OnlyMaps h s = store-OnlyMaps h s h.file h.start_point stored in
    let file : g.file ≡ h.file =
      ap (λ (x : Headers). x.file) same ∙ ap (λ (x : Headers). x.file) kept in
    let start : g.start_point ≡ h.start_point =
      ap (λ (x : Headers). x.start_point) same ∙ ap (λ (x : Headers). x.start_point) kept in
    let size : g.header_size ≡ h.header_size =
      ap (λ (x : Headers). x.header_size) same ∙ ap (λ (x : Headers). x.header_size) kept in
    let tip : g.tip ≡ t = ap (λ (x : Headers). x.tip) same in
    let counts : bytes_to_num_hdrs h (length h.file) ≡ ok num =
      bytes_to_num_hdrs_exact h num (length h.file) sized
        (ap length (sym file) ∙ counted ∙ ap (λ j. num * j) size) in
    let (c, len, held) =
      load-Represents h s num t sized empty takes counts
        (ap (λ j. j +ℤ pos 1) (sym tip) ∙ at_tip ∙ ap (λ j. j +ℤ pos num) start) stored verified in
    (
      c,
      len,
      subst (λ g. Represents g c) (sym same)
          (record {
            sized = held.sized;
            maps = record {
              stored = held.maps.stored;
              at_tip = held.maps.at_tip;
              nowhere_else = held.maps.nowhere_else;
            };
            on_disk = held.on_disk;
          }),
      ap (λ (x : Headers). x.synced) same,
    )

-- A synchronisation that ends well, started with empty maps and a positive header size, marks the
-- headers as synced, and they represent one linked chain, which is the whole file, if the tip
-- belongs to the number of headers in the file. The server's answers, the waits and the disk are
-- arbitrary; the deserializer takes one header at a time.
pub sync_network_headers-Represents :
    (d : Disk) (v : Server) (ws : List Wait) (n m : Node) (num : ℕ)
    → 0 < n.headers.header_size
    → ((j : ℤ) → n.headers.hdrs j ≡ none)
    → TakesSize n.headers.header_size n.headers.deserialize
    → sync_network_headers d v ws n ≡ (m, ok synced_up)
    → length m.headers.file ≡ num * m.headers.header_size
    → m.headers.tip +ℤ pos 1 ≡ m.headers.start_point +ℤ pos num
    → (c : List Entry) × (length c ≡ num) × Represents m.headers c × (m.headers.synced ≡ true)
sync_network_headers-Represents d v ws n m num sized empty takes run counted at_tip =
    let (had, gathering) = sync_network_headers_ok d v ws n m run in
    let read : Node = (gather d v ws had n).0 in
    let (t, finishing) = after_gather_ok d (gather d v ws had n) m gathering in
    let same : record n.headers { file = read.headers.file } ≡ read.headers =
      sym (gather-OnlyFile d v ws had n) in
    finish_sync-Represents d t read.headers m.headers num
      (subst (λ (h : Headers). 0 < h.header_size) same sized)
      (subst (λ (h : Headers). (j : ℤ) → h.hdrs j ≡ none) same empty)
      (subst (λ (h : Headers). TakesSize h.header_size h.deserialize) same takes) finishing counted
      at_tip
