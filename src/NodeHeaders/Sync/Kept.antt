-- ===== src/NodeHeaders/Sync/Kept.antt =====
-- What gathering and storing, in syncNetworkHeaders of electrumx/node_headers.go, leave alone.
use go_electrum_client.Prelude.{
  ℕ, zero, suc, ◌≡◌, refl, sym, ap, subst, ◌∙◌, inl, inr, Bool, true, false, List, [], ◌∷◌, length,
  arith, Option-cases,
}
use go_electrum_client.Prelude.Int.{ℤ, pos, ◌+ℤ◌, ◌-ℤ◌}
use go_electrum_client.Prelude.Bytes.{decode_string}
use go_electrum_client.Prelude.Results.{Result, ok, err, panic, Result-cases}
use go_electrum_client.Headers.{Headers, Disk, Error}
use go_electrum_client.Headers.File.{bytes_to_num_hdrs, append_headers_file}
use go_electrum_client.Headers.Maps.{store, store_loop, put_hdr}
use go_electrum_client.NodeHeaders.{Node, Server, HeadersResult}
use go_electrum_client.NodeHeaders.Queue.{node_block_headers}
use go_electrum_client.NodeHeaders.Sync.{
  Wait, canceled, elapsed, Gathered, block_count, after_round, gather_answer, gather_round,
  gather_loop, gather,
}

-- Gathering changes the headers file only.
abbrev pub OnlyFile : Headers → Node → Type 0
OnlyFile h m = m.headers ≡ record h { file = m.headers.file }

OnlyFile-trans : (h : Headers) (m k : Node) → OnlyFile h m → OnlyFile m.headers k → OnlyFile h k
OnlyFile-trans h m k e q = q ∙ ap (λ (x : Headers). record x { file = k.headers.file }) e

append_headers_file_only :
    (d : Disk) (h g : Headers) (raw : List ℕ) (k : ℕ)
    → append_headers_file d h raw ≡ ok (g, k)
    → g ≡ record h { file = g.file }
unfolding append_headers_file
append_headers_file_only d h g raw k e = ground arith

gather_answer-OnlyFile :
    (d : Disk) (first : Bool) (r : HeadersResult) (t : ℤ) (n : Node)
    → OnlyFile n.headers (gather_answer d first r t n).0
unfolding gather_answer
gather_answer-OnlyFile d first r t n = elim (Option-cases (decode_string r.hex_concat)) [
  | inl gone ↦ ground arith
  | inr (raw, text) ↦ elim (Result-cases (append_headers_file d n.headers raw)) [
    | inl ((h, k), e) ↦ ground (arith, append_headers_file_only d n.headers h raw k e)
    | inr (inl (x, e)) ↦ ground arith
    | inr (inr e) ↦ ground arith
  ]
]

node_block_headers-headers :
    (v : Server) (n : Node) (start : ℤ) (count : ℕ)
    → (node_block_headers v n start count).0.headers ≡ n.headers
unfolding node_block_headers
node_block_headers-headers v n start count = ground arith

gather_round-OnlyFile :
    (d : Disk) (v : Server) (first : Bool) (start t : ℤ) (n : Node)
    → OnlyFile n.headers (gather_round d v first start t n).0
unfolding gather_round
gather_round-OnlyFile d v first start t n =
    let asked : Node = (node_block_headers v n start block_count).0 in
    let same : asked.headers ≡ n.headers = node_block_headers-headers v n start block_count in
    elim (Option-cases (node_block_headers v n start block_count).1) [
      | inl gone ↦ rw (gone, gather_round) (subst (λ h. OnlyFile h asked) same refl)
      | inr (r, e) ↦
          rw (e, gather_round)
            (subst (λ h. OnlyFile h (gather_answer d first r t asked).0) same
              (gather_answer-OnlyFile d first r t asked))
    ]

-- What follows a round: more rounds if it is not the last one.
after_round-OnlyFile :
    (h : Headers) (p : Node × Result Error (ℤ × Bool))
    (next : ℤ → Node → Node × Result Error Gathered)
    → OnlyFile h p.0
    → ((t : ℤ) (m : Node) → OnlyFile m.headers (next t m).0)
    → OnlyFile h (after_round p next).0
after_round-OnlyFile h (m, ok (t, true)) next e more = e
after_round-OnlyFile h (m, ok (t, false)) next e more = OnlyFile-trans h m (next t m).0 e (more t m)
after_round-OnlyFile h (m, err x) next e more = e
after_round-OnlyFile h (m, panic) next e more = e

gather_loop-OnlyFile :
    (d : Disk) (v : Server) (ws : List Wait) (start t : ℤ) (n : Node)
    → OnlyFile n.headers (gather_loop d v ws start t n).0
unfolding gather_loop
gather_loop-OnlyFile d v [] start t n = refl
gather_loop-OnlyFile d v (canceled ∷ ws) start t n = refl
gather_loop-OnlyFile d v (elapsed ∷ ws) start t n =
    let next : ℤ = start +ℤ pos block_count in
    after_round-OnlyFile n.headers (gather_round d v false next t n) (gather_loop d v ws next)
      (gather_round-OnlyFile d v false next t n) (gather_loop-OnlyFile d v ws next)

pub gather-OnlyFile :
    (d : Disk) (v : Server) (ws : List Wait) (num : ℕ) (n : Node)
    → OnlyFile n.headers (gather d v ws num n).0
unfolding gather
gather-OnlyFile d v ws num n =
    let start : ℤ = n.headers.start_point +ℤ pos num in
    after_round-OnlyFile n.headers (gather_round d v true start (start -ℤ pos 1) n)
      (gather_loop d v ws start) (gather_round-OnlyFile d v true start (start -ℤ pos 1) n)
      (gather_loop-OnlyFile d v ws start)

-- Storing changes the two maps only.
abbrev pub OnlyMaps : Headers → Headers → Type 0
OnlyMaps h g = g ≡ record h { hdrs = g.hdrs; blk_hdrs = g.blk_hdrs }

store_loop-OnlyMaps :
    (n : ℕ) (h : Headers) (at : ℤ) (b : List ℕ) → OnlyMaps h (store_loop n h at b).0
unfolding store_loop put_hdr
store_loop-OnlyMaps zero h at b = refl
store_loop-OnlyMaps (suc n) h at b = elim (Option-cases (h.deserialize b)) [
  | inl gone ↦ rw (gone, store_loop, OnlyMaps) refl
  | inr ((x, rest), e) ↦
      rw (e, store_loop) (store_loop-OnlyMaps n (put_hdr h at x) (at +ℤ pos 1) rest)
]

pub store-OnlyMaps :
    (h g : Headers) (b : List ℕ) (start : ℤ) → store h b start ≡ (g, ok tt) → OnlyMaps h g
unfolding store
store-OnlyMaps h g b start e = elim (Result-cases (bytes_to_num_hdrs h (length b))) [
  | inl (n, counted) ↦
      let step : store h b start ≡ store_loop n h start b = rw (counted, store) refl in
      subst (OnlyMaps h) (ap (λ p. p.0) (sym step ∙ e)) (store_loop-OnlyMaps n h start b)
  | inr (inl (x, bad)) ↦ absurd (ground (arith, bad))
  | inr (inr bad) ↦ absurd (ground (arith, bad))
]
