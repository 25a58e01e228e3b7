-- ===== src/NodeHeaders/Queue.antt =====
-- electrumx/node_headers.go and node.go: header notifications, and the requests that they cause.
use go_electrum_client.Prelude.{
  ℕ, zero, suc, ◌*◌, ◌%◌, ◌^◌, Bool, true, false, not, ◌&&◌, Option, none, some, List, [], ◌∷◌, ltb,
  if◌then◌else◌, length, take, drop,
}
use go_electrum_client.Prelude.Int.{
  ℤ, pos, negsuc, pos_part, ◌+ℤ◌, ◌-ℤ◌, ltb_ℤ, leb_ℤ, eqb_ℤ, wrap64,
}
use go_electrum_client.Prelude.Results.{Result, ok, panic, ◌>>=◌}
use go_electrum_client.Session.{bump_cost_string, bump_cost_error}
use go_electrum_client.Headers.{Disk, Error}
use go_electrum_client.NodeHeaders.{Node, Server, HeadersResult, HeadersNotify, rewind, connect_tip}

-- node.go: a request bumps the cost by its answer, or by an error.
unfoldable pub node_block_header : Server → Node → ℤ → Node × Option (List ℕ)
node_block_header v n height =
    if not v.connected then (n, none) else elim (v.block_header (pos_part height % 2 ^ 32)) [
      | none ↦ (record n { cost = bump_cost_error n.cost }, none)
      | some s ↦ (record n { cost = bump_cost_string n.cost s }, some s)
    ]

unfoldable pub node_block_headers : Server → Node → ℤ → ℕ → Node × Option HeadersResult
node_block_headers v n start count =
    if not v.connected then (n, none) else elim (v.block_headers start count) [
      | none ↦ (record n { cost = bump_cost_error n.cost }, none)
      | some r ↦ (record n { cost = bump_cost_string n.cost r.hex_concat }, some r)
    ]

-- The loop of updateFromBlocks with `n` heights left; the result counts the headers connected.
unfoldable pub update_from_blocks : Disk → Server → ℕ → ℤ → Node → Result Error (Node × ℕ)
update_from_blocks d v zero i n = ok (n, 0)
update_from_blocks d v (suc k) i n =
    let (asked, answer) = node_block_header v n i in
    elim answer [
      | none ↦ ok (asked, 0)
      | some s ↦ do
        (m, connected) ← connect_tip d asked s
        let rest = do (m', c) ← update_from_blocks d v k (i +ℤ pos 1) m; ok (m', suc c)
        if connected then rest else ok (m, 0)
    ]

-- The loop of updateFromChunk with `k` headers of `len` codes to come and `s` left of the text; a
-- slice that ends past the text panics.
unfoldable pub connect_chunk : Disk → ℕ → ℕ → List ℕ → Node → Result Error (Node × ℕ)
connect_chunk d len zero s n = ok (n, 0)
connect_chunk d len (suc k) s n = elim (ltb (length s) len) [
  | true ↦ panic
  | false ↦ do
    (m, connected) ← connect_tip d n (take len s)
    let rest = do (m', c) ← connect_chunk d len k (drop len s) m; ok (m', suc c)
    if connected then rest else ok (m, 0)
]

-- A product of int values before it wraps.
unfoldable pub times : ℕ → ℤ → ℤ
times len (pos k) = pos (len * k)
times len (negsuc k) = pos 0 -ℤ pos (len * suc k)

-- len * count, an int, compared with a length.
unfoldable pub has_length : ℕ → ℤ → ℕ → Bool
unfolding times
has_length len count n = eqb_ℤ (wrap64 (times len count)) (pos n)

-- The checks of updateFromChunk on the server's answer to a request for `req` headers.
unfoldable pub is_good_chunk : ℕ → ℕ → HeadersResult → Bool
unfolding has_length
is_good_chunk len req r =
    not (ltb_ℤ r.max (pos 2016))
    && has_length len r.count (length r.hex_concat)
    && eqb_ℤ (pos req) r.count

unfoldable pub update_from_chunk : Disk → Server → ℤ → ℤ → Node → Result Error (Node × ℕ)
update_from_chunk d v from to n =
    let req = pos_part (to -ℤ from +ℤ pos 1) in
    let len = n.headers.header_size * 2 in
    let (asked, answer) = node_block_headers v n from req in
    elim answer [
      | none ↦ ok (asked, 0)
      | some r ↦
          if is_good_chunk len req r
          then connect_chunk d len (pos_part r.count) r.hex_concat asked
          else ok (asked, 0)
    ]

unfoldable pub sync_headers_onto_our_tip : Disk → Server → ℤ → Node → Result Error (Node × ℕ)
sync_headers_onto_our_tip d v server_height n =
    let our_tip = n.headers.tip in
    let from = our_tip +ℤ pos 1 in
    if ltb_ℤ (pos rewind) (server_height -ℤ our_tip)
    then update_from_chunk d v from server_height n
    else update_from_blocks d v (pos_part (server_height -ℤ our_tip)) from n

abbrev pub notify : Node → Node
notify n = record n { notified = n.headers.tip ∷ n.notified }

-- One round of headerQueue.
unfoldable pub handle_header : Disk → Server → HeadersNotify → Node → Result Error Node
handle_header d v r n =
    if ltb_ℤ r.height n.headers.start_point
    then ok (record n { canceled = true })
    else if leb_ℤ r.height n.headers.tip
    then ok n
    else if eqb_ℤ r.height (n.headers.tip +ℤ pos 1)
    then (do
      (m, connected) ← connect_tip d n r.hex
      if connected then ok (notify (record m { cost = bump_cost_string m.cost r.hex })) else ok m)
    else (do
      (m, num) ← sync_headers_onto_our_tip d v r.height n
      if ltb 0 num then ok (notify m) else ok m)

-- An element of the queue, with the disk and the server as they are when it is taken off.
pub record Queued : Type 0 where
  pub disk : Disk
  pub server : Server
  pub result : Option HeadersNotify

-- The queue ends at a nil result or when the node has been canceled.
unfoldable pub header_queue : List Queued → Node → Result Error Node
header_queue [] n = ok n
header_queue (q ∷ rest) n = elim q.result [
  | none ↦ ok n
  | some r ↦ do
    m ← handle_header q.disk q.server r n
    let more = header_queue rest m
    if m.canceled then ok m else more
]
