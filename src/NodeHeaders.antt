-- ===== src/NodeHeaders.antt =====
-- electrumx/node_headers.go: a node keeps the headers up to date from its server's answers.
-- The server is an argument: what it answers to each request; `none` is an error. So is the disk.
pub mod Queue
pub mod Recovery
pub mod Connect
pub mod Updates
pub mod Moves
pub mod Progress
pub mod Sync
use go_electrum_client.Prelude.{
  ℕ, zero, suc, ◌+◌, ◌*◌, ◌%◌, ◌^◌, Bool, true, false, not, ◌&&◌, Option, none, some, List, [], ◌∷◌,
  ◌++◌, ltb, ◌==◌, if◌then◌else◌, length, take, drop,
}
use go_electrum_client.Prelude.Int.{ℤ, pos, negsuc, pos_part, ◌+ℤ◌, ◌-ℤ◌, ltb_ℤ, leb_ℤ, eqb_ℤ}
use go_electrum_client.Prelude.Bytes.{decode_string}
use go_electrum_client.Prelude.Results.{Result, ok, err, panic, ◌>>=◌, ◌>>◌}
use go_electrum_client.Session.{bump_cost_string, bump_cost_error}
use go_electrum_client.Headers.{BlockHeader, Headers, Disk, Error, deref}
use go_electrum_client.Headers.File.{append_headers_file, truncate_headers_file}
use go_electrum_client.Headers.Maps.{remove_one_hdr_from_tip, check_can_connect, store_one_hdr}

abbrev pub rewind : ℕ
rewind = 8

-- getBlockHeadersResult and headersNotifyResult; a text is the list of its codes.
pub record HeadersResult : Type 0 where
  pub count : ℤ
  pub hex_concat : List ℕ
  pub max : ℤ

pub record HeadersNotify : Type 0 where
  pub height : ℤ
  pub hex : List ℕ

pub record Server : Type 0 where
  pub connected : Bool
  pub block_header : ℕ → Option (List ℕ)
  pub block_headers : ℤ → ℕ → Option HeadersResult

-- `notified` holds the tips sent to the client, the last one first; `canceled` is set when the
-- node cancels its server as misbehaving.
pub record Node : Type 0 where
  pub headers : Headers
  pub cost : ℤ
  pub notified : List ℤ
  pub canceled : Bool

-- convertStringHdrToBlkHdr
unfoldable pub convert_string_hdr : Headers → List ℕ → Option (BlockHeader × List ℕ)
convert_string_hdr h s = elim (decode_string s) [
  | none ↦ none
  | some raw ↦
      if length raw == h.header_size
      then elim (h.deserialize raw) [ none ↦ none | some (b, _) ↦ some (b, raw) ]
      else none
]

-- dbgDumpTipHashes reads a field of each of the top headers.
unfoldable pub dump_tip_hashes : Headers → ℤ → ℕ → Result Error (Unit {0})
dump_tip_hashes h i zero = ok tt
dump_tip_hashes h i (suc n) = do
  let rest = dump_tip_hashes h (i -ℤ pos 1) n
  b ← deref (h.hdrs i)
  rest

unfoldable pub remove_hdrs : ℕ → Headers → Headers
remove_hdrs zero h = h
remove_hdrs (suc n) h = remove_hdrs n (remove_one_hdr_from_tip h)

-- After the file has been cut; an error of truncateHeadersFile is a panic here.
unfoldable pub finish_recovery : ℤ → Result Error (Headers × ℕ) → Result Error Headers
finish_recovery tip (ok (h, n)) =
    ok (record (remove_hdrs rewind h) { recovery_tip = tip; recovery = true })
finish_recovery tip (err e) = panic
finish_recovery tip panic = panic

unfoldable pub reorg_recovery : Disk → Headers → Result Error Headers
reorg_recovery d h =
    if ltb_ℤ h.tip (h.start_point +ℤ pos rewind)
    then panic
    else finish_recovery h.tip (truncate_headers_file d h (pos rewind))

-- An incoming header that does not connect.
unfoldable pub refuse_tip : Disk → Node → Result Error (Node × Bool)
refuse_tip d n = do
  dump_tip_hashes n.headers n.headers.tip 3
  h ← reorg_recovery d n.headers
  ok (record n { headers = h; cost = bump_cost_error n.cost }, false)

-- An incoming header that connects.
unfoldable pub extend_tip : Disk → Node → BlockHeader → List ℕ → Result Error (Node × Bool)
extend_tip d n b raw = elim (append_headers_file d n.headers raw) [
  | ok (h, _) ↦ ok (record n { headers = record (store_one_hdr h b) { recovery = false } }, true)
  | err e ↦ ok (n, false)
  | panic ↦ panic
]

unfoldable pub connect_tip : Disk → Node → List ℕ → Result Error (Node × Bool)
connect_tip d n s = elim (convert_string_hdr n.headers s) [
  | none ↦ ok (n, false)
  | some (b, raw) ↦ do
    can ← check_can_connect n.headers b
    if can then extend_tip d n b raw else refuse_tip d n
]
