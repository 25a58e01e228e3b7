-- ===== src/NodeHeaders/Sync.antt =====
-- syncNetworkHeaders of electrumx/node_headers.go: the missing headers are gathered into the file,
-- and then the whole file is stored and verified.
pub mod Kept
pub mod Verified
use go_electrum_client.Prelude.{
  ℕ, Bool, true, false, Option, none, some, List, [], ◌∷◌, if◌then◌else◌, length,
}
use go_electrum_client.Prelude.Int.{ℤ, pos, ◌+ℤ◌, ◌-ℤ◌, ltb_ℤ, wrap64}
use go_electrum_client.Prelude.Bytes.{decode_string}
use go_electrum_client.Prelude.Results.{Result, ok, err, panic}
use go_electrum_client.Headers.{Headers, Disk, Error, no_answer, bad_hex}
use go_electrum_client.Headers.File.{
  bytes_to_num_hdrs, append_headers_file, read_all_bytes_from_file,
}
use go_electrum_client.Headers.Maps.{store, set_tip, verify_all}
use go_electrum_client.NodeHeaders.{Node, Server, HeadersResult}
use go_electrum_client.NodeHeaders.Queue.{node_block_headers}

-- What ends a wait of the gathering loop: the context, or its timer of a second.
pub data Wait : Type 0 where
  canceled elapsed : Wait

-- Gathering ends with a tip, or the context ended it, or the next wait has not ended.
pub data Gathered : Type 0 where
  gathered : ℤ → Gathered
  stopped waiting : Gathered

-- How the whole function returned without an error, if it did.
pub data SyncEnd : Type 0 where
  synced_up not_synced still_waiting : SyncEnd

abbrev pub block_count : ℕ
block_count = 2016

-- An error in the first round calls log.Fatal, which ends the process.
abbrev pub fatal_if : {A : Type 0} → Bool → Error → Result Error A
fatal_if true e = panic
fatal_if false e = err e

-- The answer to one request: the new tip, and whether gathering is done.
unfoldable pub gather_answer :
    Disk → Bool → HeadersResult → ℤ → Node → Node × Result Error (ℤ × Bool)
gather_answer d first r maybe_tip n =
    let is_done = ltb_ℤ r.count (pos block_count) in
    if ltb_ℤ (pos 0) r.count
    then elim (decode_string r.hex_concat) [
      | none ↦ (n, fatal_if first bad_hex)
      | some raw ↦ elim (append_headers_file d n.headers raw) [
        | ok (h, _) ↦ (record n { headers = h }, ok (wrap64 (maybe_tip +ℤ r.count), is_done))
        | err e ↦ (n, fatal_if first e)
        | panic ↦ (n, panic)
      ]
    ]
    else (n, ok (maybe_tip, is_done))

unfoldable pub gather_round : Disk → Server → Bool → ℤ → ℤ → Node → Node × Result Error (ℤ × Bool)
gather_round d v first start maybe_tip n =
    let (asked, answer) = node_block_headers v n start block_count in
    elim answer [ none ↦ (asked, err no_answer) | some r ↦ gather_answer d first r maybe_tip asked ]

-- doneGathering ends the rounds.
abbrev pub after_round :
    Node × Result Error (ℤ × Bool)
    → (ℤ → Node → Node × Result Error Gathered)
    → Node × Result Error Gathered
after_round (m, ok (tip, true)) next = (m, ok (gathered tip))
after_round (m, ok (tip, false)) next = next tip m
after_round (m, err e) next = (m, err e)
after_round (m, panic) next = (m, panic)

-- The loop, over the waits that end one after another.
unfoldable pub gather_loop : Disk → Server → List Wait → ℤ → ℤ → Node → Node × Result Error Gathered
gather_loop d v [] start maybe_tip n = (n, ok waiting)
gather_loop d v (canceled ∷ ws) start maybe_tip n = (n, ok stopped)
gather_loop d v (elapsed ∷ ws) start maybe_tip n =
    let next = start +ℤ pos block_count in
    after_round (gather_round d v false next maybe_tip n) (gather_loop d v ws next)

-- The first round, and then the loop.
unfoldable pub gather : Disk → Server → List Wait → ℕ → Node → Node × Result Error Gathered
gather d v ws num n =
    let start = n.headers.start_point +ℤ pos num in
    after_round (gather_round d v true start (start -ℤ pos 1) n) (gather_loop d v ws start)

-- The stored headers, with the gathered tip, are verified and then marked as synced.
unfoldable pub verify_sync : ℤ → Headers → Headers × Result Error SyncEnd
verify_sync maybe_tip h =
    let g = set_tip h maybe_tip in
    elim (verify_all g) [
      | ok _ ↦ (record g { synced = true }, ok synced_up)
      | err e ↦ (g, err e)
      | panic ↦ (g, panic)
    ]

unfoldable pub store_sync : ℤ → Headers × Result Error (Unit {0}) → Headers × Result Error SyncEnd
store_sync maybe_tip (h, ok _) = verify_sync maybe_tip h
store_sync maybe_tip (h, err e) = (h, err e)
store_sync maybe_tip (h, panic) = (h, panic)

unfoldable pub finish_sync : Disk → ℤ → Headers → Headers × Result Error SyncEnd
finish_sync d maybe_tip h = elim (read_all_bytes_from_file d h) [
  | ok b ↦ store_sync maybe_tip (store h b h.start_point)
  | err e ↦ (h, err e)
  | panic ↦ (h, panic)
]

abbrev pub after_gather : Disk → Node × Result Error Gathered → Node × Result Error SyncEnd
after_gather d (n, ok (gathered tip)) =
    let (h, end) = finish_sync d tip n.headers in (record n { headers = h }, end)
after_gather d (n, ok stopped) = (n, ok not_synced)
after_gather d (n, ok waiting) = (n, ok still_waiting)
after_gather d (n, err e) = (n, err e)
after_gather d (n, panic) = (n, panic)

unfoldable pub sync_network_headers : Disk → Server → List Wait → Node → Node × Result Error SyncEnd
sync_network_headers d v ws n = elim (read_all_bytes_from_file d n.headers) [
  | ok b ↦ elim (bytes_to_num_hdrs n.headers (length b)) [
    | ok num ↦ after_gather d (gather d v ws num n)
    | err e ↦ (n, err e)
    | panic ↦ (n, panic)
  ]
  | err e ↦ (n, err e)
  | panic ↦ (n, panic)
]
