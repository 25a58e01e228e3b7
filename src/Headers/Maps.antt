-- ===== src/Headers/Maps.antt =====
-- electrumx/headers.go: the maps of decoded headers, the tip, and the verification of the chain.
use go_electrum_client.Prelude.{
  ℕ, zero, suc, Bool, true, ◌||◌, Option, none, some, List, if◌then◌else◌, length,
}
use go_electrum_client.Prelude.Int.{ℤ, pos, pos_part, ◌+ℤ◌, ◌-ℤ◌, ltb_ℤ}
use go_electrum_client.Prelude.Bytes.{bytes_eq}
use go_electrum_client.Prelude.Results.{Result, ok, err, panic, ◌>>=◌}
use go_electrum_client.Headers.{
  WireHash, BlockHeader, Headers, Error, bad_header, verify_failed, deref, store_at, delete_at,
  store_hash,
}
use go_electrum_client.Headers.File.{bytes_to_num_hdrs}

unfoldable pub set_tip : Headers → ℤ → Headers
set_tip h n = record h { tip = n }

-- hdrs[at] = blkHdr; blkHdrs[blkHdr.Hash] = at
unfoldable pub put_hdr : Headers → ℤ → BlockHeader → Headers
put_hdr h at b = record h {
  hdrs = store_at at b h.hdrs;
  blk_hdrs = store_hash b.hash at h.blk_hdrs;
}

-- The loop of store: the headers that are stored before an error stay.
unfoldable pub store_loop : ℕ → Headers → ℤ → List ℕ → Headers × Result Error (Unit {0})
store_loop zero h at rdr = (h, ok tt)
store_loop (suc n) h at rdr = elim (h.deserialize rdr) [
  | none ↦ (h, err bad_header)
  | some (b, rest) ↦ store_loop n (put_hdr h at b) (at +ℤ pos 1) rest
]

unfoldable pub store : Headers → List ℕ → ℤ → Headers × Result Error (Unit {0})
store h b start = elim (bytes_to_num_hdrs h (length b)) [
  | ok n ↦ store_loop n h start b
  | err e ↦ (h, err e)
  | panic ↦ (h, panic)
]

unfoldable pub remove_one_hdr_from_tip : Headers → Headers
remove_one_hdr_from_tip h = record h { hdrs = delete_at h.tip h.hdrs; tip = h.tip -ℤ pos 1 }

unfoldable pub get_client_tip : Headers → ℤ
get_client_tip h = if h.recovery then h.recovery_tip else h.tip

unfoldable pub get_tip_hash : Headers → Result Error WireHash
get_tip_hash h = do b ← deref (h.hdrs h.tip); ok b.hash

unfoldable pub check_can_connect : Headers → BlockHeader → Result Error Bool
unfolding get_tip_hash
check_can_connect h b = do our ← get_tip_hash h; ok (bytes_eq our b.prev)

unfoldable pub store_one_hdr : Headers → BlockHeader → Headers
unfolding put_hdr
store_one_hdr h b = record (put_hdr h (h.tip +ℤ pos 1) b) { tip = h.tip +ℤ pos 1 }

-- The loop of verifyFromTip, with `n` heights above `down_to` left.
unfoldable pub verify_loop : (ℤ → Option BlockHeader) → ℤ → ℕ → Result Error (Unit {0})
verify_loop m down_to zero = ok tt
verify_loop m down_to (suc n) = do
  let height = down_to +ℤ pos (suc n)
  let rest = verify_loop m down_to n
  this ← deref (m height)
  before ← deref (m (height -ℤ pos 1))
  if bytes_eq before.hash this.prev then rest else err (verify_failed height)

unfoldable pub verify_from_tip : Headers → ℤ → Bool → Result Error (Unit {0})
verify_from_tip h depth all =
    let low = h.tip -ℤ depth in
    let down_to = if ltb_ℤ low (pos 0) || all then h.start_point else low in
    verify_loop h.hdrs down_to (pos_part (h.tip -ℤ down_to))

unfoldable pub verify_all : Headers → Result Error (Unit {0})
unfolding verify_from_tip
verify_all h = verify_from_tip h (pos 0) true
