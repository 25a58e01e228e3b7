-- ===== src/Headers/File.antt =====
-- electrumx/headers.go: the headers file.
use go_electrum_client.Prelude.{
  ℕ, ◌-◌, ◌*◌, ◌/◌, ◌%◌, not, List, ◌++◌, ltb, ◌==◌, if◌then◌else◌, length, take,
}
use go_electrum_client.Prelude.Int.{ℤ, pos, pos_part, leb_ℤ}
use go_electrum_client.Prelude.Results.{Result, ok, err, panic, ◌>>=◌, ◌>>◌}
use go_electrum_client.Headers.{
  Headers, Disk, Error, open_failed, stat_failed, read_failed, write_failed, truncate_failed,
  still_syncing, not_positive, corrupt_file, bad_length, check,
}

unfoldable pub bytes_to_num_hdrs : Headers → ℕ → Result Error ℕ
bytes_to_num_hdrs h n =
    if n == 0
    then ok 0
    else if h.header_size == 0
    then panic
    else if n % h.header_size == 0
    then ok (n / h.header_size)
    else err bad_length

unfoldable pub stat_file_size : Disk → Headers → Result Error ℕ
stat_file_size d h = do check d.can_stat stat_failed; ok (length h.file)

unfoldable pub append_headers_file : Disk → Headers → List ℕ → Result Error (Headers × ℕ)
append_headers_file d h raw = do
  n ← bytes_to_num_hdrs h (length raw)
  check d.can_open open_failed
  check d.can_write write_failed
  ok (record h { file = h.file ++ raw }, n)

-- `n, _ := h.bytesToNumHdrs(size)`
num_or_zero : Result Error ℕ → Result Error ℕ
num_or_zero (ok n) = ok n
num_or_zero (err e) = ok 0
num_or_zero panic = panic

-- The new length is size - numHeaders * headerSize, and zero where that is negative.
unfoldable pub cut_length : Headers → ℤ → ℕ
cut_length h num =
    let size = length h.file in
    let cut = pos_part num * h.header_size in if ltb size cut then 0 else size - cut

shorten_file : Disk → Headers → ℤ → Result Error (Headers × ℕ)
unfolding num_or_zero stat_file_size
shorten_file d h num = do
  check d.can_truncate truncate_failed
  let h' = record h { file = take (cut_length h num) h.file }
  check d.can_stat_again stat_failed
  n ← num_or_zero (bytes_to_num_hdrs h' (length h'.file))
  ok (h', n)

-- A remainder by a header size of zero panics.
unfoldable pub truncate_headers_file : Disk → Headers → ℤ → Result Error (Headers × ℕ)
unfolding shorten_file stat_file_size
truncate_headers_file d h num =
    if not h.synced then err still_syncing else if leb_ℤ num (pos 0) then err not_positive else do
      size ← stat_file_size d h
      if h.header_size == 0
          then panic
          else if size % h.header_size == 0
          then shorten_file d h num
          else err corrupt_file

unfoldable pub read_all_bytes_from_file : Disk → Headers → Result Error (List ℕ)
unfolding stat_file_size
read_all_bytes_from_file d h = do
  check d.can_open open_failed
  size ← stat_file_size d h
  check d.can_read read_failed
  ok (take size h.file)
