-- ===== src/Headers/Reads.antt =====
-- electrumx/headers.go: what the client reads of the headers. Hashes go out reversed and in hex.
use go_electrum_client.Prelude.{ℕ, zero, suc, none, some, List, [], ◌∷◌, if◌then◌else◌, reverse}
use go_electrum_client.Prelude.Int.{ℤ, pos, pos_part, ◌+ℤ◌, ◌-ℤ◌, ltb_ℤ, wrap64}
use go_electrum_client.Prelude.Bytes.{encode_to_string}
use go_electrum_client.Prelude.Results.{Result, ok, err, ◌>>=◌}
use go_electrum_client.Headers.{
  WireHash, BlockHeader, ClientBlockHeader, Headers, Error, no_header, before_start, past_tip,
  range_past_tip, deref,
}

-- reverseHash swaps the ends of the array until the indices meet.
unfoldable pub string_rev : WireHash → List ℕ
string_rev wh = encode_to_string (reverse wh)

unfoldable pub client_header : BlockHeader → ClientBlockHeader
client_header b = record {
  hash = string_rev b.hash;
  prev = string_rev b.prev;
  merkle = string_rev b.merkle;
}

unfoldable pub get_block_header : Headers → ℤ → Result Error ClientBlockHeader
get_block_header h height = elim (h.hdrs height) [
  | none ↦ err (no_header height)
  | some b ↦ ok (client_header b)
]

-- The loop over the `n` heights from `i` on.
unfoldable pub collect : Headers → ℤ → ℕ → Result Error (List ClientBlockHeader)
collect h i zero = ok []
collect h i (suc n) = do
  let rest = collect h (i +ℤ pos 1) n
  b ← deref (h.hdrs i)
  bs ← rest
  ok (client_header b ∷ bs)

unfoldable pub get_block_headers : Headers → ℤ → ℤ → Result Error (List ClientBlockHeader)
get_block_headers h start count =
    let range_end = wrap64 (start +ℤ count) in
    if ltb_ℤ start h.start_point
    then err before_start
    else if ltb_ℤ h.tip start
    then err past_tip
    else if ltb_ℤ h.tip range_end
    then err range_past_tip
    else collect h start (pos_part (range_end -ℤ start))
