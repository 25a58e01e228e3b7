-- ===== src/Tests/Chains.antt =====
-- Headers of two bytes under the theorems of the headers file and its maps.
use go_electrum_client.Prelude.{◌≡◌, ◌↔◌, refl, List, [], ◌∷◌, length, arith}
use go_electrum_client.Prelude.Int.{ℤ, pos, ◌+ℤ◌, ◌≤ℤ◌, ◌<ℤ◌, ◌-ℤ◌, int_laws}
use go_electrum_client.Prelude.Bytes.{bytes_eq}
use go_electrum_client.Prelude.Results.{ok}
use go_electrum_client.Headers.{Headers, new_headers, store_at}
use go_electrum_client.Headers.File.{bytes_to_num_hdrs}
use go_electrum_client.Headers.Maps.{
  set_tip, store, store_loop, put_hdr, store_one_hdr, verify_all, verify_loop, verify_from_tip,
}
use go_electrum_client.Headers.Reads.{get_block_headers}
use go_electrum_client.Headers.Chain.{Entry, Represents}
use go_electrum_client.Headers.Verify.{LinkAt, verify_all_iff}
use go_electrum_client.Headers.Restart.{store-file}
use go_electrum_client.Headers.Answers.{
  Answers, get_block_headers-Answers, get_block_headers_overflow,
}
use go_electrum_client.Headers.Loaded.{load-Represents}
use go_electrum_client.Tests.{
  two_bytes, two_bytes-ReadsOne, two_bytes-TakesSize, chain, headers_of, headers_of-Represents,
}

abbrev three : Headers
three = headers_of 3

verify_all_iff_example :
    (verify_all three ≡ ok tt) ↔ ((j : ℤ) → pos 5 ≤ℤ j → j <ℤ pos 7 → LinkAt three.hdrs j)
unfolding store_one_hdr new_headers ◌+ℤ◌
verify_all_iff_example = verify_all_iff three

store-file_example :
    let (g, result) = store (new_headers 2 three.file (pos 5) two_bytes) three.file (pos 5) in
    (result ≡ ok tt)
    × Represents (set_tip g (pos 7)) (chain 3)
    × ((j : ℤ) → g.hdrs j ≡ three.hdrs j)
unfolding store_one_hdr new_headers ◌+ℤ◌
store-file_example = store-file three (chain 3) (headers_of-Represents 3) two_bytes-ReadsOne

get_block_headers-Answers_example :
    Answers three (pos 5) (pos 2) (get_block_headers three (pos 5) (pos 2))
unfolding ◌+ℤ◌
get_block_headers-Answers_example =
    get_block_headers-Answers three (chain 3) (pos 5) (pos 2) (headers_of-Represents 3).maps
      (omega int_laws)

-- A count at the top of int64.
abbrev top_count : ℤ
top_count = pos (9223372036854775807)

get_block_headers_overflow_example : get_block_headers three (pos 6) top_count ≡ ok []
unfolding store_one_hdr new_headers ◌+ℤ◌
get_block_headers_overflow_example =
    get_block_headers_overflow three (pos 6) top_count (omega int_laws) (omega int_laws)
      (omega int_laws) (omega int_laws) (omega int_laws) (omega int_laws)

abbrev unread : Headers
unread = new_headers 2 (2 ∷ 1 ∷ 3 ∷ 2 ∷ []) (pos 5) two_bytes

unread_count : bytes_to_num_hdrs unread (length unread.file) ≡ ok 2
unfolding bytes_to_num_hdrs new_headers
unread_count = refl

unread_stored :
    store unread unread.file unread.start_point ≡ ((store unread unread.file (pos 5)).0, ok tt)
unfolding store store_loop bytes_to_num_hdrs new_headers put_hdr
unread_stored = refl

unread_verified : verify_all (set_tip (store unread unread.file (pos 5)).0 (pos 6)) ≡ ok tt
unfolding store store_loop bytes_to_num_hdrs new_headers set_tip verify_all verify_from_tip
    verify_loop put_hdr store_at ◌+ℤ◌ ◌-ℤ◌ bytes_eq
unread_verified = refl

load-Represents_example :
    (c : List Entry) × (length c ≡ 2)
    × Represents (set_tip (store unread unread.file (pos 5)).0 (pos 6)) c
unfolding new_headers ◌+ℤ◌
load-Represents_example =
    load-Represents unread (store unread unread.file (pos 5)).0 2 (pos 6) (omega arith) (λ j. refl)
      two_bytes-TakesSize unread_count refl unread_stored unread_verified
