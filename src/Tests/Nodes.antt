-- ===== src/Tests/Nodes.antt =====
-- Headers of two bytes under the theorems of a node that follows its server.
use go_electrum_client.Prelude.{
  ◌*◌, ◌^◌, ◌≡◌, ◌≢◌, refl, true, false, some, List, [], ◌∷◌, ◌++◌, length, drop, arith,
}
use go_electrum_client.Prelude.Int.{pos, ◌+ℤ◌, ◌-ℤ◌, wrap64}
use go_electrum_client.Prelude.Bytes.{
  decode_string, hex_value, encode_to_string, hex_digit, bytes_eq,
}
use go_electrum_client.Prelude.Results.{ok}
use go_electrum_client.Headers.{Headers, new_headers, store_at}
use go_electrum_client.Headers.File.{
  bytes_to_num_hdrs, truncate_headers_file, append_headers_file, read_all_bytes_from_file,
  stat_file_size, cut_length,
}
use go_electrum_client.Headers.Maps.{
  get_client_tip, store_one_hdr, store, store_loop, put_hdr, set_tip, verify_all, verify_from_tip,
  verify_loop,
}
use go_electrum_client.Headers.Chain.{Entry, Represents}
use go_electrum_client.NodeHeaders.{
  finish_recovery, Node, rewind, convert_string_hdr, connect_tip, reorg_recovery, remove_hdrs,
}
use go_electrum_client.NodeHeaders.Queue.{
  Queued, header_queue, sync_headers_onto_our_tip, node_block_headers, is_good_chunk, has_length,
  times,
}
use go_electrum_client.NodeHeaders.Recovery.{Rewound, reorg_recovery-Rewound}
use go_electrum_client.NodeHeaders.Connect.{Connects, connect_tip-Connects}
use go_electrum_client.NodeHeaders.Updates.{Updates, sync_headers_onto_our_tip-Updates}
use go_electrum_client.NodeHeaders.Moves.{Follows, header_queue-Follows}
use go_electrum_client.NodeHeaders.Progress.{connect_tip-connects, connect_tip-recovers}
use go_electrum_client.NodeHeaders.Sync.{
  synced_up, gather_answer, gather_round, gather, verify_sync, store_sync, finish_sync,
  sync_network_headers,
}
use go_electrum_client.NodeHeaders.Sync.Verified.{sync_network_headers-Represents}
use go_electrum_client.Tests.{
  two_bytes, two_bytes-TakesSize, raw_of, header, entry, chain, headers_of-Represents, good_disk,
  text, server, node_of,
}

abbrev nine : Node
nine = node_of 9

-- A header that does not connect, and then one that connects to the rewound chain.
abbrev fork_queue : List Queued
fork_queue =
    record {
      disk = good_disk;
      server = server;
      result = some (record { height = pos 14; hex = text 20 });
    }
    ∷ record {
      disk = good_disk;
      server = server;
      result = some (record { height = pos 6; hex = text 1 });
    }
    ∷ []

header_queue-Follows_example : Follows (chain 9) (header_queue fork_queue nine)
header_queue-Follows_example =
    header_queue-Follows fork_queue nine (chain 9) (headers_of-Represents 9)

connect_tip-Connects_example :
    Connects nine (chain 9) (text 9) (connect_tip good_disk nine (text 9))
connect_tip-Connects_example =
    connect_tip-Connects good_disk nine (chain 9) (text 9) (headers_of-Represents 9)

sync_headers_onto_our_tip-Updates_example :
    Updates (chain 9) (sync_headers_onto_our_tip good_disk server (pos 16) nine)
sync_headers_onto_our_tip-Updates_example =
    sync_headers_onto_our_tip-Updates good_disk server (pos 16) nine (chain 9)
      (headers_of-Represents 9)

nine_reads : convert_string_hdr nine.headers (text 9) ≡ some (header 9, raw_of 9)
unfolding convert_string_hdr decode_string encode_to_string new_headers store_one_hdr hex_value
    hex_digit
nine_reads = refl

nine_reads_fork : convert_string_hdr nine.headers (text 20) ≡ some (header 20, raw_of 20)
unfolding convert_string_hdr decode_string encode_to_string new_headers store_one_hdr hex_value
    hex_digit
nine_reads_fork = refl

fork_ne : (header 20).prev ≢ (header 8).hash
fork_ne e = cc

nine_synced : nine.headers.synced ≡ true
unfolding new_headers store_one_hdr
nine_synced = refl

connect_tip-connects_example :
    (m : Node) × (connect_tip good_disk nine (text 9) ≡ ok (m, true))
    × Represents m.headers (record { raw = raw_of 9; header = header 9 } ∷ chain 9)
    × (m.headers.tip ≡ nine.headers.tip +ℤ pos 1)
    × (m.headers.hdrs m.headers.tip ≡ some (header 9))
    × (m.headers.file ≡ nine.headers.file ++ raw_of 9)
    × (m.headers.recovery ≡ false)
connect_tip-connects_example =
    connect_tip-connects good_disk nine (chain 8) (entry 8) (text 9) (raw_of 9) (header 9)
      (headers_of-Represents 9) nine_reads refl refl refl

connect_tip-recovers_example :
    (m : Node) × (connect_tip good_disk nine (text 20) ≡ ok (m, false))
    × Represents m.headers (drop rewind (chain 9))
    × (get_client_tip m.headers ≡ nine.headers.tip)
connect_tip-recovers_example =
    connect_tip-recovers good_disk nine (chain 8) (entry 8) (text 20) (raw_of 20) (header 20)
      (headers_of-Represents 9) nine_reads_fork fork_ne (omega arith) nine_synced refl refl refl

abbrev rewound : Headers
rewound = record (remove_hdrs rewind (record nine.headers { file = raw_of 0 })) {
  recovery_tip = pos 13;
  recovery = true;
}

nine_rewinds : reorg_recovery good_disk nine.headers ≡ ok rewound
unfolding reorg_recovery finish_recovery truncate_headers_file stat_file_size cut_length
    bytes_to_num_hdrs new_headers store_one_hdr ◌+ℤ◌
nine_rewinds = refl

reorg_recovery-Rewound_example : Rewound rewound (chain 9) (pos 13)
unfolding new_headers store_one_hdr ◌+ℤ◌
reorg_recovery-Rewound_example =
    reorg_recovery-Rewound good_disk nine.headers rewound (chain 9) (headers_of-Represents 9)
      nine_rewinds

-- A file of one header, and a server that has one more.
abbrev unsynced : Node
unsynced = record {
  headers = new_headers 2 (raw_of 0) (pos 5) two_bytes;
  cost = pos 0;
  notified = [];
  canceled = false;
}

abbrev after_sync : Node
after_sync = (sync_network_headers good_disk server [] unsynced).0

sync_runs : sync_network_headers good_disk server [] unsynced ≡ (after_sync, ok synced_up)
unfolding sync_network_headers gather gather_round gather_answer node_block_headers
    read_all_bytes_from_file bytes_to_num_hdrs new_headers decode_string encode_to_string hex_value
    hex_digit append_headers_file finish_sync store_sync store store_loop put_hdr verify_sync
    verify_all verify_loop ◌-ℤ◌ stat_file_size set_tip verify_from_tip store_at bytes_eq wrap64 ◌+ℤ◌
sync_runs = refl

sync_size : length after_sync.headers.file ≡ 2 * after_sync.headers.header_size
unfolding sync_network_headers gather gather_round gather_answer node_block_headers
    read_all_bytes_from_file bytes_to_num_hdrs new_headers decode_string encode_to_string hex_value
    hex_digit append_headers_file finish_sync store_sync store store_loop put_hdr verify_sync
    verify_all verify_loop ◌-ℤ◌ stat_file_size set_tip verify_from_tip store_at bytes_eq wrap64 ◌+ℤ◌
sync_size = refl

sync_tip : after_sync.headers.tip +ℤ pos 1 ≡ after_sync.headers.start_point +ℤ pos 2
unfolding sync_network_headers gather gather_round gather_answer node_block_headers
    read_all_bytes_from_file bytes_to_num_hdrs new_headers decode_string encode_to_string hex_value
    hex_digit append_headers_file finish_sync store_sync store store_loop put_hdr verify_sync
    verify_all verify_loop ◌-ℤ◌ stat_file_size set_tip verify_from_tip store_at bytes_eq wrap64 ◌+ℤ◌
sync_tip = refl

sync_network_headers-Represents_example :
    (c : List Entry) × (length c ≡ 2)
    × Represents after_sync.headers c
    × (after_sync.headers.synced ≡ true)
unfolding new_headers
sync_network_headers-Represents_example =
    sync_network_headers-Represents good_disk server [] unsynced after_sync 2 (omega arith)
      (λ j. refl) two_bytes-TakesSize sync_runs sync_size sync_tip

-- With 160 codes for a header, a count of 2 ^ 59 fits an empty text.
chunk_wraps :
    is_good_chunk 160 (2 ^ 59) (record { count = pos (2 ^ 59); hex_concat = []; max = pos 2016 })
    ≡ true
unfolding is_good_chunk has_length times wrap64
chunk_wraps = refl
