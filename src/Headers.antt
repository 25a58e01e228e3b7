-- ===== src/Headers.antt =====
-- electrumx/headers.go: the block headers of one network, in the headers file and in two maps.
-- The receiver is a record; a method that changes it returns the new record.
-- The disk is an argument: which of the file calls succeed. A write is all or nothing.
-- Heights are int64 values; only a sum with an argument of the client can wrap.
pub mod File
pub mod Maps
pub mod Reads
pub mod Chain
pub mod Verify
pub mod Restart
pub mod Answers
pub mod Load
pub mod Loaded
use go_electrum_client.Prelude.{ℕ, Bool, true, false, Option, none, some, List, if◌then◌else◌}
use go_electrum_client.Prelude.Int.{ℤ, pos, eqb_ℤ}
use go_electrum_client.Prelude.Bytes.{bytes_eq}
use go_electrum_client.Prelude.Results.{Result, ok, err, panic}

-- WireHash is an array of bytes in wire order.
abbrev pub WireHash : Type 0
WireHash = List ℕ

pub record BlockHeader : Type 0 where
  pub hash : WireHash
  pub prev : WireHash
  pub merkle : WireHash

pub record ClientBlockHeader : Type 0 where
  pub hash : List ℕ
  pub prev : List ℕ
  pub merkle : List ℕ

-- The coin's deserializer reads one header off the front of a buffer.
abbrev pub Deserialize : Type 0
Deserialize = List ℕ → Option (BlockHeader × List ℕ)

pub record Headers : Type 0 where
  pub header_size : ℕ
  pub file : List ℕ
  pub start_point : ℤ
  pub deserialize : Deserialize
  pub hdrs : ℤ → Option BlockHeader
  pub blk_hdrs : WireHash → Option ℤ
  pub tip : ℤ
  pub synced : Bool
  pub recovery : Bool
  pub recovery_tip : ℤ

-- Which calls of the operating system on the headers file succeed; `can_stat_again` is the second
-- stat of a truncation.
pub record Disk : Type 0 where
  pub can_open : Bool
  pub can_stat : Bool
  pub can_read : Bool
  pub can_write : Bool
  pub can_truncate : Bool
  pub can_stat_again : Bool

pub data Error : Type 0 where
  open_failed stat_failed read_failed write_failed truncate_failed : Error
  still_syncing not_positive corrupt_file bad_length bad_header : Error
  verify_failed no_header : ℤ → Error
  before_start past_tip range_past_tip : Error
  no_answer bad_hex : Error

abbrev pub check : Bool → Error → Result Error (Unit {0})
check true e = ok tt
check false e = err e

-- A nil *BlockHeader panics where a field of it is read.
abbrev pub deref : Option BlockHeader → Result Error BlockHeader
deref none = panic
deref (some b) = ok b

unfoldable pub new_headers : ℕ → List ℕ → ℤ → Deserialize → Headers
new_headers size file start d = record {
  header_size = size;
  file = file;
  start_point = start;
  deserialize = d;
  hdrs = λ _. none;
  blk_hdrs = λ _. none;
  tip = pos 0;
  synced = false;
  recovery = false;
  recovery_tip = pos 0;
}

-- hdrs[k] = v
unfoldable pub store_at : ℤ → BlockHeader → (ℤ → Option BlockHeader) → ℤ → Option BlockHeader
store_at k v m j = if eqb_ℤ j k then some v else m j

-- delete(hdrs, k)
unfoldable pub delete_at : ℤ → (ℤ → Option BlockHeader) → ℤ → Option BlockHeader
delete_at k m j = if eqb_ℤ j k then none else m j

-- blkHdrs[k] = v
unfoldable pub store_hash : WireHash → ℤ → (WireHash → Option ℤ) → WireHash → Option ℤ
store_hash k v m j = if bytes_eq j k then some v else m j
