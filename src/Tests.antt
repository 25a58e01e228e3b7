-- ===== src/Tests.antt =====
-- Concrete headers of two bytes, a hash and the hash before it, for the tests and the witnesses.
pub mod Chains
pub mod Nodes
pub mod Servers
pub mod Networks
pub mod Fees
pub mod Stores
pub mod Ledgers
pub mod Transactions
pub mod Wallets
pub mod Clients
pub mod Incoming
pub mod Keys
pub mod KeyManagers
use go_electrum_client.Prelude.{
  ℕ, zero, suc, ◌+◌, ◌<◌, ◌≡◌, refl, ap, Bool, true, false, Option, none, some, List, [], ◌∷◌, ◌++◌,
  arith, length,
}
use go_electrum_client.Prelude.Int.{ℤ, pos, ◌+ℤ◌}
use go_electrum_client.Prelude.Bytes.{encode_to_string}
use go_electrum_client.Headers.{BlockHeader, Deserialize, Headers, Disk, new_headers}
use go_electrum_client.Headers.Maps.{store_one_hdr}
use go_electrum_client.Headers.Chain.{Entry, file_of, header_of, Linked, InMaps, Represents}
use go_electrum_client.Headers.Restart.{ReadsOne}
use go_electrum_client.Headers.Load.{TakesSize}
use go_electrum_client.NodeHeaders.{Node, Server}
use go_electrum_client.NodeHeaders.Connect.{extended-Represents}

abbrev pub two_bytes : Deserialize
two_bytes (a ∷ b ∷ rest) = some (record { hash = a ∷ []; prev = b ∷ []; merkle = [] }, rest)
two_bytes _ = none

pub two_bytes-ReadsOne : ReadsOne 2 two_bytes
two_bytes-ReadsOne = record { at = at }
  where
    at :
        (raw rest : List ℕ) (b : BlockHeader)
        → length raw ≡ 2
        → header_of two_bytes raw ≡ some b
        → two_bytes (raw ++ rest) ≡ some (b, rest)
    at [] rest b size e = absurd (omega arith)
    at (x ∷ []) rest b size e = absurd (omega arith)
    at (x ∷ y ∷ []) rest b size e = cc
    at (x ∷ y ∷ z ∷ raw) rest b size e = absurd (omega arith)

pub two_bytes-TakesSize : TakesSize 2 two_bytes
two_bytes-TakesSize = record { split = split }
  where
    split :
        (buf rest : List ℕ) (b : BlockHeader)
        → two_bytes buf ≡ some (b, rest)
        → (raw : List ℕ) × (buf ≡ raw ++ rest)
          × (length raw ≡ 2)
          × (header_of two_bytes raw ≡ some b)
    split [] rest b e = absurd cc
    split (x ∷ []) rest b e = absurd cc
    split (x ∷ y ∷ buf) rest b e = (x ∷ y ∷ [], cc, refl, cc)

abbrev pub raw_of : ℕ → List ℕ
raw_of k = suc k ∷ k ∷ []

abbrev pub header : ℕ → BlockHeader
header k = record { hash = suc k ∷ []; prev = k ∷ []; merkle = [] }

abbrev pub entry : ℕ → Entry
entry k = record { raw = raw_of k; header = header k }

-- The chain of `n` headers from height 5 on.
abbrev pub chain : ℕ → List Entry
chain zero = []
chain (suc n) = entry n ∷ chain n

abbrev pub headers_of : ℕ → Headers
headers_of zero = record (new_headers 2 [] (pos 5) two_bytes) { tip = pos 4; synced = true }
headers_of (suc n) =
    record (store_one_hdr (record (headers_of n) { file = (headers_of n).file ++ raw_of n })
      (header n)) { recovery = false }

headers_of-header_size : (n : ℕ) → (headers_of n).header_size ≡ 2
unfolding new_headers store_one_hdr
headers_of-header_size zero = refl
headers_of-header_size (suc n) = headers_of-header_size n

headers_of-deserialize : (n : ℕ) → (headers_of n).deserialize ≡ two_bytes
unfolding new_headers store_one_hdr
headers_of-deserialize zero = refl
headers_of-deserialize (suc n) = headers_of-deserialize n

entry-Linked : (n : ℕ) → Linked (entry n) (chain n)
entry-Linked zero = tt
entry-Linked (suc n) = refl

pub headers_of-Represents : (n : ℕ) → Represents (headers_of n) (chain n)
unfolding new_headers file_of ◌+ℤ◌
headers_of-Represents zero = record {
  sized = omega arith;
  maps = record { stored = tt; at_tip = refl; nowhere_else = λ j out. refl };
  on_disk = refl;
}
headers_of-Represents (suc n) =
    extended-Represents (headers_of n) (chain n) (entry n) (headers_of-Represents n)
      (omega (arith, headers_of-header_size n))
      (ap (λ (d : Deserialize). header_of d (raw_of n)) (headers_of-deserialize n)) (entry-Linked n)

-- A disk on which every call succeeds.
abbrev pub good_disk : Disk
good_disk = record {
  can_open = true;
  can_stat = true;
  can_stat_again = true;
  can_read = true;
  can_write = true;
  can_truncate = true;
}

abbrev pub text : ℕ → List ℕ
text k = encode_to_string (raw_of k)

-- A server of the headers with these numbers, one header to an answer.
abbrev pub server : Server
server = record {
  connected = true;
  block_header = λ height. some (text 9);
  block_headers =
      λ start count. some (record { count = pos 1; hex_concat = text 1; max = pos 2016 });
}

abbrev pub node_of : ℕ → Node
node_of n = record { headers = headers_of n; cost = pos 0; notified = []; canceled = false }
