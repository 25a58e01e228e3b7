-- ===== src/Servers.antt =====
-- electrumx/network_servers.go: the servers that a network knows, in memory and in a JSON file.
-- The file is modelled by the list that its JSON stands for; a text is the list of its codes.
pub mod Addresses
pub mod Update
pub mod Remove
pub mod Incoming
use go_electrum_client.Prelude.{
  not, ℕ, Bool, true, false, ◌||◌, Option, none, some, List, [], ◌∷◌, ◌++◌, if◌then◌else◌, length,
  ◌==◌,
}
use go_electrum_client.Prelude.Int.{ℤ, pos}
use go_electrum_client.Prelude.Bytes.{bytes_eq}
use go_electrum_client.Prelude.Results.{Result, ok, err, panic, ◌>>=◌, ◌>>◌}

abbrev pub Text : Type 0
Text = List ℕ

pub record ServerAddr : Type 0 where
  pub net : Text
  pub address : Text
  pub host : Text
  pub is_onion : Bool
  pub version : Text
  pub caps : Text
  pub rep : ℤ

-- What the file holds: nothing, the JSON of a list, where an element may be null, or bytes that are
-- no such JSON.
pub data AddrFile : Type 0 where
  no_bytes : AddrFile
  holds : List (Option ServerAddr) → AddrFile
  garbled : AddrFile

-- Which calls of the operating system on the file succeed.
pub record FileCalls : Type 0 where
  pub can_open : Bool
  pub can_read : Bool
  pub can_truncate : Bool
  pub can_seek : Bool
  pub can_write : Bool

pub data FileError : Type 0 where
  not_opened not_read not_decoded not_truncated bad_offset not_written : FileError

abbrev require : Bool → FileError → Result FileError (Unit {0})
require true e = ok tt
require false e = err e

abbrev decode_servers : AddrFile → Result FileError (List (Option ServerAddr) × ℕ)
decode_servers no_bytes = ok ([], 0)
decode_servers (holds servers) = ok (servers, length servers)
decode_servers garbled = err not_decoded

unfoldable pub read_server_addr_file :
    FileCalls → AddrFile → Result FileError (List (Option ServerAddr) × ℕ)
read_server_addr_file c f = do
  require c.can_open not_opened
  require c.can_read not_read
  decode_servers f

-- No servers leave a file of no bytes.
abbrev pub encode_servers : List (Option ServerAddr) → AddrFile
encode_servers [] = no_bytes
encode_servers (s ∷ rest) = holds (s ∷ rest)

-- The file is cut to nothing before it is written; a write that fails leaves any bytes.
unfoldable pub write_server_addr_file :
    FileCalls → AddrFile → List (Option ServerAddr) → AddrFile × Result FileError (Unit {0})
write_server_addr_file c f servers =
    if not c.can_open
    then (f, err not_opened)
    else if not c.can_truncate
    then (f, err not_truncated)
    else if not c.can_seek
    then (no_bytes, err bad_offset)
    else if not c.can_write
    then (garbled, err not_written)
    else (encode_servers servers, ok tt)

-- A list of servers none of which is null.
abbrev pub present : List ServerAddr → List (Option ServerAddr)
present [] = []
present (s ∷ l) = some s ∷ present l

-- The servers of a list that is walked and dereferenced; `none` is the panic at a null.
unfoldable pub all_present : List (Option ServerAddr) → Option (List ServerAddr)
all_present [] = some []
all_present (none ∷ l) = none
all_present (some s ∷ l) = elim (all_present l) [ none ↦ none | some m ↦ some (s ∷ m) ]

-- The inner loop of an update.
unfoldable pub matched_known : Text → List ServerAddr → Bool
matched_known a [] = false
matched_known a (got ∷ rest) = bytes_eq got.address a || matched_known a rest

-- The outer loop: the servers that are not known yet.
unfoldable pub tmp_add : List ServerAddr → List ServerAddr → List ServerAddr
tmp_add known [] = []
tmp_add known (new ∷ rest) =
    let more = tmp_add known rest in if matched_known new.address known then more else new ∷ more

unfoldable pub update_network_servers : List ServerAddr → List ServerAddr → List ServerAddr
update_network_servers [] servers = servers
update_network_servers (k ∷ known) servers = (k ∷ known) ++ tmp_add (k ∷ known) servers

-- The stored servers, at least one, and those that come in: with none of these the stored ones are
-- not looked at.
unfoldable pub add_stored :
    FileCalls
    → AddrFile
    → List (Option ServerAddr)
    → List ServerAddr
    → AddrFile × Result FileError (Unit {0})
add_stored c f stored [] = write_server_addr_file c f stored
add_stored c f stored (s ∷ servers) = elim (all_present stored) [
  | none ↦ (f, panic)
  | some l ↦ write_server_addr_file c f (present (l ++ tmp_add l (s ∷ servers)))
]

unfoldable pub update_stored_servers :
    FileCalls → AddrFile → List ServerAddr → AddrFile × Result FileError (Unit {0})
update_stored_servers c f servers = elim (read_server_addr_file c f) [
  | ok (stored, num_read) ↦
      if num_read == 0
      then write_server_addr_file c f (present servers)
      else add_stored c f stored servers
  | err e ↦ (f, err e)
  | panic ↦ (f, panic)
]

-- The loops of removeServer.
unfoldable pub without_address : Text → List ServerAddr → List ServerAddr
without_address a [] = []
without_address a (known ∷ rest) =
    let less = without_address a rest in if bytes_eq known.address a then less else known ∷ less

-- The known servers in memory, and the file.
pub record Known : Type 0 where
  pub servers : List ServerAddr
  pub file : AddrFile

unfoldable pub remove_server :
    Bool → FileCalls → ServerAddr → Known → Known × Result FileError (Unit {0})
remove_server no_delete c server k =
    let less = record k { servers = without_address server.address k.servers } in
    if no_delete then (k, ok tt) else elim (read_server_addr_file c k.file) [
      | ok (stored, _) ↦ elim (all_present stored) [
        | none ↦ (less, panic)
        | some l ↦
            let (f, written) =
              write_server_addr_file c k.file (present (without_address server.address l)) in
            (record less { file = f }, written)
      ]
      | err e ↦ (less, err e)
      | panic ↦ (less, panic)
    ]

-- A null in the list is a panic here; the code panics when the known servers are first walked.
unfoldable pub load_known_servers : FileCalls → Known → Known × Result FileError ℕ
load_known_servers c k = elim (read_server_addr_file c k.file) [
  | ok (stored, num_read) ↦ elim (all_present stored) [
    | none ↦ (k, panic)
    | some l ↦ (record k { servers = l }, ok num_read)
  ]
  | err e ↦ (k, err e)
  | panic ↦ (k, panic)
]
