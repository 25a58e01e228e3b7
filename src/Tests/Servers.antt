-- ===== src/Tests/Servers.antt =====
-- Three servers under the theorems of the known servers.
use go_electrum_client.Prelude.{ℕ, ◌≡◌, refl, inl, inr, true, false, List, [], ◌∷◌}
use go_electrum_client.Prelude.Int.{pos}
use go_electrum_client.Prelude.Bytes.{bytes_eq}
use go_electrum_client.Prelude.Results.{ok}
use go_electrum_client.Servers.{
  ServerAddr, AddrFile, holds, FileCalls, Known, read_server_addr_file, write_server_addr_file,
  update_network_servers, update_stored_servers, remove_server, tmp_add, matched_known, present,
  all_present, add_stored,
}
use go_electrum_client.Servers.Addresses.{NoTwice}
use go_electrum_client.Servers.Update.{
  Adds, update_network_servers-Adds, update_stored_servers-Stores, Stores,
}
use go_electrum_client.Servers.Remove.{Removes, remove_server-Removes}

-- The server at the address of one byte.
abbrev pub server_at : ℕ → ServerAddr
server_at k = record {
  net = 1 ∷ [];
  address = k ∷ [];
  host = k ∷ [];
  is_onion = false;
  version = [];
  caps = [];
  rep = pos 0;
}

abbrev pub all_calls : FileCalls
all_calls = record {
  can_open = true;
  can_read = true;
  can_truncate = true;
  can_seek = true;
  can_write = true;
}

abbrev two : List ServerAddr
two = server_at 1 ∷ server_at 2 ∷ []

abbrev incoming : List ServerAddr
incoming = server_at 2 ∷ server_at 3 ∷ []

two-NoTwice : NoTwice two
two-NoTwice = (λ h. elim h [ inl e ↦ cc | inr x ↦ x ], (λ h. h, tt))

incoming-NoTwice : NoTwice incoming
incoming-NoTwice = (λ h. elim h [ inl e ↦ cc | inr x ↦ x ], (λ h. h, tt))

update_network_servers-Adds_example : Adds two incoming (update_network_servers two incoming)
update_network_servers-Adds_example = update_network_servers-Adds two incoming

abbrev three_held : AddrFile
three_held = holds (present (server_at 1 ∷ server_at 2 ∷ server_at 3 ∷ []))

two_updated : update_stored_servers all_calls (holds (present two)) incoming ≡ (three_held, ok tt)
unfolding update_stored_servers add_stored all_present write_server_addr_file read_server_addr_file
    tmp_add matched_known bytes_eq
two_updated = refl

update_stored_servers-Stores_example : Stores all_calls (holds (present two)) three_held incoming
update_stored_servers-Stores_example =
    update_stored_servers-Stores all_calls (holds (present two)) three_held incoming two_updated

abbrev pub two_known : Known
two_known = record { servers = two; file = three_held }

remove_server-Removes_example :
    Removes all_calls (2 ∷ []) two_known (remove_server false all_calls (server_at 2) two_known)
remove_server-Removes_example = remove_server-Removes all_calls (server_at 2) two_known
