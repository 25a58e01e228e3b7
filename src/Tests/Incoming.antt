-- ===== src/Tests/Incoming.antt =====
-- Peers under the theorem of makeIncomingServerAddrs, and texts that are IP addresses or not.
use go_electrum_client.Prelude.{ℕ, ◌≡◌, refl, true, false, List, [], ◌∷◌}
use go_electrum_client.Prelude.Ip.{parse_ip}
use go_electrum_client.Servers.Incoming.{PeersResult, make_incoming_server_addrs}
use go_electrum_client.Servers.Incoming.Made.{Makes, make_incoming_server_addrs-Makes}

-- "1.2.3.4" and "1.2.3"
abbrev four_fields : List ℕ
four_fields = 49 ∷ 46 ∷ 50 ∷ 46 ∷ 51 ∷ 46 ∷ 52 ∷ []

abbrev three_fields : List ℕ
three_fields = 49 ∷ 46 ∷ 50 ∷ 46 ∷ 51 ∷ []

-- "::1", "1:2" and "::1.2.3.4"
abbrev loopback : List ℕ
loopback = 58 ∷ 58 ∷ 49 ∷ []

abbrev too_short : List ℕ
too_short = 49 ∷ 58 ∷ 50 ∷ []

abbrev mapped : List ℕ
mapped = 58 ∷ 58 ∷ four_fields

parse_ip_runs :
    (parse_ip four_fields ≡ true)
    × (parse_ip three_fields ≡ false)
    × (parse_ip loopback ≡ true)
    × (parse_ip too_short ≡ false)
    × (parse_ip mapped ≡ true)
unfolding parse_ip
parse_ip_runs = (refl, refl, refl, refl, refl)

-- A peer with the features "v1", "t" and "s5".
abbrev peers : List PeersResult
peers =
    record {
      addr = four_fields;
      host = four_fields;
      feats = (118 ∷ 49 ∷ []) ∷ (116 ∷ []) ∷ (115 ∷ 53 ∷ []) ∷ [];
    }
    ∷ record { addr = three_fields; host = three_fields; feats = [] ∷ [] }
    ∷ []

make_incoming_server_addrs-Makes_example : Makes peers (make_incoming_server_addrs peers)
make_incoming_server_addrs-Makes_example = make_incoming_server_addrs-Makes peers
