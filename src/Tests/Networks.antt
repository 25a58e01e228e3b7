-- ===== src/Tests/Networks.antt =====
-- A network of two peers under the theorems of the monitor.
use go_electrum_client.Prelude.{
  ℕ, ◌≡◌, ◌⊎◌, ◌&&◌, refl, inl, inr, true, false, some, List, [], ◌∷◌, arith, ◌==◌,
}
use go_electrum_client.Network.{
  Peer, Network, World, to_net_addr, reap_dead_peers, check_leader, has_live_leader,
  available_servers,
}
use go_electrum_client.Network.Counts.{count}
use go_electrum_client.Network.Reap.{live_peers, reap_dead_peers-live_peers}
use go_electrum_client.Network.Leader.{Leaderless, check_leader-Leads}
use go_electrum_client.Network.Available.{available_servers-count, is_free}
use go_electrum_client.Network.Online.{Online}
use go_electrum_client.Network.Monitor.{Event, ticks, dies, stops, run_events, run_events-Online}
use go_electrum_client.Tests.Servers.{server_at, all_calls, two_known}

abbrev peer : ℕ → Peer
peer k = record {
  id = k;
  is_leader = false;
  is_trusted = false;
  net_addr = to_net_addr (server_at k);
  ctx = k;
}

-- The leader is dead, and so is the peer with the context 3.
abbrev small : Network
small = record {
  started = true;
  leader = some (peer 0);
  peers = peer 3 ∷ peer 4 ∷ [];
  known = two_known;
  peer_id = 5;
  max_online = 3;
  no_delete = false;
  has_proxy = false;
  alive = λ k. k == 4;
  next_ctx = 5;
}

-- Every node starts, none can be promoted.
abbrev world : World
world = record {
  starts = λ a. true;
  promotes = λ p. false;
  incoming = server_at 7 ∷ [];
  file_calls = all_calls;
  shuffle_servers = λ l. l;
  shuffle_peers = λ l. l;
}

reap_dead_peers-live_peers_example :
    reap_dead_peers small ≡ record small { peers = live_peers small.alive small.peers }
reap_dead_peers-live_peers_example =
    reap_dead_peers-live_peers small (λ h. elim h [ inl e ↦ cc | inr x ↦ x ], (λ h. h, tt))

check_leader-Leads_example :
    (has_live_leader (check_leader world small) ≡ true)
    ⊎ Leaderless small (check_leader world small)
check_leader-Leads_example = check_leader-Leads world small

available_servers-count_example :
    count (λ s. true) (available_servers world small false)
    ≡ count (λ s. true && is_free small false s) two_known.servers
available_servers-count_example =
    available_servers-count world small false (λ s. true) (λ f l. refl)

small-Online : Online small
small-Online = record { bounded = omega arith; apart = λ a. ground arith; given = refl }

abbrev events : List Event
events = ticks world world ∷ dies 5 ∷ ticks world world ∷ stops ∷ []

run_events-Online_example : Online (run_events events small)
run_events-Online_example =
    run_events-Online events small
      ((λ f l. refl, λ f l. refl), (tt, ((λ f l. refl, λ f l. refl), (tt, tt)))) small-Online
