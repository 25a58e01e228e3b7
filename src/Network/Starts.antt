-- ===== src/Network/Starts.antt =====
-- startNewLeader and startNewPeerMaybe of electrumx/network.go keep the peers few and apart.
use go_electrum_client.Prelude.{
  ◌<◌, ◌≡◌, ◌∙◌, refl, sym, inl, inr, true, false, not, ltb, leb, List, [], ◌∷◌, arith, Bool-cases,
  length,
}
use go_electrum_client.Servers.{ServerAddr}
use go_electrum_client.Network.{
  Network, World, add_started, start_new_peer, get_server_peers, drop_failed, start_first_leader,
  start_first_peer, start_new_peer_maybe, available_servers, shuffle_online, shuffle_some,
  to_net_addr,
}
use go_electrum_client.Network.Counts.{count, count_all, Shuffles, shuffle_some-Shuffles, lives_at}
use go_electrum_client.Network.Leader.{get_server_peers-OnlyKnown}
use go_electrum_client.Network.Available.{available_servers-first}
use go_electrum_client.Network.Online.{Online, OnlyKnown-Online, add_leader-Online, add_peer-Online}

drop_failed-Online :
    (w : World) (s : ServerAddr) (n : Network) → Online n → Online (drop_failed w s (n, false))
drop_failed-Online w s n o = record { bounded = o.bounded; apart = o.apart; given = o.given }

pub start_first_leader-Online :
    (w : World) (n : Network) (l : List ServerAddr) → Online n → Online (start_first_leader w n l)
unfolding start_new_peer
start_first_leader-Online w n [] o = o
start_first_leader-Online w n (s ∷ l) o = elim (Bool-cases (w.starts (to_net_addr s))) [
  | inl up ↦
      let m : Network = add_started n (to_net_addr s) true false in
      rw (up, start_new_peer)
        (OnlyKnown-Online m (get_server_peers w m) (get_server_peers-OnlyKnown w m)
          (add_leader-Online n (to_net_addr s) o))
  | inr down ↦ rw (down, start_new_peer) (drop_failed-Online w s n o)
]

shuffle_online-Online :
    (w : World) (n : Network) → Shuffles w.shuffle_peers → Online n → Online (shuffle_online w n)
shuffle_online-Online w n keeps o =
    let same = shuffle_some-Shuffles w.shuffle_peers keeps in
    let l = shuffle_some w.shuffle_peers n.peers in
    record {
      bounded =
          omega (arith, sym (count_all l), count_all n.peers, same (λ p. true) n.peers, o.bounded);
      apart = λ a. omega (arith, same (lives_at n.alive a) n.peers, o.apart a);
      given = same (λ p. not (ltb p.ctx n.next_ctx)) n.peers ∙ o.given;
    }

start_peer-Online :
    (w : World) (n : Network) (s : ServerAddr)
    → Online n
    → length n.peers < n.max_online
    → count (lives_at n.alive (to_net_addr s)) n.peers ≡ 0
    → Online (drop_failed w s (start_new_peer w n (to_net_addr s) false false))
unfolding start_new_peer
start_peer-Online w n s o below free = elim (Bool-cases (w.starts (to_net_addr s))) [
  | inl up ↦
      let m : Network = add_started n (to_net_addr s) false false in
      rw (up, start_new_peer)
        (OnlyKnown-Online m (get_server_peers w m) (get_server_peers-OnlyKnown w m)
          (add_peer-Online n (to_net_addr s) o below free))
  | inr down ↦ rw (down, start_new_peer) (drop_failed-Online w s n o)
]

pub start_new_peer_maybe-Online :
    (w : World) (n : Network)
    → Shuffles w.shuffle_peers
    → Shuffles w.shuffle_servers
    → Online n
    → Online (start_new_peer_maybe w n)
unfolding start_new_peer_maybe
start_new_peer_maybe-Online w n shuffles keeps o =
    elim (Bool-cases (leb n.max_online (length n.peers))) [
      | inl full ↦ rw (full, start_new_peer_maybe) o
      | inr room ↦
          rw (room, start_new_peer_maybe)
            (start_first (ground arith) (available_servers w n false) refl)
    ]
  where
    start_first :
        length n.peers < n.max_online
        → (l : List ServerAddr) → available_servers w n false ≡ l
        → Online (start_first_peer w n l)
    start_first room [] e = o
    start_first room (s ∷ rest) e =
        shuffle_online-Online w (drop_failed w s (start_new_peer w n (to_net_addr s) false false))
          shuffles
          (start_peer-Online w n s o room (available_servers-first w n false s rest keeps e))
