-- ===== src/Network/Monitor.antt =====
-- peersMonitor of electrumx/network.go: the events of a network that is monitored.
use go_electrum_client.Prelude.{
  ℕ, ◌≤◌, ◌≡◌, refl, sym, subst, inl, inr, Bool, true, false, not, ltb, ◌==◌, List, [], ◌∷◌,
  if◌then◌else◌, arith, Bool-cases, some,
}
use go_electrum_client.Network.{
  Peer, Network, World, cancel, start_first_leader, start_new_leader, available_servers,
  promote_loop, check_leader, has_live_leader, remove_id, remove_peers, dead_peers, reap_dead_peers,
  tick, cancel_all,
}
use go_electrum_client.Network.Counts.{count, count_all, Shuffles, lives_at}
use go_electrum_client.Network.Online.{Online, cancel-Online}
use go_electrum_client.Network.Starts.{start_first_leader-Online, start_new_peer_maybe-Online}

promote_loop-Online :
    (w : World) (l : List Peer) (n : Network) → Online n → Online (promote_loop w l n).0
unfolding promote_loop
promote_loop-Online w [] n o = o
promote_loop-Online w (p ∷ l) n o =
    Online-if (not (n.alive p.ctx)) (promote_loop w l n)
      (if w.promotes p
        then (record n { leader = some p }, true)
        else promote_loop w l (cancel p.ctx n))
      (promote_loop-Online w l n o)
      (Online-if (w.promotes p) (record n { leader = some p }, true)
        (promote_loop w l (cancel p.ctx n))
        (record { bounded = o.bounded; apart = o.apart; given = o.given })
        (promote_loop-Online w l (cancel p.ctx n) (cancel-Online p.ctx n o)))
  where
    Online-if :
        (b : Bool) (x y : Network × Bool) → Online x.0 → Online y.0 → Online (if b then x else y).0
    Online-if true x y h k = h
    Online-if false x y h k = k

check_leader-Online : (w : World) (n : Network) → Online n → Online (check_leader w n)
unfolding check_leader start_new_leader
check_leader-Online w n o = elim (Bool-cases (has_live_leader n)) [
  | inl led ↦ rw (led, check_leader) o
  | inr lost ↦
      let m : Network = (promote_loop w n.peers n).0 in
      let tried : Online m = promote_loop-Online w n.peers n o in
      elim (Bool-cases (promote_loop w n.peers n).1) [
        | inl promoted ↦ rw (lost, promoted, check_leader) tried
        | inr none_up ↦
            let step : check_leader w n ≡ start_first_leader w m (available_servers w m true) =
              rw (lost, none_up, check_leader) refl in
            subst Online (sym step)
              (start_first_leader-Online w m (available_servers w m true) tried)
      ]
]

count-remove_id : (f : Peer → Bool) (k : ℕ) (l : List Peer) → count f (remove_id k l) ≤ count f l
unfolding remove_id
count-remove_id f k [] = omega arith
count-remove_id f k (p ∷ l) = elim (Bool-cases (k == p.id)) [
  | inl same ↦ ground (arith, count-remove_id f k l)
  | inr other ↦ ground (arith, count-remove_id f k l)
]

count-remove_peers :
    (f : Peer → Bool) (dead l : List Peer) → count f (remove_peers dead l) ≤ count f l
unfolding remove_peers
count-remove_peers f [] l = omega arith
count-remove_peers f (p ∷ dead) l =
    omega (arith, count-remove_peers f dead (remove_id p.id l), count-remove_id f p.id l)

reap_dead_peers-Online : (n : Network) → Online n → Online (reap_dead_peers n)
unfolding reap_dead_peers
reap_dead_peers-Online n o =
    let dead : List Peer = dead_peers n.alive n.peers in
    let left : List Peer = remove_peers dead n.peers in
    record {
      bounded = omega (
        arith,
        sym (count_all left),
        count_all n.peers,
        count-remove_peers (λ p. true) dead n.peers,
        o.bounded,
      );
      apart = λ a. omega (arith, count-remove_peers (lives_at n.alive a) dead n.peers, o.apart a);
      given =
          omega (arith, count-remove_peers (λ p. not (ltb p.ctx n.next_ctx)) dead n.peers, o.given);
    }

cancel_all-Online : (l : List Peer) (n : Network) → Online n → Online (cancel_all l n)
unfolding cancel_all
cancel_all-Online [] n o = o
cancel_all-Online (p ∷ l) n o = cancel_all-Online l (cancel p.ctx n) (cancel-Online p.ctx n o)

-- What may happen to a network that the monitor runs: a tick, or a context that is cancelled,
-- or the end of the monitor.
pub data Event : Type 0 where
  ticks : World → World → Event
  dies : ℕ → Event
  stops : Event

-- The shuffles of the worlds keep the elements.
abbrev pub Shuffled : Event → Type 0
Shuffled (ticks w v) = Shuffles v.shuffle_peers × Shuffles v.shuffle_servers
Shuffled (dies k) = Unit {0}
Shuffled stops = Unit {0}

abbrev pub AllShuffled : List Event → Type 0
AllShuffled [] = Unit {0}
AllShuffled (e ∷ es) = Shuffled e × AllShuffled es

unfoldable pub handle_event : Event → Network → Network
handle_event (ticks w v) n = tick w v n
handle_event (dies k) n = cancel k n
handle_event stops n = cancel_all n.peers n

unfoldable pub run_events : List Event → Network → Network
run_events [] n = n
run_events (e ∷ es) n = run_events es (handle_event e n)

handle_event-Online : (e : Event) (n : Network) → Shuffled e → Online n → Online (handle_event e n)
unfolding handle_event tick
handle_event-Online (ticks w v) n s o =
    start_new_peer_maybe-Online v (reap_dead_peers (check_leader w n)) s.0 s.1
      (reap_dead_peers-Online (check_leader w n) (check_leader-Online w n o))
handle_event-Online (dies k) n s o = cancel-Online k n o
handle_event-Online stops n s o = cancel_all-Online n.peers n o

-- From a network with no more peers than the configured number, no two live ones at one address and
-- only contexts that were given out, the monitor reaches only such networks, whatever nodes start,
-- are promoted, answer and die, in whatever order. Shuffles are assumed to keep the elements.
pub run_events-Online :
    (es : List Event) (n : Network) → AllShuffled es → Online n → Online (run_events es n)
unfolding run_events
run_events-Online [] n s o = o
run_events-Online (e ∷ es) n s o =
    run_events-Online es (handle_event e n) s.1 (handle_event-Online e n s.0 o)
