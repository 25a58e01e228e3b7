-- ===== src/Network.antt =====
-- electrumx/network.go: the leader, the peers, and the monitor that replaces the dead ones.
-- The contexts of the nodes are a store: a peer holds the number of its context, and `alive` says
-- which contexts are not cancelled; a peer that is the leader too shares its context that way.
-- What the nodes and their servers answer, and how the lists are shuffled, are arguments.
pub mod Counts
pub mod Reap
pub mod Leader
pub mod Available
pub mod Online
pub mod Starts
pub mod Monitor
use go_electrum_client.Prelude.{
  ℕ, suc, ◌+◌, ◌%◌, ◌^◌, Bool, true, false, not, ◌&&◌, ◌||◌, Option, none, some, List, [], ◌∷◌,
  ◌++◌, leb, ltb, ◌==◌, if◌then◌else◌, length,
}
use go_electrum_client.Prelude.Bytes.{bytes_eq}
use go_electrum_client.Servers.{
  Text, ServerAddr, FileCalls, Known, update_network_servers, remove_server,
}

-- NodeServerAddr
pub record NetAddr : Type 0 where
  pub net : Text
  pub addr : Text
  pub onion : Bool

unfoldable pub is_equal : NetAddr → NetAddr → Bool
is_equal a b = bytes_eq a.addr b.addr && bytes_eq a.net b.net

abbrev pub to_net_addr : ServerAddr → NetAddr
to_net_addr s = record { net = s.net; addr = s.address; onion = s.is_onion }

-- A node that runs, with the number of its context.
pub record Peer : Type 0 where
  pub id : ℕ
  pub is_leader : Bool
  pub is_trusted : Bool
  pub net_addr : NetAddr
  pub ctx : ℕ

pub record Network : Type 0 where
  pub started : Bool
  pub leader : Option Peer
  pub peers : List Peer
  pub known : Known
  pub peer_id : ℕ
  pub max_online : ℕ
  pub no_delete : Bool
  pub has_proxy : Bool
  pub alive : ℕ → Bool
  pub next_ctx : ℕ

-- What happens outside during one call: which nodes start, which nodes can be promoted, the
-- servers that the leader's server tells of (none on an error), the file calls and the shuffles.
pub record World : Type 0 where
  pub starts : NetAddr → Bool
  pub promotes : Peer → Bool
  pub incoming : List ServerAddr
  pub file_calls : FileCalls
  pub shuffle_servers : List ServerAddr → List ServerAddr
  pub shuffle_peers : List Peer → List Peer

abbrev pub set_alive : ℕ → Bool → (ℕ → Bool) → ℕ → Bool
set_alive k b alive j = if j == k then b else alive j

-- nodeCancel of one context
abbrev pub cancel : ℕ → Network → Network
cancel k n = record n { alive = set_alive k false n.alive }

abbrev pub update_known : World → Network → Network
update_known w n = elim w.incoming [
  | [] ↦ n
  | s ∷ rest ↦ record n {
    known = record n.known { servers = update_network_servers n.known.servers (s ∷ rest) };
  }
]

-- getServers, whose error getServerPeers ignores.
unfoldable pub get_server_peers : World → Network → Network
get_server_peers w n =
    if n.started then elim n.leader [ none ↦ n | some _ ↦ update_known w n ] else n

abbrev pub new_peer : Network → NetAddr → Bool → Bool → Peer
new_peer n addr is_leader is_trusted = record {
  id = n.peer_id;
  is_leader = is_leader;
  is_trusted = is_trusted;
  net_addr = addr;
  ctx = n.next_ctx;
}

-- The node is up: its peer takes the next identity and a context of its own.
abbrev pub add_started : Network → NetAddr → Bool → Bool → Network
add_started n addr is_leader is_trusted =
    let up = record n {
      peer_id = (n.peer_id + 1) % 2 ^ 32;
      alive = set_alive n.next_ctx true n.alive;
      next_ctx = suc n.next_ctx;
    } in
    let peer = new_peer n addr is_leader is_trusted in
    if is_leader
    then record up { leader = some peer }
    else record up { peers = n.peers ++ peer ∷ [] }

-- Whether it succeeded; the context of a node that does not start is held by nobody.
unfoldable pub start_new_peer : World → Network → NetAddr → Bool → Bool → Network × Bool
start_new_peer w n addr is_leader is_trusted =
    if w.starts addr
    then (get_server_peers w (add_started n addr is_leader is_trusted), true)
    else (n, false)

-- The loop of removePeer.
unfoldable pub remove_id : ℕ → List Peer → List Peer
remove_id k [] = []
remove_id k (p ∷ rest) = let newer = remove_id k rest in if k == p.id then newer else p ∷ newer

-- peersToRemove
unfoldable pub dead_peers : (ℕ → Bool) → List Peer → List Peer
dead_peers alive [] = []
dead_peers alive (p ∷ rest) =
    let dead = dead_peers alive rest in if alive p.ctx then dead else p ∷ dead

unfoldable pub remove_peers : List Peer → List Peer → List Peer
remove_peers [] peers = peers
remove_peers (p ∷ rest) peers = remove_peers rest (remove_id p.id peers)

unfoldable pub reap_dead_peers : Network → Network
reap_dead_peers n = record n { peers = remove_peers (dead_peers n.alive n.peers) n.peers }

-- The inner loop of availableServers.
unfoldable pub matched_any : (ℕ → Bool) → NetAddr → List Peer → Bool
matched_any alive a [] = false
matched_any alive a (p ∷ rest) = (alive p.ctx && is_equal a p.net_addr) || matched_any alive a rest

unfoldable pub is_available : Network → Bool → ServerAddr → Bool
is_available n for_leader s =
    not (s.is_onion && (for_leader || not n.has_proxy))
    && not (matched_any n.alive (to_net_addr s) n.peers)

unfoldable pub select_available : Network → Bool → List ServerAddr → List ServerAddr
select_available n for_leader [] = []
select_available n for_leader (s ∷ rest) =
    let more = select_available n for_leader rest in
    if is_available n for_leader s then s ∷ more else more

-- A list of one or none is not shuffled.
abbrev pub shuffle_some : {A : Type 0} → (List A → List A) → List A → List A
shuffle_some f l = if ltb 1 (length l) then f l else l

unfoldable pub available_servers : World → Network → Bool → List ServerAddr
available_servers w n for_leader =
    shuffle_some w.shuffle_servers (select_available n for_leader n.known.servers)

-- A server that did not start is removed from the known ones; an error of the file is ignored.
abbrev pub drop_failed : World → ServerAddr → Network × Bool → Network
drop_failed w s (n, true) = n
drop_failed w s (n, false) = record n {
  known = (remove_server n.no_delete w.file_calls s n.known).0;
}

-- The first of the available servers is started as a leader.
abbrev pub start_first_leader : World → Network → List ServerAddr → Network
start_first_leader w n [] = n
start_first_leader w n (s ∷ _) = drop_failed w s (start_new_peer w n (to_net_addr s) true false)

unfoldable pub start_new_leader : World → Network → Network
start_new_leader w n = start_first_leader w n (available_servers w n true)

-- The loop of checkLeader over the peers; whether it has promoted one.
unfoldable pub promote_loop : World → List Peer → Network → Network × Bool
promote_loop w [] n = (n, false)
promote_loop w (p ∷ rest) n =
    let skip = promote_loop w rest n in
    let failed = promote_loop w rest (cancel p.ctx n) in
    if not (n.alive p.ctx)
    then skip
    else if w.promotes p
    then (record n { leader = some p }, true)
    else failed

abbrev pub has_live_leader : Network → Bool
has_live_leader n = elim n.leader [ none ↦ false | some p ↦ n.alive p.ctx ]

unfoldable pub check_leader : World → Network → Network
check_leader w n =
    let (m, promoted) = promote_loop w n.peers n in
    if has_live_leader n then n else if promoted then m else start_new_leader w m

abbrev pub shuffle_online : World → Network → Network
shuffle_online w n = record n { peers = shuffle_some w.shuffle_peers n.peers }

abbrev pub start_first_peer : World → Network → List ServerAddr → Network
start_first_peer w n [] = n
start_first_peer w n (s ∷ _) =
    shuffle_online w (drop_failed w s (start_new_peer w n (to_net_addr s) false false))

unfoldable pub start_new_peer_maybe : World → Network → Network
start_new_peer_maybe w n =
    if leb n.max_online (length n.peers)
    then n
    else start_first_peer w n (available_servers w n false)

-- One tick of peersMonitor; the world may change between its calls.
unfoldable pub tick : World → World → Network → Network
tick w v n = start_new_peer_maybe v (reap_dead_peers (check_leader w n))

-- The end of peersMonitor cancels the peers.
unfoldable pub cancel_all : List Peer → Network → Network
cancel_all [] n = n
cancel_all (p ∷ rest) n = cancel_all rest (cancel p.ctx n)
