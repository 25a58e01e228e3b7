-- ===== src/Network/Available.antt =====
-- availableServers of electrumx/network.go.
use go_electrum_client.Prelude.{
  ◌≡◌, ◌∙◌, refl, sym, ap, inl, inr, Bool, true, false, ◌&&◌, ◌||◌, not, ◌==◌, List, [], ◌∷◌, arith,
  Bool-cases,
}
use go_electrum_client.Servers.{ServerAddr}
use go_electrum_client.Network.{
  Network, World, is_available, select_available, available_servers, to_net_addr,
}
use go_electrum_client.Network.Counts.{
  count, Shuffles, shuffle_some-Shuffles, lives_at, matched_any-count, matched_any_count,
}

select_available-count :
    (n : Network) (b : Bool) (f : ServerAddr → Bool) (l : List ServerAddr)
    → count f (select_available n b l) ≡ count (λ s. f s && is_available n b s) l
unfolding select_available
select_available-count n b f [] = refl
select_available-count n b f (s ∷ l) = elim (Bool-cases (is_available n b s)) [
  | inl free ↦ ground (arith, select_available-count n b f l)
  | inr taken ↦ ground (arith, select_available-count n b f l)
]

-- A server that is not an onion server, unless a proxy is set and no leader is wanted, and at whose
-- address no peer lives.
abbrev pub is_free : Network → Bool → ServerAddr → Bool
is_free n for_leader s =
    (not s.is_onion || (n.has_proxy && not for_leader))
    && (count (lives_at n.alive (to_net_addr s)) n.peers == 0)

is_available-is_free :
    (n : Network) (b : Bool) (s : ServerAddr) → is_available n b s ≡ is_free n b s
unfolding is_available
is_available-is_free n b s =
    rw (matched_any_count n.alive (to_net_addr s) n.peers)
      (tests s.is_onion b n.has_proxy (count (lives_at n.alive (to_net_addr s)) n.peers == 0))
  where
    tests :
        (onion leader proxy free : Bool)
        → (not (onion && (leader || not proxy)) && not (not free))
          ≡ ((not onion || (proxy && not leader)) && free)
    tests onion leader proxy free = ground arith

available_servers-is_available :
    (w : World) (n : Network) (b : Bool) (f : ServerAddr → Bool)
    → Shuffles w.shuffle_servers
    → count f (available_servers w n b) ≡ count (λ s. f s && is_available n b s) n.known.servers
unfolding available_servers
available_servers-is_available w n b f keeps =
    shuffle_some-Shuffles w.shuffle_servers keeps f (select_available n b n.known.servers)
    ∙ select_available-count n b f n.known.servers

count_same :
    (f g : ServerAddr → Bool) (l : List ServerAddr)
    → ((s : ServerAddr) → f s ≡ g s)
    → count f l ≡ count g l
count_same f g [] same = refl
count_same f g (s ∷ l) same = rw (same s, count_same f g l same) refl

-- The available servers are, with their multiplicity, the known servers that are available: not an
-- onion server where a leader is wanted or no proxy is set, and at no address of a live peer. The
-- shuffle is assumed to keep the elements.
pub available_servers-count :
    (w : World) (n : Network) (b : Bool) (f : ServerAddr → Bool)
    → Shuffles w.shuffle_servers
    → count f (available_servers w n b) ≡ count (λ s. f s && is_free n b s) n.known.servers
available_servers-count w n b f keeps =
    available_servers-is_available w n b f keeps
    ∙ count_same (λ s. f s && is_available n b s) (λ s. f s && is_free n b s) n.known.servers
        (λ s. ap (λ x. f s && x) (is_available-is_free n b s))

count_none :
    (f : ServerAddr → Bool) (l : List ServerAddr) → ((s : ServerAddr) → f s ≡ false) → count f l ≡ 0
count_none f [] none_of = refl
count_none f (s ∷ l) none_of = ground (arith, none_of s, count_none f l none_of)

-- No live peer stands at the address of an available server that comes first.
pub available_servers-first :
    (w : World) (n : Network) (b : Bool) (s : ServerAddr) (rest : List ServerAddr)
    → Shuffles w.shuffle_servers
    → available_servers w n b ≡ s ∷ rest
    → count (lives_at n.alive (to_net_addr s)) n.peers ≡ 0
unfolding is_available
available_servers-first w n b s rest keeps e =
    let taken : ServerAddr → Bool = λ x. not (is_available n b x) in
    let counted : count taken (s ∷ rest) ≡ 0 =
      ap (count taken) (sym e)
      ∙ available_servers-is_available w n b taken keeps
      ∙ count_none (λ x. taken x && is_available n b x) n.known.servers
          (λ x. not_both (is_available n b x)) in
    matched_any-count n.alive (to_net_addr s) n.peers (ground arith)
  where
    not_both : (x : Bool) → (not x && x) ≡ false
    not_both true = refl
    not_both false = refl
