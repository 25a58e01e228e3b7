-- ===== src/Network/Online.antt =====
-- The monitor of electrumx/network.go: how many peers there are, and that no two live ones stand at
-- one address.
use go_electrum_client.Prelude.{
  ℕ, suc, ◌≤◌, ◌<◌, ◌≡◌, refl, sym, subst, inl, inr, Bool, true, false, not, ltb, List, [], ◌∷◌,
  ◌++◌, arith, Bool-cases, length, length-append,
}
use go_electrum_client.Network.{
  NetAddr, Peer, Network, cancel, set_alive, add_started, new_peer, is_equal,
}
use go_electrum_client.Network.Counts.{count, count_mono, count-append, lives_at, is_equal_trans}
use go_electrum_client.Network.Leader.{OnlyKnown}

-- At most the configured number of peers; at every address at most one live peer; and every peer's
-- context has been given out.
pub record Online (n : Network) : Type 0 where
  pub bounded : length n.peers ≤ n.max_online
  pub apart : (a : NetAddr) → count (lives_at n.alive a) n.peers ≤ 1
  pub given : count (λ p. not (ltb p.ctx n.next_ctx)) n.peers ≡ 0

pub OnlyKnown-Online : (n g : Network) → OnlyKnown n g → Online n → Online g
OnlyKnown-Online n g e o =
    subst Online (sym e) (record { bounded = o.bounded; apart = o.apart; given = o.given })

lives_at-cancel :
    (alive : ℕ → Bool) (k : ℕ) (a : NetAddr) (p : Peer)
    → lives_at (set_alive k false alive) a p ≡ true
    → lives_at alive a p ≡ true
lives_at-cancel alive k a p e = ground arith

pub cancel-Online : (k : ℕ) (n : Network) → Online n → Online (cancel k n)
cancel-Online k n o = record {
  bounded = o.bounded;
  apart = λ a.
      let fewer =
        count_mono (lives_at (set_alive k false n.alive) a) (lives_at n.alive a) n.peers
          (lives_at-cancel n.alive k a) in
      omega (arith, fewer, o.apart a);
  given = o.given;
}

-- A new context is that of no peer.
count-set_alive :
    (alive : ℕ → Bool) (k : ℕ) (a : NetAddr) (l : List Peer)
    → count (λ p. not (ltb p.ctx k)) l ≡ 0
    → count (lives_at (set_alive k true alive) a) l ≡ count (lives_at alive a) l
count-set_alive alive k a [] e = refl
count-set_alive alive k a (p ∷ l) e = elim (Bool-cases (ltb p.ctx k)) [
  | inl below ↦ ground (arith, count-set_alive alive k a l)
  | inr above ↦ absurd (ground arith)
]

count-suc :
    (k : ℕ) (l : List Peer)
    → count (λ p. not (ltb p.ctx k)) l ≡ 0
    → count (λ p. not (ltb p.ctx (suc k))) l ≡ 0
count-suc k [] e = refl
count-suc k (p ∷ l) e = elim (Bool-cases (ltb p.ctx k)) [
  | inl below ↦ ground (arith, count-suc k l)
  | inr above ↦ absurd (ground arith)
]

pub add_leader-Online : (n : Network) (a : NetAddr) → Online n → Online (add_started n a true false)
add_leader-Online n a o = record {
  bounded = o.bounded;
  apart = λ b. omega (arith, count-set_alive n.alive n.next_ctx b n.peers o.given, o.apart b);
  given = count-suc n.next_ctx n.peers o.given;
}

lives_at-is_equal :
    (alive : ℕ → Bool) (a b : NetAddr) (p : Peer)
    → is_equal b a ≡ true
    → lives_at alive b p ≡ true
    → lives_at alive a p ≡ true
lives_at-is_equal alive a b p same e = ground (arith, is_equal_trans b a p.net_addr same)

-- A new peer at an address where no live peer stands.
one_more :
    (n : Network) (a b : NetAddr)
    → Online n
    → count (lives_at n.alive a) n.peers ≡ 0
    → count
        (lives_at (set_alive n.next_ctx true n.alive) b)
        (n.peers ++ new_peer n a false false ∷ [])
      ≤ 1
one_more n a b o free =
    let f : Peer → Bool = lives_at (set_alive n.next_ctx true n.alive) b in
    let split = count-append f n.peers (new_peer n a false false ∷ []) in
    let old = count-set_alive n.alive n.next_ctx b n.peers o.given in
    elim (Bool-cases (is_equal b a)) [
      | inl same ↦
          let fewer =
            count_mono (lives_at n.alive b) (lives_at n.alive a) n.peers
              (λ p. lives_at-is_equal n.alive a b p same) in
          let last : count f (new_peer n a false false ∷ []) ≤ 1 = ground (arith, same) in
          omega (arith, split, old, fewer, free, last)
      | inr other ↦
          let last : count f (new_peer n a false false ∷ []) ≡ 0 = ground (arith, other) in
          omega (arith, split, old, o.apart b, last)
    ]

pub add_peer-Online :
    (n : Network) (a : NetAddr)
    → Online n
    → length n.peers < n.max_online
    → count (lives_at n.alive a) n.peers ≡ 0
    → Online (add_started n a false false)
add_peer-Online n a o room free = record {
  bounded = omega (arith, length-append n.peers (new_peer n a false false ∷ []));
  apart = λ b. one_more n a b o free;
  given =
      let split =
        count-append (λ p. not (ltb p.ctx (suc n.next_ctx))) n.peers
          (new_peer n a false false ∷ []) in
      let last : count (λ p. not (ltb p.ctx (suc n.next_ctx))) (new_peer n a false false ∷ []) ≡ 0 =
        ground arith in
      omega (arith, split, last, count-suc n.next_ctx n.peers o.given);
}
