-- ===== src/Network/Reap.antt =====
-- reapDeadPeers of electrumx/network.go.
use go_electrum_client.Prelude.{
  ℕ, ◌≡◌, ◌∙◌, refl, sym, ap, inl, inr, ◌⊎◌, Bool, true, false, ◌==◌, ==_iff, List, [], ◌∷◌,
  if◌then◌else◌, Bool-cases,
}
use go_electrum_client.Network.{Peer, Network, remove_id, dead_peers, remove_peers, reap_dead_peers}

-- The peers whose context is not cancelled, in their order.
abbrev pub live_peers : (ℕ → Bool) → List Peer → List Peer
live_peers alive [] = []
live_peers alive (p ∷ rest) =
    let more = live_peers alive rest in if alive p.ctx then p ∷ more else more

-- Some peer of the list has the identity.
abbrev pub HasId : ℕ → List Peer → Type 0
HasId k [] = ⊥
HasId k (p ∷ rest) = (p.id ≡ k) ⊎ HasId k rest

abbrev pub DistinctIds : List Peer → Type 0
DistinctIds [] = Unit {0}
DistinctIds (p ∷ rest) = (¬ HasId p.id rest) × DistinctIds rest

==_refl : (k : ℕ) → (k == k) ≡ true
==_refl k = (==_iff k k).1 refl

remove_id_absent : (k : ℕ) (l : List Peer) → ¬ HasId k l → remove_id k l ≡ l
unfolding remove_id
remove_id_absent k [] none_there = refl
remove_id_absent k (p ∷ l) none_there = elim (Bool-cases (k == p.id)) [
  | inl same ↦ absurd (none_there (inl (sym ((==_iff k p.id).0 same))))
  | inr other ↦ rw (other, remove_id) (ap (◌∷◌ p) (remove_id_absent k l (λ h. none_there (inr h))))
]

HasId-dead_peers_lem :
    (k : ℕ) (p : Peer) (l dead : List Peer)
    → (HasId k dead → HasId k l)
    → (b : Bool) → HasId k (if b then dead else p ∷ dead)
    → HasId k (p ∷ l)
HasId-dead_peers_lem k p l dead more true h = inr (more h)
HasId-dead_peers_lem k p l dead more false (inl e) = inl e
HasId-dead_peers_lem k p l dead more false (inr h) = inr (more h)

HasId-dead_peers :
    (alive : ℕ → Bool) (k : ℕ) (l : List Peer) → HasId k (dead_peers alive l) → HasId k l
unfolding dead_peers
HasId-dead_peers alive k [] h = h
HasId-dead_peers alive k (p ∷ l) h =
    HasId-dead_peers_lem k p l (dead_peers alive l) (HasId-dead_peers alive k l) (alive p.ctx) h

remove_id_self : (p : Peer) (l : List Peer) → ¬ HasId p.id l → remove_id p.id (p ∷ l) ≡ l
unfolding remove_id
remove_id_self p l absent = rw (==_refl p.id, remove_id) (remove_id_absent p.id l absent)

-- A peer of another identity stays through removals.
remove_peers-cons :
    (p : Peer) (dead l : List Peer)
    → ¬ HasId p.id dead
    → remove_peers dead (p ∷ l) ≡ p ∷ remove_peers dead l
unfolding remove_peers remove_id
remove_peers-cons p [] l apart = refl
remove_peers-cons p (q ∷ dead) l apart = elim (Bool-cases (q.id == p.id)) [
  | inl same ↦ absurd (apart (inl ((==_iff q.id p.id).0 same)))
  | inr other ↦
      rw (other, remove_peers, remove_id)
        (remove_peers-cons p dead (remove_id q.id l) (λ h. apart (inr h)))
]

remove_dead_peers :
    (alive : ℕ → Bool) (l : List Peer)
    → DistinctIds l
    → remove_peers (dead_peers alive l) l ≡ live_peers alive l
unfolding remove_peers dead_peers
remove_dead_peers alive [] d = refl
remove_dead_peers alive (p ∷ l) d = elim (Bool-cases (alive p.ctx)) [
  | inl lives ↦
      rw (lives, dead_peers)
        (remove_peers-cons p (dead_peers alive l) l (λ h. d.0 (HasId-dead_peers alive p.id l h))
          ∙ ap (◌∷◌ p) (remove_dead_peers alive l d.1))
  | inr dead ↦
      rw (dead, dead_peers, remove_peers, remove_id_self p l d.0) (remove_dead_peers alive l d.1)
]

-- Reaping leaves exactly the peers whose context is not cancelled, in their order, where the
-- peers' identities differ.
pub reap_dead_peers-live_peers :
    (n : Network)
    → DistinctIds n.peers
    → reap_dead_peers n ≡ record n { peers = live_peers n.alive n.peers }
unfolding reap_dead_peers
reap_dead_peers-live_peers n d =
    ap (λ l. record n { peers = l }) (remove_dead_peers n.alive n.peers d)
