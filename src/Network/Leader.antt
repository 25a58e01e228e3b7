-- ===== src/Network/Leader.antt =====
-- checkLeader of electrumx/network.go.
use go_electrum_client.Prelude.{
  ℕ, ◌≡◌, ◌≢◌, ◌∙◌, refl, sym, ap, subst, inl, inr, ◌⊎◌, Bool, true, false, Option, none, some,
  List, [], ◌∷◌, if◌then◌else◌, arith, Bool-cases,
}
use go_electrum_client.Network.{
  NetAddr, start_first_leader, Peer, Network, World, cancel, promote_loop, has_live_leader,
  check_leader, start_new_leader, start_new_peer, add_started, get_server_peers, update_known,
  available_servers, to_net_addr,
}
use go_electrum_client.Network.Counts.{count}
use go_electrum_client.Servers.{ServerAddr, update_network_servers}

true_ne_false : true ≢ false
true_ne_false e = cc

-- A context that is not alive stays so while peers are tried.
promote_loop_dead :
    (w : World) (l : List Peer) (n : Network) (k : ℕ)
    → n.alive k ≡ false
    → (promote_loop w l n).0.alive k ≡ false
unfolding promote_loop
promote_loop_dead w [] n k e = e
promote_loop_dead w (p ∷ l) n k e =
    let skip = promote_loop_dead w l n k e in
    let failed = promote_loop_dead w l (cancel p.ctx n) k (ground arith) in ground arith

-- What the loop over the peers `l` may end with.
record Tried (n : Network) (l : List Peer) (r : Network × Bool) : Type 0 where
  leads : r.1 ≡ true → has_live_leader r.0 ≡ true
  all_dead : r.1 ≡ false → count (λ p. r.0.alive p.ctx) l ≡ 0
  only_contexts : r.1 ≡ false → r.0 ≡ record n { alive = r.0.alive }

count_dead :
    (f : Peer → Bool) (p : Peer) (l : List Peer) → f p ≡ false → count f l ≡ 0 → count f (p ∷ l) ≡ 0
count_dead f p l e h = ground arith

promote_loop-Tried : (w : World) (l : List Peer) (n : Network) → Tried n l (promote_loop w l n)
unfolding promote_loop
promote_loop-Tried w [] n = record {
  leads = λ e. cc;
  all_dead = λ e. refl;
  only_contexts = λ e. refl;
}
promote_loop-Tried w (p ∷ l) n = elim (Bool-cases (n.alive p.ctx)) [
  | inr dead ↦
      let step : promote_loop w (p ∷ l) n ≡ promote_loop w l n = rw (dead, promote_loop) refl in
      let rest = promote_loop-Tried w l n in
      let still = promote_loop_dead w l n p.ctx dead in
      subst (Tried n (p ∷ l)) (sym step) (record {
        leads = rest.leads;
        all_dead =
            λ e. count_dead (λ q. (promote_loop w l n).0.alive q.ctx) p l still (rest.all_dead e);
        only_contexts = rest.only_contexts;
      })
  | inl lives ↦ elim (Bool-cases (w.promotes p)) [
    | inl up ↦
        let step : promote_loop w (p ∷ l) n ≡ (record n { leader = some p }, true) =
          rw (lives, promote_loop, up) refl in
        subst (Tried n (p ∷ l)) (sym step) (record {
          leads = λ e. lives;
          all_dead = λ e. absurd (true_ne_false e);
          only_contexts = λ e. absurd (true_ne_false e);
        })
    | inr down ↦
        let m : Network = cancel p.ctx n in
        let step : promote_loop w (p ∷ l) n ≡ promote_loop w l m =
          rw (lives, promote_loop, down) refl in
        let rest = promote_loop-Tried w l m in
        let still = promote_loop_dead w l m p.ctx (ground arith) in
        subst (Tried n (p ∷ l)) (sym step) (record {
          leads = rest.leads;
          all_dead =
              λ e. count_dead (λ q. (promote_loop w l m).0.alive q.ctx) p l still (rest.all_dead e);
          only_contexts = rest.only_contexts;
        })
  ]
]

-- Only the known servers have changed.
abbrev pub OnlyKnown : Network → Network → Type 0
OnlyKnown n g = g ≡ record n { known = g.known }

OnlyKnown-if :
    (n x y : Network) (b : Bool) → OnlyKnown n x → OnlyKnown n y → OnlyKnown n (if b then x else y)
OnlyKnown-if n x y true h k = h
OnlyKnown-if n x y false h k = k

update_known-OnlyKnown : (w : World) (n : Network) → OnlyKnown n (update_known w n)
update_known-OnlyKnown w n =
    elim w.incoming
      as (λ l. OnlyKnown n (elim l as (λ (_ : List ServerAddr). Network) [
        | [] ↦ n
        | s ∷ rest ↦ record n {
          known = record n.known { servers = update_network_servers n.known.servers (s ∷ rest) };
        }
      ])) [ [] ↦ refl | s ∷ rest ↦ refl ]

-- Asking the leader's server changes the known servers only.
pub get_server_peers-OnlyKnown : (w : World) (n : Network) → OnlyKnown n (get_server_peers w n)
unfolding get_server_peers
get_server_peers-OnlyKnown w n =
    OnlyKnown-if n (elim n.leader [ none ↦ n | some _ ↦ update_known w n ]) n n.started
      (asked n.leader) refl
  where
    asked : (o : Option Peer) → OnlyKnown n (elim o [ none ↦ n | some _ ↦ update_known w n ])
    asked none = refl
    asked (some p) = update_known-OnlyKnown w n

started_leader :
    (w : World) (n : Network) (a : NetAddr)
    → has_live_leader (get_server_peers w (add_started n a true false)) ≡ true
started_leader w n a = rw (get_server_peers-OnlyKnown w (add_started n a true false)) (ground arith)

-- Starting a leader: it leads, or nothing but the known servers has changed.
start_first_leader-Leads :
    (w : World) (n : Network) (l : List ServerAddr)
    → (has_live_leader (start_first_leader w n l) ≡ true)
      ⊎ (start_first_leader w n l ≡ record n { known = (start_first_leader w n l).known })
unfolding start_new_peer
start_first_leader-Leads w n [] = inr refl
start_first_leader-Leads w n (s ∷ l) = elim (Bool-cases (w.starts (to_net_addr s))) [
  | inl up ↦ inl (rw up (started_leader w n (to_net_addr s)))
  | inr down ↦ inr (rw (down, start_new_peer) refl)
]

-- Every peer is dead, and only the contexts and the known servers have changed.
abbrev pub Leaderless : Network → Network → Type 0
Leaderless n k =
    (count (λ p. k.alive p.ctx) k.peers ≡ 0) × (k ≡ record n { alive = k.alive; known = k.known })

-- After checkLeader a leader with a live context leads, or every peer is dead; then nothing but the
-- contexts and the known servers has changed.
pub check_leader-Leads :
    (w : World) (n : Network)
    → (has_live_leader (check_leader w n) ≡ true) ⊎ Leaderless n (check_leader w n)
unfolding check_leader start_new_leader
check_leader-Leads w n = elim (Bool-cases (has_live_leader n)) [
  | inl led ↦ inl (rw (led, check_leader) led)
  | inr lost ↦
      let m : Network = (promote_loop w n.peers n).0 in
      let tried = promote_loop-Tried w n.peers n in
      elim (Bool-cases (promote_loop w n.peers n).1) [
        | inl promoted ↦ inl (rw (lost, promoted, check_leader) (tried.leads promoted))
        | inr none_up ↦
            let l : List ServerAddr = available_servers w m true in
            let step : check_leader w n ≡ start_first_leader w m l =
              rw (lost, none_up, check_leader) refl in
            elim (start_first_leader-Leads w m l) [
              | inl led ↦ inl (subst (λ k. has_live_leader k ≡ true) (sym step) led)
              | inr same ↦
                  let contexts = (promote_loop w n.peers n).0.alive in
                  let servers = (start_first_leader w m l).known in
                  let kept : check_leader w n ≡ record n { alive = contexts; known = servers } =
                    step
                    ∙ same
                    ∙ ap (λ (k : Network). record k { known = servers })
                        (tried.only_contexts none_up) in
                  inr (subst (Leaderless n) (sym kept) (tried.all_dead none_up, refl))
            ]
      ]
]
