-- ===== src/Servers/Incoming/Made.antt =====
-- What makeIncomingServerAddrs of electrumx/network_servers.go makes of a list of peers.
use go_electrum_client.Prelude.{
  ◌*◌, ◌≤◌, ◌≡◌, ◌∙◌, refl, sym, subst, inl, inr, ◌⊎◌, Bool, Option, none, some, List, [], ◌∷◌,
  ◌++◌, arith, Bool-cases, length, length-append,
}
use go_electrum_client.Prelude.Int.{pos}
use go_electrum_client.Prelude.Ip.{join_host_port}
use go_electrum_client.Prelude.Results.{Result, ok, err, panic, ◌>>=◌}
use go_electrum_client.Servers.{Text, ServerAddr}
use go_electrum_client.Servers.Incoming.{
  PeersResult, is_onion_addr, is_good_addr, make_server, Features, server_of, servers_of,
  no_features, make_incoming_server_addrs,
}
use go_electrum_client.Servers.Incoming.Read.{Good, is_good_addr-Good, not_Good}
use go_electrum_client.Servers.Incoming.Feats.{
  last_of, or_else, text_or, HasEmpty, Reads, read_feats-Reads,
}

-- The server that a peer offers over a network, if some feature names its port; an empty port is
-- the default one.
abbrev port_or : Text → Text → Text
port_or [] default = default
port_or (c ∷ port) default = c ∷ port

abbrev offer : PeersResult → Bool → Text → Text → Option Text → List ServerAddr
offer p onion net default none = []
offer p onion net default (some port) =
    record {
      net = net;
      address = join_host_port p.addr (port_or port default);
      host = p.host;
      is_onion = onion;
      version = text_or (last_of 118 p.feats) [];
      caps = [];
      rep = pos 0;
    }
    ∷ []

-- A "tcp" server for the last feature with a "t", by default at port "51001", and an "ssl" server
-- for the last one with an "s", by default at "51002".
abbrev pub offers : PeersResult → Bool → List ServerAddr
offers p onion =
    offer p onion (116 ∷ 99 ∷ 112 ∷ []) (53 ∷ 49 ∷ 48 ∷ 48 ∷ 49 ∷ []) (last_of 116 p.feats)
    ++ offer p onion (115 ∷ 115 ∷ 108 ∷ []) (53 ∷ 49 ∷ 48 ∷ 48 ∷ 50 ∷ []) (last_of 115 p.feats)

-- The peers with a good address offer their servers, in order, and the others are left out.
pub data Made : List PeersResult → List ServerAddr → Type 0 where
  no_peers : Made [] []
  bad_peer :
      {p : PeersResult} {l : List PeersResult} {s : List ServerAddr}
      → ((b : Bool) → ¬ Good p b)
      → Made l s
      → Made (p ∷ l) s
  good_peer :
      {p : PeersResult} {l : List PeersResult} {s : List ServerAddr} {b : Bool}
      → Good p b
      → ¬ HasEmpty p.feats
      → Made l s
      → Made (p ∷ l) (offers p b ++ s)

-- Some peer with a good address has an empty feature.
abbrev pub SomeEmpty : List PeersResult → Type 0
SomeEmpty [] = ⊥
SomeEmpty (p ∷ l) = ((b : Bool) × Good p b × HasEmpty p.feats) ⊎ SomeEmpty l

-- What makeIncomingServerAddrs may return.
abbrev pub Makes : List PeersResult → Result (Unit {0}) (List ServerAddr) → Type 0
Makes ps (ok l) = Made ps l × (length l ≤ 2 * length ps)
Makes ps (err e) = ⊥
Makes ps panic = SomeEmpty ps

offer-le :
    (p : PeersResult) (b : Bool) (net d : Text) (o : Option Text) → length (offer p b net d o) ≤ 1
offer-le p b net d none = omega arith
offer-le p b net d (some port) = omega arith

offers-le : (p : PeersResult) (b : Bool) → length (offers p b) ≤ 2
offers-le p b = omega (
  arith,
  length-append
      (offer p b (116 ∷ 99 ∷ 112 ∷ []) (53 ∷ 49 ∷ 48 ∷ 48 ∷ 49 ∷ []) (last_of 116 p.feats))
      (offer p b (115 ∷ 115 ∷ 108 ∷ []) (53 ∷ 49 ∷ 48 ∷ 48 ∷ 50 ∷ []) (last_of 115 p.feats)),
  offer-le p b (116 ∷ 99 ∷ 112 ∷ []) (53 ∷ 49 ∷ 48 ∷ 48 ∷ 49 ∷ []) (last_of 116 p.feats),
  offer-le p b (115 ∷ 115 ∷ 108 ∷ []) (53 ∷ 49 ∷ 48 ∷ 48 ∷ 50 ∷ []) (last_of 115 p.feats),
)

server_of-offer :
    (p : PeersResult) (f : Features) (net d : Text) (o : Option Text)
    → f.version ≡ text_or (last_of 118 p.feats) []
    → server_of p f net d o ≡ offer p (is_onion_addr p) net d o
unfolding make_server
server_of-offer p f net d none e = refl
server_of-offer p f net d (some []) e = rw e refl
server_of-offer p f net d (some (c ∷ port)) e = rw e refl

or_none : (o : Option Text) → or_else o none ≡ o
or_none none = refl
or_none (some x) = refl

servers_of-offers :
    (p : PeersResult) (f : Features)
    → Reads p.feats no_features f
    → servers_of p f ≡ offers p (is_onion_addr p)
unfolding servers_of
servers_of-offers p f r =
    let tcp_is : f.tcp_port ≡ last_of 116 p.feats = r.tcp_is ∙ or_none (last_of 116 p.feats) in
    let ssl_is : f.ssl_port ≡ last_of 115 p.feats = r.ssl_is ∙ or_none (last_of 115 p.feats) in
    rw
      (
        server_of-offer p f _ _ f.tcp_port r.version_is,
        server_of-offer p f _ _ f.ssl_port r.version_is,
        tcp_is,
        ssl_is,
      )
      refl

Makes-skip :
    (p : PeersResult) (l : List PeersResult) (r : Result (Unit {0}) (List ServerAddr))
    → ((b : Bool) → ¬ Good p b)
    → Makes l r
    → Makes (p ∷ l) r
Makes-skip p l (ok s) bad h = (bad_peer bad h.0, omega (arith, h.1))
Makes-skip p l (err e) bad h = h
Makes-skip p l panic bad h = inr h

Makes-add :
    (p : PeersResult) (l : List PeersResult) (b : Bool) (r : Result (Unit {0}) (List ServerAddr))
    → Good p b
    → ¬ HasEmpty p.feats
    → Makes l r
    → Makes (p ∷ l) (r >>= λ more. ok (offers p b ++ more))
Makes-add p l b (ok s) good full h =
    (good_peer good full h.0, omega (arith, h.1, offers-le p b, length-append (offers p b) s))
Makes-add p l b (err e) good full h = h
Makes-add p l b panic good full h = inr h

-- The servers that are made are, in order, those that the peers with a good address offer: over tcp
-- and ssl, at the port of the last feature that begins with "t" and with "s", the default port where
-- that is empty, with the version of the last feature with "v". An address is good if it ends in
-- ".onion" and the first label of the host has 56 characters, or does not and is an IP address.
-- There are at most two for each peer. The function returns no error, and panics only where a peer
-- with a good address has an empty feature.
pub make_incoming_server_addrs-Makes :
    (ps : List PeersResult) → Makes ps (make_incoming_server_addrs ps)
unfolding make_incoming_server_addrs
make_incoming_server_addrs-Makes [] = (no_peers, omega arith)
make_incoming_server_addrs-Makes (p ∷ l) =
    let rest = make_incoming_server_addrs-Makes l in
    elim (Bool-cases (is_good_addr p)) [
      | inr bad ↦
          let step : make_incoming_server_addrs (p ∷ l) ≡ make_incoming_server_addrs l =
            rw (bad, make_incoming_server_addrs) refl in
          subst (Makes (p ∷ l)) (sym step)
            (Makes-skip p l (make_incoming_server_addrs l) (λ b. not_Good p b bad) rest)
      | inl good ↦ elim (read_feats-Reads p.feats no_features) [
        | inl (f, q, reads) ↦
            let step : make_incoming_server_addrs (p ∷ l) ≡ (
                make_incoming_server_addrs l >>= λ more. ok (offers p (is_onion_addr p) ++ more)) =
              rw (good, make_incoming_server_addrs, q, servers_of-offers p f reads) refl in
            subst (Makes (p ∷ l)) (sym step) (
              Makes-add p l (is_onion_addr p) (make_incoming_server_addrs l)
                (is_good_addr-Good p good) reads.none_empty rest)
        | inr (q, empty) ↦
            let step : make_incoming_server_addrs (p ∷ l) ≡ panic =
              rw (good, make_incoming_server_addrs, q) refl in
            subst (Makes (p ∷ l)) (sym step)
              (inl (is_onion_addr p, is_good_addr-Good p good, empty))
      ]
    ]
