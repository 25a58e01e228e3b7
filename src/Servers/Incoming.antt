-- ===== src/Servers/Incoming.antt =====
-- makeIncomingServerAddrs of electrumx/network_servers.go: the servers that a peer's server tells of.
pub mod Read
pub mod Feats
pub mod Made
use go_electrum_client.Prelude.{
  ℕ, zero, suc, Bool, true, false, not, Option, none, some, List, [], ◌∷◌, ◌++◌, if◌then◌else◌,
  length, ◌==◌,
}
use go_electrum_client.Prelude.Int.{pos}
use go_electrum_client.Prelude.Ip.{parse_ip, join_host_port, contains}
use go_electrum_client.Prelude.Bytes.{bytes_eq}
use go_electrum_client.Prelude.Results.{Result, ok, err, panic, ◌>>=◌}
use go_electrum_client.Servers.{Text, ServerAddr, Known, update_network_servers}

pub record PeersResult : Type 0 where
  pub addr : Text
  pub host : Text
  pub feats : List Text

-- The texts "tcp", "ssl", ".onion", "51001" and "51002".
abbrev pub tcp : Text
tcp = 116 ∷ 99 ∷ 112 ∷ []

abbrev pub ssl : Text
ssl = 115 ∷ 115 ∷ 108 ∷ []

abbrev dot_onion : Text
dot_onion = 46 ∷ 111 ∷ 110 ∷ 105 ∷ 111 ∷ 110 ∷ []

abbrev pub default_tcp : Text
default_tcp = 53 ∷ 49 ∷ 48 ∷ 48 ∷ 49 ∷ []

abbrev pub default_ssl : Text
default_ssl = 53 ∷ 49 ∷ 48 ∷ 48 ∷ 50 ∷ []

-- strings.HasSuffix
has_suffix : Text → Text → Bool
has_suffix [] suffix = bytes_eq [] suffix
has_suffix (c ∷ s) suffix =
    let later = has_suffix s suffix in if bytes_eq (c ∷ s) suffix then true else later

-- The first part of strings.Split at dots.
before_dot : Text → Text
before_dot [] = []
before_dot (c ∷ s) = let more = before_dot s in if c == 46 then [] else c ∷ more

unfoldable pub is_onion_addr : PeersResult → Bool
unfolding has_suffix
is_onion_addr p = has_suffix p.addr dot_onion

-- An onion address of version 3 has 56 characters; other addresses are IP addresses.
unfoldable pub is_good_addr : PeersResult → Bool
unfolding before_dot
is_good_addr p = if is_onion_addr p then length (before_dot p.host) == 56 else parse_ip p.addr

pub record Features : Type 0 where
  pub version : Text
  pub tcp_port : Option Text
  pub ssl_port : Option Text

-- One feature; its first rune is read, which panics on an empty text.
abbrev pub read_feat : Text → Features → Result (Unit {0}) Features
read_feat [] f = panic
read_feat (c ∷ rest) f =
    if c == 118
    then ok (record f { version = rest })
    else if c == 116
    then ok (record f { tcp_port = some rest })
    else if c == 115
    then ok (record f { ssl_port = some rest })
    else ok f

unfoldable pub read_feats : List Text → Features → Result (Unit {0}) Features
read_feats [] f = ok f
read_feats (x ∷ l) f = do g ← read_feat x f; read_feats l g

abbrev pub or_default : Text → Text → Text
or_default [] d = d
or_default (c ∷ s) d = c ∷ s

unfoldable pub make_server : PeersResult → Features → Text → Text → ServerAddr
make_server p f net port = record {
  net = net;
  address = join_host_port p.addr port;
  host = p.host;
  is_onion = is_onion_addr p;
  version = f.version;
  caps = [];
  rep = pos 0;
}

abbrev pub server_of : PeersResult → Features → Text → Text → Option Text → List ServerAddr
server_of p f net d none = []
server_of p f net d (some port) = make_server p f net (or_default port d) ∷ []

unfoldable pub servers_of : PeersResult → Features → List ServerAddr
servers_of p f =
    server_of p f tcp default_tcp f.tcp_port ++ server_of p f ssl default_ssl f.ssl_port

abbrev pub no_features : Features
no_features = record { version = []; tcp_port = none; ssl_port = none }

unfoldable pub make_incoming_server_addrs : List PeersResult → Result (Unit {0}) (List ServerAddr)
make_incoming_server_addrs [] = ok []
make_incoming_server_addrs (p ∷ l) =
    let rest = make_incoming_server_addrs l in
    if is_good_addr p
    then (do f ← read_feats p.feats no_features; more ← rest; ok (servers_of p f ++ more))
    else rest
