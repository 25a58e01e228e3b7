-- ===== src/Servers/Incoming/Feats.antt =====
-- What a peer's features say to makeIncomingServerAddrs of electrumx/network_servers.go: for each
-- letter the last one that begins with it.
use go_electrum_client.Prelude.{
  ℕ, ◌≡◌, ◌∙◌, refl, ap, inl, inr, ◌⊎◌, Bool, true, false, Option, none, some, List, [], ◌∷◌, ◌==◌,
  ==_iff, Bool-cases, if◌then◌else◌,
}
use go_electrum_client.Prelude.Results.{ok, panic, ◌>>=◌}
use go_electrum_client.Servers.{Text}
use go_electrum_client.Servers.Incoming.{read_feat, Features, read_feats}

abbrev pub or_else : Option Text → Option Text → Option Text
or_else none o = o
or_else (some x) o = some x

-- What follows the letter in the last feature that begins with it.
abbrev pub last_of : ℕ → List Text → Option Text
last_of c [] = none
last_of c ([] ∷ l) = last_of c l
last_of c ((d ∷ x) ∷ l) = or_else (last_of c l) (if d == c then some x else none)

abbrev pub text_or : Option Text → Text → Text
text_or none v = v
text_or (some x) v = x

abbrev pub HasEmpty : List Text → Type 0
HasEmpty [] = ⊥
HasEmpty ([] ∷ l) = Unit {0}
HasEmpty ((c ∷ x) ∷ l) = HasEmpty l

-- The features of a list that are read from `f` on.
pub record Reads (l : List Text) (f g : Features) : Type 0 where
  pub none_empty : ¬ HasEmpty l
  pub tcp_is : g.tcp_port ≡ or_else (last_of 116 l) f.tcp_port
  pub ssl_is : g.ssl_port ≡ or_else (last_of 115 l) f.ssl_port
  pub version_is : g.version ≡ text_or (last_of 118 l) f.version

join_port :
    (o : Option Text) (b : Bool) (x : Text) (t : Option Text)
    → or_else o (if b then some x else t) ≡ or_else (or_else o (if b then some x else none)) t
join_port none true x t = refl
join_port none false x t = refl
join_port (some y) b x t = refl

join_version :
    (o : Option Text) (b : Bool) (x v : Text)
    → text_or o (if b then x else v) ≡ text_or (or_else o (if b then some x else none)) v
join_version none true x v = refl
join_version none false x v = refl
join_version (some y) b x v = refl

-- One feature that is not empty.
record ReadsOne (c : ℕ) (x : Text) (f g : Features) : Type 0 where
  pub tcp_is : g.tcp_port ≡ (if c == 116 then some x else f.tcp_port)
  pub ssl_is : g.ssl_port ≡ (if c == 115 then some x else f.ssl_port)
  pub version_is : g.version ≡ (if c == 118 then x else f.version)

read_feat_cons :
    (c : ℕ) (x : Text) (f : Features)
    → (g : Features) × (read_feat (c ∷ x) f ≡ ok g) × ReadsOne c x f g
read_feat_cons c x f = elim (Bool-cases (c == 118)) [
  | inl v ↦
      let e : c ≡ 118 = (==_iff c 118).0 v in
      (
        record f { version = x },
        rw v refl,
        rw e (record { tcp_is = refl; ssl_is = refl; version_is = refl }),
      )
  | inr n ↦ elim (Bool-cases (c == 116)) [
    | inl t ↦
        let e : c ≡ 116 = (==_iff c 116).0 t in
        (
          record f { tcp_port = some x },
          rw (n, t) refl,
          rw e (record { tcp_is = refl; ssl_is = refl; version_is = refl }),
        )
    | inr m ↦ elim (Bool-cases (c == 115)) [
      | inl s ↦
          let e : c ≡ 115 = (==_iff c 115).0 s in
          (
            record f { ssl_port = some x },
            rw (n, m, s) refl,
            rw e (record { tcp_is = refl; ssl_is = refl; version_is = refl }),
          )
      | inr o ↦ (
        f,
        rw (n, m, o) refl,
        record { tcp_is = rw m refl; ssl_is = rw o refl; version_is = rw n refl },
      )
    ]
  ]
]

-- Reading the features fails only by a panic at an empty one.
pub read_feats-Reads :
    (l : List Text) (f : Features)
    → ((g : Features) × (read_feats l f ≡ ok g) × Reads l f g)
      ⊎ ((read_feats l f ≡ panic) × HasEmpty l)
unfolding read_feats
read_feats-Reads [] f =
    inl (f, refl, record { none_empty = λ h. h; tcp_is = refl; ssl_is = refl; version_is = refl })
read_feats-Reads ([] ∷ l) f = inr (refl, tt)
read_feats-Reads ((c ∷ x) ∷ l) f =
    let (g, e, one) = read_feat_cons c x f in
    let step : read_feats ((c ∷ x) ∷ l) f ≡ read_feats l g = ap (λ r. r >>= read_feats l) e in
    elim (read_feats-Reads l g) [
      | inr (q, empty) ↦ inr (step ∙ q, empty)
      | inl (h, q, more) ↦ inl (
        h,
        step ∙ q,
        record {
          none_empty = more.none_empty;
          tcp_is =
              more.tcp_is
              ∙ ap (or_else (last_of 116 l)) one.tcp_is
              ∙ join_port (last_of 116 l) (c == 116) x f.tcp_port;
          ssl_is =
              more.ssl_is
              ∙ ap (or_else (last_of 115 l)) one.ssl_is
              ∙ join_port (last_of 115 l) (c == 115) x f.ssl_port;
          version_is =
              more.version_is
              ∙ ap (text_or (last_of 118 l)) one.version_is
              ∙ join_version (last_of 118 l) (c == 118) x f.version;
        },
      )
    ]
