-- ===== src/Servers/Incoming/Read.antt =====
-- Which addresses makeIncomingServerAddrs of electrumx/network_servers.go takes, by a description
-- that does not follow its tests.
use go_electrum_client.Prelude.{
  ◌≡◌, ◌≢◌, ◌∙◌, refl, sym, ap, inl, inr, ◌⊎◌, Bool, true, false, [], ◌∷◌, ◌++◌, arith, ◌==◌,
  ==_iff, Bool-cases, length,
}
use go_electrum_client.Prelude.Bytes.{bytes_eq, bytes_eq_iff, bytes_eq_refl}
use go_electrum_client.Prelude.Ip.{parse_ip, contains}
use go_electrum_client.Servers.{Text}
use go_electrum_client.Servers.Incoming.{
  PeersResult, has_suffix, before_dot, is_onion_addr, is_good_addr,
}

-- The address ends in ".onion".
abbrev pub IsOnion : PeersResult → Type 0
IsOnion p = (front : Text) × (p.addr ≡ front ++ 46 ∷ 111 ∷ 110 ∷ 105 ∷ 111 ∷ 110 ∷ [])

-- The label is the text up to its first dot, or all of it.
abbrev IsLabel : Text → Text → Type 0
IsLabel s label =
    (contains 46 label ≡ false) × ((s ≡ label) ⊎ ((rest : Text) × (s ≡ label ++ 46 ∷ rest)))

-- A good address, with whether it is an onion one.
pub data Good (p : PeersResult) : Bool → Type 0 where
  onion_v3 : IsOnion p → (label : Text) → IsLabel p.host label → length label ≡ 56 → Good p true
  ip : ¬ IsOnion p → parse_ip p.addr ≡ true → Good p false

has_suffix_self : (s : Text) → has_suffix s s ≡ true
unfolding has_suffix
has_suffix_self [] = bytes_eq_refl []
has_suffix_self (c ∷ s) = rw (bytes_eq_refl (c ∷ s)) refl

has_suffix_append : (front s : Text) → has_suffix (front ++ s) s ≡ true
unfolding has_suffix
has_suffix_append [] s = has_suffix_self s
has_suffix_append (c ∷ front) s = elim (Bool-cases (bytes_eq (c ∷ front ++ s) s)) [
  | inl whole ↦ rw whole refl
  | inr part ↦ rw part (has_suffix_append front s)
]

has_suffix_split :
    (s suffix : Text) → has_suffix s suffix ≡ true → (front : Text) × (s ≡ front ++ suffix)
unfolding has_suffix
has_suffix_split [] suffix e = ([], (bytes_eq_iff [] suffix).0 e)
has_suffix_split (c ∷ s) suffix e = elim (Bool-cases (bytes_eq (c ∷ s) suffix)) [
  | inl whole ↦ ([], (bytes_eq_iff (c ∷ s) suffix).0 whole)
  | inr part ↦
      let (front, q) = has_suffix_split s suffix (rw (part, has_suffix) at e) in
      (c ∷ front, ap (λ r. c ∷ r) q)
]

before_dot-IsLabel : (s : Text) → IsLabel s (before_dot s)
unfolding before_dot
before_dot-IsLabel [] = (refl, inl refl)
before_dot-IsLabel (c ∷ s) = elim (Bool-cases (c == 46)) [
  | inl dot ↦ rw dot (refl, inr (s, ap (λ d. d ∷ s) ((==_iff c 46).0 dot)))
  | inr other ↦
      let (no_dot, split) = before_dot-IsLabel s in
      rw other (
        rw other no_dot,
        elim split [
          | inl whole ↦ inl (ap (λ r. c ∷ r) whole)
          | inr (rest, e) ↦ inr (rest, ap (λ r. c ∷ r) e)
        ],
      )
]

before_dot_label : (label : Text) → contains 46 label ≡ false → before_dot label ≡ label
unfolding before_dot
before_dot_label [] e = refl
before_dot_label (c ∷ s) e = elim (Bool-cases (c == 46)) [
  | inl dot ↦ absurd (ground (arith, dot))
  | inr other ↦ rw other (ap (λ r. c ∷ r) (before_dot_label s (rw other at e)))
]

before_dot_append :
    (label rest : Text) → contains 46 label ≡ false → before_dot (label ++ 46 ∷ rest) ≡ label
unfolding before_dot
before_dot_append [] rest e = refl
before_dot_append (c ∷ s) rest e = elim (Bool-cases (c == 46)) [
  | inl dot ↦ absurd (ground (arith, dot))
  | inr other ↦ rw other (ap (λ r. c ∷ r) (before_dot_append s rest (rw other at e)))
]

before_dot_unique : (s label : Text) → IsLabel s label → before_dot s ≡ label
before_dot_unique s label (no_dot, inl whole) = ap before_dot whole ∙ before_dot_label label no_dot
before_dot_unique s label (no_dot, inr (rest, e)) =
    ap before_dot e ∙ before_dot_append label rest no_dot

false_ne_true : false ≢ true
false_ne_true e = cc

not-IsOnion : (p : PeersResult) → is_onion_addr p ≡ false → ¬ IsOnion p
unfolding is_onion_addr
not-IsOnion p plain (front, e) = false_ne_true (
    sym plain
    ∙ ap (λ (a : Text). has_suffix a (46 ∷ 111 ∷ 110 ∷ 105 ∷ 111 ∷ 110 ∷ [])) e
    ∙ has_suffix_append front (46 ∷ 111 ∷ 110 ∷ 105 ∷ 111 ∷ 110 ∷ []))

is_onion_addr-IsOnion : (p : PeersResult) → is_onion_addr p ≡ true → IsOnion p
unfolding is_onion_addr
is_onion_addr-IsOnion p e = has_suffix_split p.addr (46 ∷ 111 ∷ 110 ∷ 105 ∷ 111 ∷ 110 ∷ []) e

pub is_good_addr-Good : (p : PeersResult) → is_good_addr p ≡ true → Good p (is_onion_addr p)
unfolding is_good_addr
is_good_addr-Good p e = elim (Bool-cases (is_onion_addr p)) [
  | inl onion ↦ rw onion (
      onion_v3 (is_onion_addr-IsOnion p onion) (before_dot p.host) (before_dot-IsLabel p.host)
        ((==_iff (length (before_dot p.host)) 56).0 (rw (is_good_addr, onion) at e)))
  | inr plain ↦ rw plain (ip (not-IsOnion p plain) (rw (is_good_addr, plain) at e))
]

pub not_Good : (p : PeersResult) (b : Bool) → is_good_addr p ≡ false → ¬ Good p b
unfolding is_good_addr
not_Good p true bad (onion_v3 onion label is_label long) = elim (Bool-cases (is_onion_addr p)) [
  | inr plain ↦ not-IsOnion p plain onion
  | inl marked ↦ false_ne_true (
      sym (rw (is_good_addr, marked) at bad)
      ∙ (==_iff (length (before_dot p.host)) 56).1
          (ap length (before_dot_unique p.host label is_label) ∙ long))
]
not_Good p false bad (ip plain parses) = elim (Bool-cases (is_onion_addr p)) [
  | inl marked ↦ plain (is_onion_addr-IsOnion p marked)
  | inr q ↦ false_ne_true (sym (rw (is_good_addr, q) at bad) ∙ parses)
]
