-- ===== src/Network/Counts.antt =====
-- Counting in the lists of electrumx/network.go, and what a shuffle keeps.
use go_electrum_client.Prelude.{
  ℕ, ◌≡◌, ◌↔◌, ◌∙◌, refl, sym, Bool, true, false, ◌&&◌, not, ◌==◌, List, [], ◌∷◌, ltb, arith,
  Bool-cases, length, inl, inr,
}
use go_electrum_client.Prelude.Bytes.{bytes_eq_iff}
use go_electrum_client.Network.{NetAddr, Peer, is_equal, matched_any, shuffle_some}
pub use go_electrum_client.Prelude.Counts.{count, count-append, count_all, count_mono}

-- A shuffle keeps every element as often as it was there.
abbrev pub Shuffles : {A : Type 0} → (List A → List A) → Type 0
Shuffles {A} s = (f : A → Bool) (l : List A) → count f (s l) ≡ count f l

pub shuffle_some-Shuffles :
    {A : Type 0} (s : List A → List A) → Shuffles s → Shuffles (shuffle_some s)
shuffle_some-Shuffles s keeps f l = elim (Bool-cases (ltb 1 (length l))) [
  | inl more ↦ rw more (keeps f l)
  | inr few ↦ rw few refl
]

-- IsEqual is the equality of two of the fields.
pub is_equal_iff : (a b : NetAddr) → (is_equal a b ≡ true) ↔ ((a.addr ≡ b.addr) × (a.net ≡ b.net))
unfolding is_equal
is_equal_iff a b = ground (arith, bytes_eq_iff a.addr b.addr, bytes_eq_iff a.net b.net)

pub is_equal_trans :
    (a b c : NetAddr) → is_equal a b ≡ true → is_equal a c ≡ true → is_equal b c ≡ true
is_equal_trans a b c h k =
    let (p, q) = (is_equal_iff a b).0 h in
    let (r, s) = (is_equal_iff a c).0 k in (is_equal_iff b c).1 (sym p ∙ r, sym q ∙ s)

-- How many live peers stand at an address.
abbrev pub lives_at : (ℕ → Bool) → NetAddr → Peer → Bool
lives_at alive a p = alive p.ctx && is_equal a p.net_addr

pub matched_any_count :
    (alive : ℕ → Bool) (a : NetAddr) (l : List Peer)
    → matched_any alive a l ≡ not (count (lives_at alive a) l == 0)
unfolding matched_any
matched_any_count alive a [] = refl
matched_any_count alive a (p ∷ l) = ground (arith, matched_any_count alive a l)

pub matched_any-count :
    (alive : ℕ → Bool) (a : NetAddr) (l : List Peer)
    → matched_any alive a l ≡ false
    → count (lives_at alive a) l ≡ 0
unfolding matched_any
matched_any-count alive a [] e = refl
matched_any-count alive a (p ∷ l) e = ground (arith, matched_any-count alive a l)
