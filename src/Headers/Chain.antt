-- ===== src/Headers/Chain.antt =====
-- The headers as one chain, newest first: the abstract view of the file, the map and the tip of
-- electrumx/headers.go.
use go_electrum_client.Prelude.{
  ap, ◌/◌, ◌%◌, ◌==◌, ==_iff, sym, ℕ, zero, suc, ◌+◌, ◌*◌, ◌≤◌, ◌<◌, ◌≡◌, ◌∙◌, ◌⊎◌, inl, inr,
  Option, none, some, List, [], ◌∷◌, ◌++◌, arith, Bool-cases, length, drop, take, length-append,
  take_all, take-append_left,
}
use go_electrum_client.Prelude.Int.{ℤ, pos, ◌+ℤ◌, ◌<ℤ◌, eqb_ℤ, int_laws, parts}
use go_electrum_client.Headers.{BlockHeader, Deserialize, Headers, store_at, delete_at}
use native.Mathlib.Nat.{mul-mod_left, div-eq_of_eq-mul_left, zero-div}
use go_electrum_client.Prelude.Results.{ok}
use go_electrum_client.Headers.File.{bytes_to_num_hdrs}
use go_electrum_client.Headers.Maps.{put_hdr, remove_one_hdr_from_tip}

pub record Entry : Type 0 where
  pub raw : List ℕ
  pub header : BlockHeader

-- The bytes of the file: the oldest header stands first.
unfoldable pub file_of : List Entry → List ℕ
file_of [] = []
file_of (e ∷ rest) = file_of rest ++ e.raw

abbrev pub header_of : Deserialize → List ℕ → Option BlockHeader
header_of d raw = elim (d raw) [ none ↦ none | some (b, _) ↦ some b ]

-- A header names the hash of the one below it.
abbrev pub Linked : Entry → List Entry → Type 0
Linked e [] = Unit {0}
Linked e (p ∷ rest) = p.header.hash ≡ e.header.prev

abbrev pub Stored : Headers → (ℤ → Option BlockHeader) → List Entry → Type 0
Stored h m [] = Unit {0}
Stored h m (e ∷ rest) =
    (length e.raw ≡ h.header_size)
    × (header_of h.deserialize e.raw ≡ some e.header)
    × (m (h.start_point +ℤ pos (length rest)) ≡ some e.header)
    × Linked e rest
    × Stored h m rest

-- The map holds the chain from the start point to the tip, and nothing else.
pub record InMaps (h : Headers) (c : List Entry) : Type 0 where
  pub stored : Stored h h.hdrs c
  pub at_tip : h.tip +ℤ pos 1 ≡ h.start_point +ℤ pos (length c)
  pub nowhere_else : (j : ℤ) → (j <ℤ h.start_point) ⊎ (h.tip <ℤ j) → h.hdrs j ≡ none

pub record Represents (h : Headers) (c : List Entry) : Type 0 where
  pub sized : 0 < h.header_size
  pub maps : InMaps h c
  pub on_disk : h.file ≡ file_of c

module _ (h : Headers) where
  pub Stored-agree :
      (m m' : ℤ → Option BlockHeader) (c : List Entry)
      → ((i : ℕ) → i < length c → m' (h.start_point +ℤ pos i) ≡ m (h.start_point +ℤ pos i))
      → Stored h m c
      → Stored h m' c
  Stored-agree m m' [] same s = tt
  Stored-agree m m' (e ∷ c) same s = (
    s.0,
    s.1,
    same (length c) (omega arith) ∙ s.2,
    s.3,
    Stored-agree m m' c (λ i lt. same i (omega arith)) s.4,
  )

pub store_at_self :
    (k : ℤ) (b : BlockHeader) (m : ℤ → Option BlockHeader) → store_at k b m k ≡ some b
unfolding store_at
store_at_self k b m = ground arith

pub store_at_ne :
    (k j : ℤ) (b : BlockHeader) (m : ℤ → Option BlockHeader)
    → (j <ℤ k) ⊎ (k <ℤ j)
    → store_at k b m j ≡ m j
unfolding store_at
store_at_ne k j b m h = ground arith

pub delete_at_self : (k : ℤ) (m : ℤ → Option BlockHeader) → delete_at k m k ≡ none
unfolding delete_at
delete_at_self k m = ground arith

pub delete_at_ne :
    (k j : ℤ) (m : ℤ → Option BlockHeader) → (j <ℤ k) ⊎ (k <ℤ j) → delete_at k m j ≡ m j
unfolding delete_at
delete_at_ne k j m h = ground arith

delete_at-none :
    (k j : ℤ) (m : ℤ → Option BlockHeader)
    → ((j <ℤ k) ⊎ (k <ℤ j) → m j ≡ none)
    → delete_at k m j ≡ none
unfolding delete_at
delete_at-none k j m h = elim (Bool-cases (eqb_ℤ j k)) [
  | inl e ↦ rw e
  | inr e ↦ rw e (h (ground arith))
]

-- One more header goes on top of the chain.
pub put_hdr-InMaps :
    (h : Headers) (c : List Entry) (e : Entry) (at : ℤ)
    → at ≡ h.tip +ℤ pos 1
    → length e.raw ≡ h.header_size
    → header_of h.deserialize e.raw ≡ some e.header
    → Linked e c
    → InMaps h c
    → InMaps (record (put_hdr h at e.header) { tip = at }) (e ∷ c)
unfolding put_hdr
put_hdr-InMaps h c e at here size reads link i = record {
  stored = (
    size,
    reads,
    rw (← i.at_tip, ← here) (store_at_self at e.header h.hdrs),
    link,
    Stored-agree h h.hdrs (store_at at e.header h.hdrs) c
        (λ k lt.
          store_at_ne at _ e.header h.hdrs (inl (omega (int_laws, parts here, parts i.at_tip))))
        i.stored,
  );
  at_tip = omega (int_laws, parts here, parts i.at_tip);
  nowhere_else = λ j out.
      store_at_ne at j e.header h.hdrs (omega (int_laws, parts here, parts i.at_tip))
      ∙ i.nowhere_else j (omega (int_laws, parts here, parts i.at_tip));
}

-- The header at the tip goes.
pub remove_one_hdr_from_tip-InMaps :
    (h : Headers) (c : List Entry) (e : Entry)
    → InMaps h (e ∷ c)
    → InMaps (remove_one_hdr_from_tip h) c
unfolding remove_one_hdr_from_tip
remove_one_hdr_from_tip-InMaps h c e i = record {
  stored =
      Stored-agree h h.hdrs (delete_at h.tip h.hdrs) c
        (λ k lt. delete_at_ne h.tip _ h.hdrs (inl (omega (int_laws, parts i.at_tip)))) i.stored.4;
  at_tip = omega (int_laws, parts i.at_tip);
  nowhere_else = λ j out.
      delete_at-none h.tip j h.hdrs (λ ne. i.nowhere_else j (omega (int_laws, parts i.at_tip)));
}

pub length-file_of :
    (h : Headers) (m : ℤ → Option BlockHeader) (c : List Entry)
    → Stored h m c
    → length (file_of c) ≡ length c * h.header_size
unfolding file_of
length-file_of h m [] s = omega arith
length-file_of h m (e ∷ c) s =
    omega (arith, length-append (file_of c) e.raw, length-file_of h m c s.4, s.0)

-- Cutting whole headers off the end of the file takes them off the top of the chain.
pub take-file_of :
    (h : Headers) (m : ℤ → Option BlockHeader) (c : List Entry) (n k : ℕ)
    → Stored h m c
    → n ≤ length c
    → k + n * h.header_size ≡ length c * h.header_size
    → take k (file_of c) ≡ file_of (drop n c)
unfolding file_of
take-file_of h m c zero k s lt e = take_all k (file_of c) (omega (arith, length-file_of h m c s))
take-file_of h m [] (suc n) k s lt e = absurd (omega arith)
take-file_of h m (e ∷ c) (suc n) k s lt q =
    take-append_left k (file_of c) e.raw (omega (arith, length-file_of h m c s.4))
    ∙ take-file_of h m c n k s.4 (omega arith) (omega arith)

pub Stored-drop :
    (h : Headers) (m : ℤ → Option BlockHeader) (c : List Entry) (n : ℕ)
    → Stored h m c
    → Stored h m (drop n c)
Stored-drop h m c zero s = s
Stored-drop h m [] (suc n) s = tt
Stored-drop h m (e ∷ c) (suc n) s = Stored-drop h m c n s.4

-- A whole number of headers is counted exactly.
pub bytes_to_num_hdrs_exact :
    (h : Headers) (n k : ℕ)
    → 0 < h.header_size
    → k ≡ n * h.header_size
    → bytes_to_num_hdrs h k ≡ ok n
unfolding bytes_to_num_hdrs
bytes_to_num_hdrs_exact h n k size e =
    let whole : k % h.header_size ≡ 0 =
      ap (λ j. j % h.header_size) e ∙ mul-mod_left n h.header_size in
    let quotient : k / h.header_size ≡ n = div-eq_of_eq-mul_left size e in
    elim (Bool-cases (k == 0)) [
      | inl empty ↦
          let nothing : n ≡ 0 =
            sym quotient
            ∙ ap (λ j. j / h.header_size) ((==_iff k 0).0 empty)
            ∙ zero-div h.header_size in
          rw (empty, bytes_to_num_hdrs) (ap ok (sym nothing))
      | inr more ↦ ground arith
    ]
