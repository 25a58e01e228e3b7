-- ===== src/Datastore/OutPoints/Printed.antt =====
-- NewOutPointFromString of wallet/util.go on the texts that OutPoint.String prints.
use go_electrum_client.Prelude.{
  ℕ, zero, suc, ◌+◌, ◌-◌, ◌*◌, ◌/◌, ◌%◌, ◌^◌, ◌<◌, ◌≡◌, refl, sym, ap, ◌∙◌, inl, inr, true, false,
  some, List, [], ◌∷◌, ◌++◌, arith, ltb, Bool-cases, length,
}
use native.Mathlib.Nat.{pow-succ'}
use go_electrum_client.Prelude.Ip.{contains}
use go_electrum_client.Datastore.{OutPoint}
use go_electrum_client.Datastore.OutPoints.{
  is_digit, all_digits, digits_value, parse_uint, decimal, split, HashTexts,
  new_out_point_from_string, index_of,
}

-- What chainhash and wire document: a hash prints as a text with no colon, which reads back, and an
-- output point prints as that text, a colon and the index.
pub record Prints (texts : HashTexts) : Type 0 where
  pub no_colon : (h : List ℕ) → contains 58 (texts.hash_string h) ≡ false
  pub reads_back : (h : List ℕ) → length h ≡ 32 → texts.hash_from_str (texts.hash_string h) ≡ some h
  pub op_string_lem :
      (op : OutPoint) → texts.op_string op ≡ texts.hash_string op.hash ++ 58 ∷ decimal 10 op.index

abbrev pub IsOutPoint : OutPoint → Type 0
IsOutPoint op = (length op.hash ≡ 32) × (op.index < 2 ^ 32)

all_digits-append_one :
    (s : List ℕ) (c : ℕ) → all_digits s ≡ true → is_digit c ≡ true → all_digits (s ++ c ∷ []) ≡ true
unfolding all_digits
all_digits-append_one [] c h k = ground arith
all_digits-append_one (d ∷ s) c h k = ground (arith, all_digits-append_one s c)

digits_value-append_one :
    (v : ℕ) (s : List ℕ) (c : ℕ) → digits_value v (s ++ c ∷ []) ≡ digits_value v s * 10 + (c - 48)
unfolding digits_value
digits_value-append_one v [] c = refl
digits_value-append_one v (d ∷ s) c = digits_value-append_one (v * 10 + (d - 48)) s c

all_digits-decimal : (fuel n : ℕ) → all_digits (decimal fuel n) ≡ true
unfolding decimal all_digits
all_digits-decimal zero n = refl
all_digits-decimal (suc fuel) n = elim (Bool-cases (ltb n 10)) [
  | inl small ↦ ground arith
  | inr large ↦ rw large (
      all_digits-append_one (decimal fuel (n / 10)) (48 + n % 10) (all_digits-decimal fuel (n / 10))
        (ground arith))
]

div_below : (fuel n : ℕ) → n < 10 ^ suc fuel → n / 10 < 10 ^ fuel
div_below fuel n h = let h' : n < 10 * 10 ^ fuel = rw (← pow-succ' 10 fuel) h in omega arith

digits_value-decimal : (fuel n : ℕ) → n < 10 ^ fuel → digits_value 0 (decimal fuel n) ≡ n
unfolding decimal digits_value
digits_value-decimal zero n h = omega arith
digits_value-decimal (suc fuel) n h = elim (Bool-cases (ltb n 10)) [
  | inl small ↦ ground arith
  | inr large ↦
      let ih = digits_value-decimal fuel (n / 10) (div_below fuel n h) in
      rw large (digits_value-append_one 0 (decimal fuel (n / 10)) (48 + n % 10) ∙ omega (arith, ih))
]

-- A text without the separator is one part, and one before a separator is the first part.
split_alone : (k : ℕ) (s : List ℕ) → contains k s ≡ false → split k s ≡ s ∷ []
unfolding split
split_alone k [] h = refl
split_alone k (c ∷ s) h = ground (arith, split_alone k s)

split_two :
    (k : ℕ) (s t : List ℕ)
    → contains k s ≡ false
    → contains k t ≡ false
    → split k (s ++ k ∷ t) ≡ s ∷ t ∷ []
unfolding split
split_two k [] t h g = ground (arith, split_alone k t g)
split_two k (c ∷ s) t h g = ground (arith, split_two k s t)

contains-digits : (s : List ℕ) → all_digits s ≡ true → contains 58 s ≡ false
unfolding all_digits
contains-digits [] h = refl
contains-digits (c ∷ s) h = ground (arith, contains-digits s)

cons_of_append : (s : List ℕ) (d : ℕ) → (c : ℕ) × (t : List ℕ) × (s ++ d ∷ [] ≡ c ∷ t)
cons_of_append [] d = (d, [], refl)
cons_of_append (c ∷ s) d = (c, s ++ d ∷ [], refl)

decimal_cons : (fuel n : ℕ) → (c : ℕ) × (s : List ℕ) × (decimal (suc fuel) n ≡ c ∷ s)
unfolding decimal
decimal_cons fuel n = elim (Bool-cases (ltb n 10)) [
  | inl small ↦ (48 + n, [], rw small refl)
  | inr large ↦
      let (c, s, e) = cons_of_append (decimal fuel (n / 10)) (48 + n % 10) in (c, s, rw large e)
]

parse_uint_lem :
    (c : ℕ) (s : List ℕ) (v : ℕ)
    → all_digits (c ∷ s) ≡ true
    → digits_value 0 (c ∷ s) ≡ v
    → v < 2 ^ 32
    → parse_uint (c ∷ s) ≡ some v
unfolding parse_uint
parse_uint_lem c s v d e h = ground arith

-- ParseUint reads the decimal text of a number of 32 bits.
parse_uint-decimal : (n : ℕ) → n < 2 ^ 32 → parse_uint (decimal 10 n) ≡ some n
parse_uint-decimal n h =
    let (c, s, e) = decimal_cons 9 n in
    rw e (
      parse_uint_lem c s n (ap all_digits (sym e) ∙ all_digits-decimal 10 n)
        (ap (digits_value 0) (sym e) ∙ digits_value-decimal 10 n (omega arith)) h)

-- What an output point prints as, NewOutPointFromString reads as that output point.
pub new_out_point_from_string-op_string :
    (texts : HashTexts) (op : OutPoint)
    → Prints texts
    → IsOutPoint op
    → new_out_point_from_string texts (texts.op_string op) ≡ some op
unfolding new_out_point_from_string index_of
new_out_point_from_string-op_string texts op laws fits =
    rw (laws.op_string_lem op, new_out_point_from_string)
      (rw
        (split_two 58 (texts.hash_string op.hash) (decimal 10 op.index) (laws.no_colon op.hash)
          (contains-digits (decimal 10 op.index) (all_digits-decimal 10 op.index)))
        (rw (laws.reads_back op.hash fits.0, index_of)
          (rw (parse_uint-decimal op.index fits.1, index_of) (ground arith))))
