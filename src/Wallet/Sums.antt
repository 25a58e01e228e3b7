-- ===== src/Wallet/Sums.antt =====
-- Sums of int64 values that wrap around at each step, as Go adds them.
use go_electrum_client.Prelude.{
  ℕ, ◌+◌, ◌-◌, ◌*◌, ◌/◌, ◌%◌, ◌^◌, ◌≡◌, sym, ap, ◌∙◌, ltb, arith, List, [], ◌∷◌, if◌then◌else◌,
}
use go_electrum_client.Prelude.Int.{
  ℤ, pos, negsuc, ◌+ℤ◌, ◌-ℤ◌, wrap64, pos_part, neg_part, int_laws, +ℤ_parts, -ℤ_parts,
}

-- The residue of an integer.
residue : ℤ → ℕ
residue (pos n) = n % 2 ^ 64
residue (negsuc n) = 2 ^ 64 - 1 - n % 2 ^ 64

of_residue : ℕ → ℤ
of_residue m = if ltb m (2 ^ 63) then pos m else negsuc (2 ^ 64 - 1 - m)

wrap64-residue : (z : ℤ) → wrap64 z ≡ of_residue (residue z)
unfolding wrap64 residue of_residue
wrap64-residue (pos n) = ground arith
wrap64-residue (negsuc n) = ground arith

residue_lem : (z : ℤ) → residue z ≡ (pos_part z + 2 ^ 64 - neg_part z % 2 ^ 64) % 2 ^ 64
unfolding residue
residue_lem (pos n) = omega arith
residue_lem (negsuc n) = omega arith

residue_of_eq :
    (a b : ℤ) (j k : ℕ)
    → pos_part a + neg_part b + j * 2 ^ 64 ≡ pos_part b + neg_part a + k * 2 ^ 64
    → residue a ≡ residue b
unfolding residue
residue_of_eq (pos a) (pos b) j k e = omega arith
residue_of_eq (pos a) (negsuc b) j k e = omega arith
residue_of_eq (negsuc a) (pos b) j k e = omega arith
residue_of_eq (negsuc a) (negsuc b) j k e = omega arith

-- Wrapping changes an integer by a multiple of the modulus.
abbrev Congruent : ℤ → ℤ → Type 0
Congruent a b =
    (j : ℕ) × (k : ℕ) × (pos_part a + neg_part b + j * 2 ^ 64
      ≡ pos_part b + neg_part a + k * 2 ^ 64)

wrap64-Congruent : (z : ℤ) → Congruent (wrap64 z) z
unfolding wrap64
wrap64-Congruent (pos n) =
    (n / 2 ^ 64 + (if ltb (n % 2 ^ 64) (2 ^ 63) then 0 else 1), 0, ground arith)
wrap64-Congruent (negsuc n) =
    (0, n / 2 ^ 64 + (if ltb (n % 2 ^ 64) (2 ^ 63) then 0 else 1), ground arith)

pub wrap64-wrap64_add : (a b : ℤ) → wrap64 (wrap64 a +ℤ b) ≡ wrap64 (a +ℤ b)
wrap64-wrap64_add a b =
    let (j, k, e) = wrap64-Congruent a in
    wrap64-residue (wrap64 a +ℤ b)
    ∙ ap of_residue (
        residue_of_eq (wrap64 a +ℤ b) (a +ℤ b) j k
          (omega (arith, +ℤ_parts (wrap64 a) b, +ℤ_parts a b)))
    ∙ sym (wrap64-residue (a +ℤ b))

pub wrap64-wrap64_sub : (a b : ℤ) → wrap64 (wrap64 a -ℤ b) ≡ wrap64 (a -ℤ b)
wrap64-wrap64_sub a b =
    let (j, k, e) = wrap64-Congruent a in
    wrap64-residue (wrap64 a -ℤ b)
    ∙ ap of_residue (
        residue_of_eq (wrap64 a -ℤ b) (a -ℤ b) j k
          (omega (arith, -ℤ_parts (wrap64 a) b, -ℤ_parts a b)))
    ∙ sym (wrap64-residue (a -ℤ b))

pub +ℤ_comm : (a b : ℤ) → a +ℤ b ≡ b +ℤ a
+ℤ_comm a b = omega (int_laws, +ℤ_parts a b, +ℤ_parts b a)

pub wrap64-add_wrap64 : (a b : ℤ) → wrap64 (a +ℤ wrap64 b) ≡ wrap64 (a +ℤ b)
wrap64-add_wrap64 a b =
    ap wrap64 (+ℤ_comm a (wrap64 b)) ∙ wrap64-wrap64_add b a ∙ ap wrap64 (+ℤ_comm b a)

pub +ℤ_assoc : (a b c : ℤ) → (a +ℤ b) +ℤ c ≡ a +ℤ (b +ℤ c)
+ℤ_assoc a b c = omega int_laws

pub zero_add : (a : ℤ) → pos 0 +ℤ a ≡ a
zero_add a = omega int_laws

-- The sum of what the elements of a list are worth.
unfoldable pub sum_of : {V : Type 0} → (V → ℤ) → List V → ℤ
sum_of f [] = pos 0
sum_of f (v ∷ l) = f v +ℤ sum_of f l
