-- ===== src/Datastore/OutPoints.antt =====
-- NewOutPointFromString of wallet/util.go, which reads back what OutPoint.String prints.
-- The texts of hashes are those of chainhash, arguments here; strconv and strings are written out.
pub mod Printed
use go_electrum_client.Prelude.{
  ℕ, zero, suc, ◌+◌, ◌-◌, ◌*◌, ◌/◌, ◌%◌, ◌^◌, ◌<◌, ◌≤◌, ◌≡◌, refl, sym, ap, ◌∙◌, inl, inr, Bool,
  true, false, ◌&&◌, Option, none, some, List, [], ◌∷◌, ◌++◌, arith, leb, ltb, ◌==◌, if◌then◌else◌,
  Bool-cases,
}
use go_electrum_client.Datastore.{OutPoint}

-- strings.Split at a one-byte separator.
unfoldable pub split : ℕ → List ℕ → List (List ℕ)
split k [] = [] ∷ []
split k (c ∷ s) = elim (split k s) [
  | [] ↦ []
  | p ∷ ps ↦ if c == k then [] ∷ p ∷ ps else (c ∷ p) ∷ ps
]

abbrev is_digit : ℕ → Bool
is_digit c = leb 48 c && leb c 57

unfoldable all_digits : List ℕ → Bool
all_digits [] = true
all_digits (c ∷ s) = is_digit c && all_digits s

-- The number that digits stand for, after those that make up `v`.
unfoldable digits_value : ℕ → List ℕ → ℕ
digits_value v [] = v
digits_value v (c ∷ s) = digits_value (v * 10 + (c - 48)) s

-- strconv.ParseUint(s, 10, 32)
unfoldable pub parse_uint : List ℕ → Option ℕ
unfolding all_digits digits_value
parse_uint [] = none
parse_uint (c ∷ s) =
    let v = digits_value 0 (c ∷ s) in if all_digits (c ∷ s) && ltb v (2 ^ 32) then some v else none

-- The decimal text of a number below ten to the power of the fuel.
unfoldable pub decimal : ℕ → ℕ → List ℕ
decimal zero n = []
decimal (suc fuel) n =
    let front = decimal fuel (n / 10) in
    if ltb n 10 then (48 + n) ∷ [] else front ++ (48 + n % 10) ∷ []

-- The texts of chainhash.Hash and wire.OutPoint.
pub record HashTexts : Type 0 where
  pub hash_string : List ℕ → List ℕ
  pub hash_from_str : List ℕ → Option (List ℕ)
  pub op_string : OutPoint → List ℕ

module _ (texts : HashTexts) where
  unfoldable pub new_out_point : List ℕ → ℕ → Option OutPoint
  new_out_point txid out = elim (texts.hash_from_str txid) [
    | none ↦ none
    | some h ↦ some (record { hash = h; index = out })
  ]

  unfoldable pub index_of : List ℕ → List ℕ → Option OutPoint
  index_of hash s = elim (parse_uint s) [
    | none ↦ none
    | some i ↦ some (record { hash = hash; index = i % 2 ^ 32 })
  ]

  unfoldable pub new_out_point_from_string : List ℕ → Option OutPoint
  unfolding index_of
  new_out_point_from_string s = elim (split 58 s) [
    | p ∷ q ∷ [] ↦ elim (texts.hash_from_str p) [ none ↦ none | some h ↦ index_of h q ]
    | _ ↦ none
  ]
