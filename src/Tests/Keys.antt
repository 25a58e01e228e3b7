-- ===== src/Tests/Keys.antt =====
-- A bucket as a list of keys and records, under the theorems of the key records.
use go_electrum_client.Prelude.{
  some_injective, ℕ, ◌+◌, ◌≡◌, ◌≢◌, ◌∙◌, refl, sym, ap, inl, inr, Bool, true, false, Option, none,
  some, List, [], ◌∷◌, if◌then◌else◌, arith, Bool-cases,
}
use go_electrum_client.Prelude.Bytes.{bytes_eq, bytes_eq_iff, bytes_eq_refl, bytes_eq_of_ne}
use go_electrum_client.Prelude.Counts.{count}
use go_electrum_client.Prelude.Results.{ok}
use go_electrum_client.Keys.{
  KeyChange, external, KeyRec, Ops, put_key, put_rec, get_rec, mark_key_as_used, get_last_key_index,
}
use go_electrum_client.Keys.Bucket.{Lawful, one_if}
use go_electrum_client.Keys.Windows.{
  is_unused, window, Keyed, put_key-window, mark_key_as_used-window,
}
use go_electrum_client.Keys.LastIndex.{LastIndex, get_last_key_index-LastIndex}

abbrev pub Pairs : Type 0
Pairs = List (List ℕ × KeyRec)

unfoldable pub find : Pairs → List ℕ → Option KeyRec
find [] k = none
find ((j, r) ∷ l) k = if bytes_eq j k then some r else find l k

unfoldable pub replace : Pairs → List ℕ → KeyRec → Pairs
replace [] k r = (k, r) ∷ []
replace ((j, x) ∷ l) k r =
    let rest = replace l k r in if bytes_eq j k then (j, r) ∷ l else (j, x) ∷ rest

unfoldable pub erase : Pairs → List ℕ → Pairs
erase [] k = []
erase ((j, x) ∷ l) k = let rest = erase l k in if bytes_eq j k then rest else (j, x) ∷ rest

unfoldable pub records : Pairs → List KeyRec
records [] = []
records ((j, x) ∷ l) = x ∷ records l

abbrev pub pairs : Ops Pairs
pairs = record {
  reachable = λ b. true;
  get = find;
  put = replace;
  delete = erase;
  for_each = records;
}

find-replace_self : (l : Pairs) (k : List ℕ) (r : KeyRec) → find (replace l k r) k ≡ some r
unfolding find replace
find-replace_self [] k r = rw (bytes_eq_refl k) refl
find-replace_self ((j, x) ∷ l) k r = ground (arith, find-replace_self l k r)

find-replace_ne :
    (l : Pairs) (k j : List ℕ) (r : KeyRec) → j ≢ k → find (replace l k r) j ≡ find l j
unfolding find replace
find-replace_ne [] k j r ne = rw (bytes_eq_of_ne k j (λ e. ne (sym e))) refl
find-replace_ne ((i, x) ∷ l) k j r ne = elim (Bool-cases (bytes_eq i k)) [
  | inl here ↦
      let at : i ≡ k = (bytes_eq_iff i k).0 here in
      let other = bytes_eq_of_ne i j (λ e. ne (sym e ∙ at)) in ground (arith, other)
  | inr there ↦ ground (arith, find-replace_ne l k j r ne)
]

records-replace_new :
    (l : Pairs) (k : List ℕ) (r : KeyRec) (f : KeyRec → Bool)
    → find l k ≡ none
    → count f (records (replace l k r)) ≡ one_if (f r) + count f (records l)
unfolding find replace records
records-replace_new [] k r f e = ground arith
records-replace_new ((j, x) ∷ l) k r f e = elim (Bool-cases (bytes_eq j k)) [
  | inl here ↦ absurd (ground arith)
  | inr there ↦ ground (arith, records-replace_new l k r f (rw (there, find) at e))
]

records-replace_old :
    (l : Pairs) (k : List ℕ) (r x : KeyRec) (f : KeyRec → Bool)
    → find l k ≡ some x
    → one_if (f x) + count f (records (replace l k r)) ≡ one_if (f r) + count f (records l)
unfolding find replace records
records-replace_old [] k r x f e = absurd cc
records-replace_old ((j, y) ∷ l) k r x f e = elim (Bool-cases (bytes_eq j k)) [
  | inl here ↦
      let same : y ≡ x = some_injective (rw (here, find) at e) in
      let alike : f y ≡ f x = ap f same in ground (arith, here)
  | inr there ↦ ground (arith, records-replace_old l k r x f (rw (there, find) at e))
]

pub pairs-Lawful : Lawful pairs
pairs-Lawful = record {
  reachable_put = λ b k r. refl;
  get_put_self = find-replace_self;
  get_put_ne = find-replace_ne;
  walk_new = records-replace_new;
  walk_old = records-replace_old;
}

-- An address of 20 bytes.
abbrev pub address : ℕ → List ℕ
address k = k ∷ 0 ∷ 0 ∷ 0 ∷ 0 ∷ 0 ∷ 0 ∷ 0 ∷ 0 ∷ 0 ∷ 0 ∷ 0 ∷ 0 ∷ 0 ∷ 0 ∷ 0 ∷ 0 ∷ 0 ∷ 0 ∷ 0 ∷ []

abbrev key : ℕ → KeyRec
key k = record { script_address = address k; purpose = external; key_index = k; used = false }

abbrev pub one_key : Pairs
one_key = (address 0, key 0) ∷ []

one_key-Keyed : Keyed pairs one_key
unfolding find
one_key-Keyed k r e = elim (Bool-cases (bytes_eq (address 0) k)) [
  | inl same ↦
      let held : key 0 ≡ r = some_injective (rw (same, find) at e) in
      ap (λ (x : KeyRec). x.script_address) (sym held) ∙ (bytes_eq_iff (address 0) k).0 same
  | inr other ↦ absurd (ground arith)
]

get_last_key_index-LastIndex_example :
    LastIndex true (records one_key) external (get_last_key_index pairs one_key external)
get_last_key_index-LastIndex_example = get_last_key_index-LastIndex pairs one_key external

abbrev two_keys : Pairs
two_keys = (address 0, key 0) ∷ (address 1, key 1) ∷ []

second_put :
    put_key pairs one_key (address 1) (record { change = external; index = 1 }) ≡ ok two_keys
unfolding put_key put_rec replace bytes_eq
second_put = refl

second_new : find one_key (address 1) ≡ none
unfolding find bytes_eq
second_new = refl

put_key-window_example :
    (window pairs one_key external ≡ count (is_unused external) (pairs.for_each one_key))
    × (window pairs two_keys external ≡ 1 + window pairs one_key external)
    × Keyed pairs two_keys
put_key-window_example =
    put_key-window pairs one_key two_keys (address 1) (record { change = external; index = 1 })
      external pairs-Lawful one_key-Keyed second_new second_put

abbrev used_key : Pairs
used_key = (address 0, record (key 0) { used = true }) ∷ []

first_marked : mark_key_as_used pairs one_key (address 0) ≡ ok used_key
unfolding mark_key_as_used get_rec put_rec replace find bytes_eq
first_marked = refl

mark_key_as_used-window_example :
    (r : KeyRec) × (find one_key (address 0) ≡ some r)
    × (find used_key (address 0) ≡ some (record r { used = true }))
    × ((j : List ℕ) → j ≢ address 0 → find used_key j ≡ find one_key j)
    × ((p : KeyChange)
        → (window pairs one_key p ≡ count (is_unused p) (pairs.for_each one_key))
          × (one_if (is_unused p r) + window pairs used_key p ≡ window pairs one_key p))
    × Keyed pairs used_key
mark_key_as_used-window_example =
    mark_key_as_used-window pairs one_key used_key (address 0) pairs-Lawful one_key-Keyed
      first_marked
