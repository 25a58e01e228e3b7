-- ===== src/KeyManager.antt =====
-- wallet/wltbtc/keys.go: the keys of a wallet, derived from its master key and recorded.
-- Derivation and addresses are arguments (hdkeychain is not part of this code).
pub mod Fresh
pub mod Ahead
use go_electrum_client.Prelude.{
  ℕ, zero, suc, ◌-◌, ◌%◌, ◌^◌, Bool, Option, none, some, List, [], ◌∷◌, if◌then◌else◌, ltb,
}
use go_electrum_client.Prelude.Results.{Result, ok, err, panic, ◌>>=◌, ◌>>◌}
use go_electrum_client.Keys.{
  KeyChange, external, internal, KeyPath, KeyError, no_unused_keys, not_derived, no_address,
  still_deriving, Ops, put_key, mark_key_as_used, get_last_key_index, get_unused, get_all,
  get_path_for_key, get_lookahead_windows,
}

abbrev pub gap_limit : ℕ
gap_limit = 10

-- The keys below the internal and the external key of the account.
pub record Hd (K : Type 0) : Type 0 where
  pub derive : KeyChange → ℕ → Option K
  pub script_address : K → Option (List ℕ)

abbrev pub other_change : KeyChange → KeyChange
other_change external = internal
other_change internal = external

-- The index after the last one, or zero where GetLastKeyIndex fails.
abbrev pub first_index : Result KeyError (ℕ × Bool) → ℕ
first_index (ok (i, _)) = suc i
first_index _ = 0

abbrev pub size_of : ℕ × ℕ → KeyChange → ℕ
size_of windows external = windows.0
size_of windows internal = windows.1

module _ {K B : Type 0} (hd : Hd K) (ops : Ops B) where
  -- An index is converted to uint32.
  unfoldable pub generate_child_key : KeyChange → ℕ → Option K
  generate_child_key p i = hd.derive p (i % 2 ^ 32)

  abbrev child : KeyChange → ℕ → Result KeyError K
  child p i = elim (generate_child_key p i) [ none ↦ err not_derived | some k ↦ ok k ]

  unfoldable pub get_unused_key : B → KeyChange → Result KeyError K
  get_unused_key b p = do
    indices ← get_unused ops b p
    elim indices [ [] ↦ err no_unused_keys | i ∷ _ ↦ child p i ]

  -- The loop of GetFreshKey over indices from `i` on, for at most `fuel` of them.
  unfoldable pub find_child : ℕ → KeyChange → ℕ → Result KeyError (K × ℕ)
  find_child zero p i = err still_deriving
  find_child (suc fuel) p i =
      let later = find_child fuel p (suc i) in
      elim (generate_child_key p i) [ none ↦ later | some k ↦ ok (k, i) ]

  unfoldable pub get_fresh_key : ℕ → B → KeyChange → Result KeyError (B × K)
  get_fresh_key fuel b p = do
    (k, i) ← find_child fuel p (first_index (get_last_key_index ops b p))
    a ← elim (hd.script_address k) [ none ↦ err no_address | some x ↦ ok x ]
    c ← put_key ops b a (record { change = p; index = i })
    ok (c, k)

  -- Paths whose key cannot be derived are left out.
  unfoldable pub keys_of : List KeyPath → List K
  keys_of [] = []
  keys_of (x ∷ l) =
      let rest = keys_of l in
      elim (generate_child_key x.change x.index) [ none ↦ rest | some k ↦ k ∷ rest ]

  unfoldable pub get_keys : B → List K
  get_keys b = elim (get_all ops b) [ ok l ↦ keys_of l | _ ↦ [] ]

  unfoldable pub get_key_for_script : B → List ℕ → Result KeyError K
  get_key_for_script b a = do path ← get_path_for_key ops b a; child path.change path.index

  -- The inner loop of lookahead, with `n` keys missing.
  unfoldable pub add_keys : ℕ → ℕ → B → KeyChange → Result KeyError B
  add_keys fuel zero b p = ok b
  add_keys fuel (suc n) b p = do (c, _) ← get_fresh_key fuel b p; add_keys fuel n c p

  -- The map of windows is walked in any order: `first` comes first.
  unfoldable pub lookahead : ℕ → KeyChange → B → Result KeyError B
  lookahead fuel first b = do
    let windows = get_lookahead_windows ops b
    c ← add_keys fuel (gap_limit - size_of windows first) b first
    add_keys fuel (gap_limit - size_of windows (other_change first)) c (other_change first)

  unfoldable pub mark_used : ℕ → KeyChange → B → List ℕ → Result KeyError B
  mark_used fuel first b a = do c ← mark_key_as_used ops b a; lookahead fuel first c
