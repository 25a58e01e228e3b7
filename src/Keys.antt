-- ===== src/Keys.antt =====
-- wallet/bdb/keys.go: the records of the wallet's keys, in one bucket of a bbolt database.
-- The bucket is an interface: bbolt is not part of this code, and neither is the JSON of a record,
-- which is taken to be read as it was written. `reachable` says whether the bucket can be reached.
pub mod Records
pub mod Bucket
pub mod Windows
pub mod LastIndex
use go_electrum_client.Prelude.{
  ℕ, zero, suc, ◌+◌, ◌≡◌, ◌≢◌, Bool, true, false, not, ◌&&◌, Option, none, some, List, [], ◌∷◌,
  ◌++◌, leb, ltb, ◌==◌, if◌then◌else◌, length,
}
use go_electrum_client.Prelude.Bytes.{bytes_eq}
use go_electrum_client.Prelude.Results.{Result, ok, err, panic, ◌>>=◌, ◌>>◌}

pub data KeyChange : Type 0 where
  external internal : KeyChange

abbrev pub is_same : KeyChange → KeyChange → Bool
is_same external external = true
is_same internal internal = true
is_same _ _ = false

pub record KeyPath : Type 0 where
  pub change : KeyChange
  pub index : ℕ

pub record KeyRec : Type 0 where
  pub script_address : List ℕ
  pub purpose : KeyChange
  pub key_index : ℕ
  pub used : Bool

pub data KeyError : Type 0 where
  bad_key_length bucket_not_found no_record : KeyError
  no_key_records no_key_records_for_purpose : KeyError
  no_unused_keys not_derived no_address still_deriving : KeyError

-- The calls of the database.
pub record Ops (B : Type 0) : Type 0 where
  pub reachable : B → Bool
  pub get : B → List ℕ → Option KeyRec
  pub put : B → List ℕ → KeyRec → B
  pub delete : B → List ℕ → B
  pub for_each : B → List KeyRec

-- The records sorted on their key index.
unfoldable pub insert_rec : KeyRec → List KeyRec → List KeyRec
insert_rec r [] = r ∷ []
insert_rec r (x ∷ l) =
    let later = insert_rec r l in if leb r.key_index x.key_index then r ∷ x ∷ l else x ∷ later

unfoldable pub sort_recs : List KeyRec → List KeyRec
sort_recs [] = []
sort_recs (r ∷ l) = insert_rec r (sort_recs l)

unfoldable pub of_purpose : KeyChange → List KeyRec → List KeyRec
of_purpose p [] = []
of_purpose p (r ∷ l) = let rest = of_purpose p l in if is_same r.purpose p then r ∷ rest else rest

-- krecListPurpose[lastRec]
unfoldable pub last_rec : List KeyRec → Option KeyRec
last_rec [] = none
last_rec (r ∷ l) = elim (last_rec l) [ none ↦ some r | some x ↦ some x ]

unfoldable pub unused_indices : KeyChange → List KeyRec → List ℕ
unused_indices p [] = []
unused_indices p (r ∷ l) =
    let rest = unused_indices p l in
    if is_same p r.purpose && not r.used then r.key_index ∷ rest else rest

unfoldable pub paths_of : List KeyRec → List KeyPath
paths_of [] = []
paths_of (r ∷ l) = record { change = r.purpose; index = r.key_index } ∷ paths_of l

-- The two counters of GetLookaheadWindows.
unfoldable pub unused_counts : List KeyRec → ℕ × ℕ
unused_counts [] = (0, 0)
unused_counts (r ∷ l) =
    let (ext, int) = unused_counts l in
    if r.used
    then (ext, int)
    else elim r.purpose [ external ↦ (suc ext, int) | internal ↦ (ext, suc int) ]

module _ {B : Type 0} (ops : Ops B) where
  abbrev reach : B → Result KeyError (Unit {0})
  reach b = if ops.reachable b then ok tt else err bucket_not_found

  abbrev check_length : List ℕ → Result KeyError (Unit {0})
  check_length key = if length key == 20 then ok tt else err bad_key_length

  unfoldable pub put_rec : B → KeyRec → Result KeyError B
  put_rec b r = do check_length r.script_address; reach b; ok (ops.put b r.script_address r)

  -- A missing value is no JSON.
  unfoldable pub get_rec : B → List ℕ → Result KeyError KeyRec
  get_rec b key = do
    check_length key
    reach b
    elim (ops.get b key) [ none ↦ err no_record | some r ↦ ok r ]

  unfoldable pub get_all_sorted : B → Result KeyError (List KeyRec)
  get_all_sorted b = do reach b; ok (sort_recs (ops.for_each b))

  unfoldable pub put_key : B → List ℕ → KeyPath → Result KeyError B
  put_key b a path =
      put_rec b
        (record { script_address = a; purpose = path.change; key_index = path.index; used = false })

  unfoldable pub mark_key_as_used : B → List ℕ → Result KeyError B
  mark_key_as_used b a = do r ← get_rec b a; put_rec b (record r { used = true })

  unfoldable pub get_last_key_index : B → KeyChange → Result KeyError (ℕ × Bool)
  get_last_key_index b p = do
    l ← get_all_sorted b
    if length l == 0 then err no_key_records else elim (last_rec (of_purpose p l)) [
      | none ↦ err no_key_records_for_purpose
      | some r ↦ ok (r.key_index, r.used)
    ]

  unfoldable pub get_path_for_key : B → List ℕ → Result KeyError KeyPath
  get_path_for_key b a = do r ← get_rec b a; ok (record { change = r.purpose; index = r.key_index })

  unfoldable pub get_unused : B → KeyChange → Result KeyError (List ℕ)
  get_unused b p = do l ← get_all_sorted b; ok (unused_indices p l)

  unfoldable pub get_all : B → Result KeyError (List KeyPath)
  get_all b = do l ← get_all_sorted b; ok (paths_of l)

  unfoldable pub get_lookahead_windows : B → ℕ × ℕ
  get_lookahead_windows b = elim (get_all_sorted b) [ ok l ↦ unused_counts l | _ ↦ (0, 0) ]

  unfoldable pub is_key_used : B → List ℕ → Result KeyError Bool
  is_key_used b a = do r ← get_rec b a; ok r.used

  unfoldable pub delete_rec : B → List ℕ → Result KeyError B
  delete_rec b key = do check_length key; reach b; ok (ops.delete b key)
