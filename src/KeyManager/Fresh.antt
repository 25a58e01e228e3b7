-- ===== src/KeyManager/Fresh.antt =====
-- GetFreshKey and lookahead of wallet/wltbtc/keys.go.
use go_electrum_client.Prelude.{
  ℕ, zero, suc, length, ◌+◌, ◌<◌, false, ◌%◌, ◌^◌, ◌≤◌, ◌≡◌, ◌∙◌, refl, sym, ap, subst, inl, inr,
  Bool, true, ◌&&◌, some, List, [], ◌∷◌, leb, ltb, arith, Option-cases,
}
use go_electrum_client.Prelude.Counts.{count, count_mono}
use go_electrum_client.Prelude.Results.{Result, ok, err, panic, Result-cases, ok_injective}
use go_electrum_client.Keys.{
  KeyChange, is_same, KeyRec, KeyError, bad_key_length, bucket_not_found, no_record, no_key_records,
  no_key_records_for_purpose, no_unused_keys, not_derived, no_address, still_deriving, Ops, put_key,
  put_rec, get_last_key_index,
}
use go_electrum_client.Keys.LastIndex.{LastIndex, get_last_key_index-LastIndex}
use go_electrum_client.KeyManager.{Hd, generate_child_key, find_child, first_index, get_fresh_key}

-- No record of the purpose has an index from `i` on.
abbrev pub Above : ℕ → KeyChange → List KeyRec → Type 0
Above i p l = count (λ r. is_same r.purpose p && leb i r.key_index) l ≡ 0

self_le : (i : ℕ) → i ≤ i
self_le i = omega arith

Above-LastIndex :
    (l : List KeyRec) (p : KeyChange) (r : Result KeyError (ℕ × Bool))
    → LastIndex true l p r
    → Above (first_index r) p l
Above-LastIndex l p (ok (i, u)) h =
    let fewer =
      count_mono (λ r. is_same r.purpose p && leb (suc i) r.key_index)
        (λ r. is_same r.purpose p && ltb i r.key_index) l (λ r e. ground arith) in
    omega (arith, fewer, h.0)
Above-LastIndex l p (err bucket_not_found) h = absurd cc
Above-LastIndex [] p (err no_key_records) h = refl
Above-LastIndex (x ∷ l) p (err no_key_records) h = absurd (omega arith)
Above-LastIndex l p (err no_key_records_for_purpose) h =
    let fewer =
      count_mono (λ r. is_same r.purpose p && leb 0 r.key_index) (λ r. is_same r.purpose p) l
        (λ r e. ground arith) in
    omega (arith, fewer, h.1)
Above-LastIndex l p (err bad_key_length) h = absurd h
Above-LastIndex l p (err no_record) h = absurd h
Above-LastIndex l p (err no_unused_keys) h = absurd h
Above-LastIndex l p (err not_derived) h = absurd h
Above-LastIndex l p (err no_address) h = absurd h
Above-LastIndex l p (err still_deriving) h = absurd h
Above-LastIndex l p panic h = absurd h

Above-mono : (i j : ℕ) (p : KeyChange) (l : List KeyRec) → i ≤ j → Above i p l → Above j p l
Above-mono i j p l le h =
    let fewer =
      count_mono (λ r. is_same r.purpose p && leb j r.key_index)
        (λ r. is_same r.purpose p && leb i r.key_index) l (λ r e. ground arith) in
    omega (arith, fewer, h)

module _ {K B : Type 0} (hd : Hd K) (ops : Ops B) where
  -- One key more: recorded unused under its address, at an index above all of its purpose.
  pub record Next (p : KeyChange) (b c : B) (k : K) : Type 0 where
    pub index : ℕ
    pub address : List ℕ
    pub derived : hd.derive p (index % 2 ^ 32) ≡ some k
    pub addressed : hd.script_address k ≡ some address
    pub there : ops.reachable b ≡ true
    pub recorded :
        c
        ≡ ops.put b address
            (record { script_address = address; purpose = p; key_index = index; used = false })
    pub above : Above index p (ops.for_each b)

  find_child_ok :
      (fuel : ℕ) (p : KeyChange) (i j : ℕ) (k : K)
      → find_child hd ops fuel p i ≡ ok (k, j)
      → (hd.derive p (j % 2 ^ 32) ≡ some k) × (i ≤ j)
  unfolding find_child generate_child_key
  find_child_ok zero p i j k e = absurd cc
  find_child_ok (suc fuel) p i j k e = elim (Option-cases (hd.derive p (i % 2 ^ 32))) [
    | inl gone ↦
        let (derived, le) = find_child_ok fuel p (suc i) j k (rw (gone, find_child) at e) in
        (derived, omega (arith, le))
    | inr (x, q) ↦
        let same : (x, i) ≡ (k, j) = ok_injective (rw (q, find_child) at e) in
        let here : i ≡ j = ap (λ (y : K × ℕ). y.1) same in
        let le : i ≤ j = subst (λ n. i ≤ n) here (self_le i) in
        (subst (λ n. hd.derive p (n % 2 ^ 32) ≡ some k) here (q ∙ ap (λ y. some y.0) same), le)
  ]

  put_key_ok :
      (b c : B) (a : List ℕ) (p : KeyChange) (i : ℕ)
      → put_key ops b a (record { change = p; index = i }) ≡ ok c
      → (ops.reachable b ≡ true)
        × (c
            ≡ ops.put b a (record { script_address = a; purpose = p; key_index = i; used = false }))
  unfolding put_key put_rec
  put_key_ok b c a p i e = ground arith

  put_key_total :
      (b : B) (a : List ℕ) (p : KeyChange) (i : ℕ)
      → length a ≡ 20
      → ops.reachable b ≡ true
      → put_key ops b a (record { change = p; index = i })
        ≡ ok (ops.put b a (record { script_address = a; purpose = p; key_index = i; used = false }))
  unfolding put_key put_rec
  put_key_total b a p i size up = rw (size, up) refl

  -- Among the next indices, as many as there is fuel, some key can be derived.
  abbrev pub Derives : ℕ → KeyChange → ℕ → Type 0
  Derives fuel p i = (j : ℕ) × (k : K) × (j < fuel) × (hd.derive p ((i + j) % 2 ^ 32) ≡ some k)

  -- Every key that can be derived has a script address, of 20 bytes.
  abbrev pub HaveAddresses : Type 0
  HaveAddresses =
      (p : KeyChange) (i : ℕ) (k : K)
      → hd.derive p i ≡ some k
      → (a : List ℕ) × (hd.script_address k ≡ some a) × (length a ≡ 20)

  add_zero : (a : ℕ) → a + 0 ≡ a
  add_zero a = omega arith

  find_child_total :
      (fuel : ℕ) (p : KeyChange) (i : ℕ)
      → Derives fuel p i
      → (k : K) × (j : ℕ) × (find_child hd ops fuel p i ≡ ok (k, j))
  unfolding find_child generate_child_key
  find_child_total zero p i (j, k, lt, e) = absurd (omega arith)
  find_child_total (suc fuel) p i (zero, k, lt, e) =
      let here : hd.derive p (i % 2 ^ 32) ≡ some k =
        subst (λ n. hd.derive p (n % 2 ^ 32) ≡ some k) (add_zero i) e in
      (k, i, rw (here, find_child) refl)
  find_child_total (suc fuel) p i (suc j, k, lt, e) =
      elim (Option-cases (hd.derive p (i % 2 ^ 32))) [
        | inr (x, q) ↦ (x, i, rw (q, find_child) refl)
        | inl gone ↦
            let (y, n, found) =
              find_child_total fuel p (suc i) (
                j,
                k,
                omega arith,
                subst (λ n. hd.derive p (n % 2 ^ 32) ≡ some k) (add_suc i j) e,
              ) in
            (y, n, rw (gone, find_child) found)
      ]
    where
      add_suc : (a b : ℕ) → a + suc b ≡ suc a + b
      add_suc a b = omega arith

  fresh_Next :
      (fuel : ℕ) (b c : B) (p : KeyChange) (k : K)
      → get_fresh_key hd ops fuel b p ≡ ok (c, k)
      → Next p b c k
  unfolding get_fresh_key
  fresh_Next fuel b c p k e =
      let start : ℕ = first_index (get_last_key_index ops b p) in
      elim (Result-cases (find_child hd ops fuel p start)) [
        | inl ((x, i), found) ↦ elim (Option-cases (hd.script_address x)) [
          | inl gone ↦ absurd (ground (arith, found, gone))
          | inr (a, q) ↦ elim (Result-cases (put_key ops b a (record { change = p; index = i }))) [
            | inl (d, put) ↦
                let run : get_fresh_key hd ops fuel b p ≡ ok (d, x) =
                  rw (found, get_fresh_key, q, put) refl in
                let same : (d, x) ≡ (c, k) = ok_injective (sym run ∙ e) in
                let (derived, le) = find_child_ok fuel p start i x found in
                let (up, made) = put_key_ok b d a p i put in
                let last =
                  subst (λ z. LastIndex z (ops.for_each b) p (get_last_key_index ops b p)) up
                    (get_last_key_index-LastIndex ops b p) in
                record {
                  index = i;
                  address = a;
                  derived = derived ∙ ap (λ y. some y.1) same;
                  addressed = ap hd.script_address (sym (ap (λ y. y.1) same)) ∙ q;
                  there = up;
                  recorded = sym (ap (λ y. y.0) same) ∙ made;
                  above =
                      Above-mono start i p (ops.for_each b) le
                        (Above-LastIndex (ops.for_each b) p (get_last_key_index ops b p) last);
                }
            | inr (inl (y, bad)) ↦ absurd (ground (arith, found, q, bad))
            | inr (inr bad) ↦ absurd (ground (arith, found, q, bad))
          ]
        ]
        | inr (inl (y, bad)) ↦ absurd (ground (arith, bad))
        | inr (inr bad) ↦ absurd (ground (arith, bad))
      ]

  -- Where some key can be derived among as many next indices as there is fuel, GetFreshKey gives a
  -- key, if the bucket can be reached and keys have script addresses of 20 bytes. It is derived at an index
  -- above all indices of its purpose, and its record is then put into the bucket, unused, under
  -- its own address.
  pub get_fresh_key-Next :
      (fuel : ℕ) (b : B) (p : KeyChange)
      → Derives fuel p (first_index (get_last_key_index ops b p))
      → HaveAddresses
      → ops.reachable b ≡ true
      → (c : B) × (k : K) × (get_fresh_key hd ops fuel b p ≡ ok (c, k)) × Next p b c k
  unfolding get_fresh_key
  get_fresh_key-Next fuel b p derives addresses up =
      let start : ℕ = first_index (get_last_key_index ops b p) in
      let (k, i, found) = find_child_total fuel p start derives in
      let (derived, le) = find_child_ok fuel p start i k found in
      let (a, q, size) = addresses p (i % 2 ^ 32) k derived in
      let c : B =
        ops.put b a (record { script_address = a; purpose = p; key_index = i; used = false }) in
      let run : get_fresh_key hd ops fuel b p ≡ ok (c, k) =
        rw (found, get_fresh_key, q, put_key_total b a p i size up) refl in
      (c, k, run, fresh_Next fuel b c p k run)
