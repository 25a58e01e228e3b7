-- ===== src/Keys/Windows.antt =====
-- GetLookaheadWindows and MarkKeyAsUsed of wallet/bdb/keys.go: how many keys are unused.
use go_electrum_client.Prelude.{
  some_injective, ℕ, ◌+◌, ◌≡◌, ◌≢◌, ◌∙◌, refl, sym, ap, subst, inl, inr, Bool, true, false, ◌&&◌,
  not, none, some, List, [], ◌∷◌, arith, Bool-cases, Option-cases,
}
use go_electrum_client.Prelude.Bytes.{bytes_eq, bytes_eq_iff}
use go_electrum_client.Prelude.Counts.{count}
use go_electrum_client.Prelude.Results.{ok, Result-cases}
use go_electrum_client.Keys.{
  KeyChange, external, internal, is_same, KeyPath, KeyRec, Ops, sort_recs, unused_counts,
  get_lookahead_windows, get_all_sorted, put_rec, get_rec, put_key, mark_key_as_used,
}
use go_electrum_client.Keys.Records.{count-sort_recs}
use go_electrum_client.Keys.Bucket.{Lawful, one_if}

abbrev pub is_unused : KeyChange → KeyRec → Bool
is_unused p r = not r.used && is_same r.purpose p

-- The window of a purpose.
abbrev pub window : {B : Type 0} → Ops B → B → KeyChange → ℕ
window ops b external = (get_lookahead_windows ops b).0
window ops b internal = (get_lookahead_windows ops b).1

unused_counts_lem :
    (l : List KeyRec)
    → unused_counts l ≡ (count (is_unused external) l, count (is_unused internal) l)
unfolding unused_counts
unused_counts_lem [] = refl
unused_counts_lem (r ∷ l) = ground (arith, unused_counts_lem l)

false_ne_true : false ≢ true
false_ne_true e = cc

module _ {B : Type 0} (ops : Ops B) where
  -- The windows of a bucket that can be reached are the numbers of its unused keys.
  pub window-count :
      (b : B) (p : KeyChange)
      → ops.reachable b ≡ true
      → window ops b p ≡ count (is_unused p) (ops.for_each b)
  unfolding get_lookahead_windows get_all_sorted
  window-count b external up =
      rw (up, window, get_lookahead_windows)
        (ap (λ q. q.0) (unused_counts_lem (sort_recs (ops.for_each b)))
          ∙ count-sort_recs (is_unused external) (ops.for_each b))
  window-count b internal up =
      rw (up, window, get_lookahead_windows)
        (ap (λ q. q.1) (unused_counts_lem (sort_recs (ops.for_each b)))
          ∙ count-sort_recs (is_unused internal) (ops.for_each b))

  put_rec_ok :
      (b c : B) (r : KeyRec)
      → put_rec ops b r ≡ ok c
      → (ops.reachable b ≡ true) × (c ≡ ops.put b r.script_address r)
  unfolding put_rec
  put_rec_ok b c r e = ground arith

  get_rec_ok :
      (b : B) (a : List ℕ) (r : KeyRec)
      → get_rec ops b a ≡ ok r
      → (ops.reachable b ≡ true) × (ops.get b a ≡ some r)
  unfolding get_rec
  get_rec_ok b a r e = elim (Option-cases (ops.get b a)) [
    | inl gone ↦ absurd (ground (arith, gone))
    | inr (x, q) ↦ ground (arith, q)
  ]

  -- Every record stands under its own script address.
  abbrev pub Keyed : B → Type 0
  Keyed b = (k : List ℕ) (r : KeyRec) → ops.get b k ≡ some r → r.script_address ≡ k

  put_rec-Keyed : (b : B) (r : KeyRec) → Lawful ops → Keyed b → Keyed (ops.put b r.script_address r)
  put_rec-Keyed b r laws keyed k x e = elim (Bool-cases (bytes_eq k r.script_address)) [
    | inl same ↦
        let here : k ≡ r.script_address = (bytes_eq_iff k r.script_address).0 same in
        let found : some r ≡ some x =
          sym (laws.get_put_self b r.script_address r)
          ∙ ap (ops.get (ops.put b r.script_address r)) (sym here)
          ∙ e in
        ap (λ (y : KeyRec). y.script_address) (some_injective (sym found)) ∙ sym here
    | inr other ↦ keyed k x (
        sym (
          laws.get_put_ne b r.script_address k r
            (λ q. false_ne_true (sym other ∙ (bytes_eq_iff k r.script_address).1 q)))
        ∙ e)
  ]

  -- The window of a purpose is the number of all its unused keys, wherever their indexes are. Where
  -- the bucket is a keyed store and every record stands under its own address, a key that is put
  -- under a new address is unused: it widens the window of its purpose by one and no other, and the
  -- records stay keyed by their addresses.
  pub put_key-window :
      (b c : B) (a : List ℕ) (path : KeyPath) (p : KeyChange)
      → Lawful ops
      → Keyed b
      → ops.get b a ≡ none
      → put_key ops b a path ≡ ok c
      → (window ops b p ≡ count (is_unused p) (ops.for_each b))
        × (window ops c p ≡ one_if (is_same path.change p) + window ops b p)
        × Keyed c
  unfolding put_key
  put_key-window b c a path p laws keyed new e =
      let r : KeyRec = record {
        script_address = a;
        purpose = path.change;
        key_index = path.index;
        used = false;
      } in
      let (up, same) = put_rec_ok b c r e in
      let still : ops.reachable c ≡ true = ap ops.reachable same ∙ laws.reachable_put b a r ∙ up in
      (
        window-count b p up,
        window-count c p still
            ∙ ap (λ x. count (is_unused p) (ops.for_each x)) same
            ∙ laws.walk_new b a r (is_unused p) new
            ∙ ap (λ n. one_if (is_same path.change p) + n) (sym (window-count b p up)),
        subst Keyed (sym same) (put_rec-Keyed b r laws keyed),
      )

  -- The window of a purpose is the number of all its unused keys, wherever their indexes are. Where
  -- the bucket is a keyed store and every record stands under its own address, a key that is marked
  -- was recorded and is then used, with its path as before; no other record changes, exactly an
  -- unused key's window shrinks, by one, and the records stay keyed by their addresses.
  pub mark_key_as_used-window :
      (b c : B) (a : List ℕ)
      → Lawful ops
      → Keyed b
      → mark_key_as_used ops b a ≡ ok c
      → (r : KeyRec) × (ops.get b a ≡ some r)
        × (ops.get c a ≡ some (record r { used = true }))
        × ((j : List ℕ) → j ≢ a → ops.get c j ≡ ops.get b j)
        × ((p : KeyChange)
            → (window ops b p ≡ count (is_unused p) (ops.for_each b))
              × (one_if (is_unused p r) + window ops c p ≡ window ops b p))
        × Keyed c
  unfolding mark_key_as_used
  mark_key_as_used-window b c a laws keyed e = elim (Result-cases (get_rec ops b a)) [
    | inl (r, got) ↦
        let marked : KeyRec = record r { used = true } in
        let run : put_rec ops b marked ≡ ok c = ground (arith, got) in
        let (up, there) = get_rec_ok b a r got in
        let (up', at_own) = put_rec_ok b c marked run in
        let own : r.script_address ≡ a = keyed a r there in
        let same : c ≡ ops.put b a marked = at_own ∙ ap (λ k. ops.put b k marked) own in
        let still : ops.reachable c ≡ true =
          ap ops.reachable same ∙ laws.reachable_put b a marked ∙ up in
        (
          r,
          there,
          ap (λ x. ops.get x a) same ∙ laws.get_put_self b a marked,
          λ j ne. ap (λ x. ops.get x j) same ∙ laws.get_put_ne b a j marked ne,
          λ p. (
            window-count b p up,
            omega (
              arith,
              window-count c p still,
              ap (λ x. count (is_unused p) (ops.for_each x)) same,
              laws.walk_old b a marked r (is_unused p) there,
              window-count b p up,
            ),
          ),
          subst Keyed (sym at_own) (put_rec-Keyed b marked laws keyed),
        )
    | inr (inl (x, bad)) ↦ absurd (ground (arith, bad))
    | inr (inr bad) ↦ absurd (ground (arith, bad))
  ]
