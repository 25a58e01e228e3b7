-- ===== src/Stores/Records/Kept.antt =====
-- The stores of wallet/bdb meet the interface of wallet/datastore.go.
use go_electrum_client.Prelude.{◌≡◌, refl, sym, subst, ◌∙◌, inl, inr, true, List, arith, Bool-cases}
use go_electrum_client.Prelude.Results.{ok, ◌>>=◌, ok_injective}
use go_electrum_client.Datastore.Interface.{Store, Keeps}
use go_electrum_client.Datastore.Keyed.{erase, Inserted, Distinct, All}
use go_electrum_client.Stores.{Bucket, read_recs, put_rec, get_all_recs, delete_rec}
use go_electrum_client.Stores.Walks.{Lawful}
use go_electrum_client.Stores.Records.{
  Recording, Held, read_recs-Held, Held-erase, Held-insert, Held-Distinct, Held-fits,
}

module _ {R V B : Type 0} (rec : Recording R V) (ops : Bucket R B) where
  abbrev pub recorded : Store V B
  recorded = record {
    put = λ b v. put_rec ops b (rec.key v) (rec.to_rec v);
    get_all = λ b. get_all_recs ops b >>= read_recs rec.of_rec;
    delete = λ b v. delete_rec ops b (rec.key v);
  }

  abbrev pub IsRecorded : B → Type 0
  IsRecorded b = (l : List V) × Held rec (ops.for_each b) l

  put_ok : (b c : B) (v : V) → recorded.put b v ≡ ok c → ops.put b (rec.key v) (rec.to_rec v) ≡ c
  unfolding put_rec
  put_ok b c v e = ground arith

  delete_ok : (b c : B) (v : V) → recorded.delete b v ≡ ok c → ops.delete b (rec.key v) ≡ c
  unfolding delete_rec
  delete_ok b c v e = ground arith

  put_up : (b c : B) (v : V) → recorded.put b v ≡ ok c → ops.reachable b ≡ true
  unfolding put_rec
  put_up b c v e = ground arith

  delete_up : (b c : B) (v : V) → recorded.delete b v ≡ ok c → ops.reachable b ≡ true
  unfolding delete_rec
  delete_up b c v e = ground arith

  pub get_all_ok :
      (b : B) (l : List V)
      → ops.reachable b ≡ true
      → Held rec (ops.for_each b) l
      → recorded.get_all b ≡ ok l
  unfolding get_all_recs
  get_all_ok b l up h = rw up (read_recs-Held rec (ops.for_each b) l h)

  pub got : (b : B) (l m : List V) → Held rec (ops.for_each b) l → recorded.get_all b ≡ ok m → l ≡ m
  unfolding get_all_recs
  got b l m h e = elim (Bool-cases (ops.reachable b)) [
    | inl up ↦ ok_injective (sym (get_all_ok b l up h) ∙ e)
    | inr down ↦ absurd (ground arith)
  ]

  pub put-Held :
      (b : B) (v : V) (l : List V)
      → Lawful ops
      → rec.Fits v
      → Held rec (ops.for_each b) l
      → (m : List V) × Inserted v (erase (rec.same v) l) m
        × Held rec (ops.for_each (ops.put b (rec.key v) (rec.to_rec v))) m
  put-Held b v l laws fit h =
      let walk = laws.walk_put b (rec.key v) (rec.to_rec v) in
      let (m, put, held) =
        Held-insert rec (rec.key v) (rec.to_rec v) v walk.before walk.after (erase (rec.same v) l)
          refl refl fit
          (subst (λ es. Held rec es (erase (rec.same v) l)) walk.was
            (Held-erase rec v (ops.for_each b) l fit h)) in
      (m, put, subst (λ es. Held rec es m) (sym walk.now) held)

  delete-Held :
      (b : B) (v : V) (l : List V)
      → Lawful ops
      → rec.Fits v
      → Held rec (ops.for_each b) l
      → Held rec (ops.for_each (ops.delete b (rec.key v))) (erase (rec.same v) l)
  delete-Held b v l laws fit h =
      subst (λ es. Held rec es (erase (rec.same v) l)) (sym (laws.walk_delete b (rec.key v)))
        (Held-erase rec v (ops.for_each b) l fit h)

  pub recorded-Keeps : Lawful ops → Keeps rec.same rec.Fits recorded IsRecorded
  recorded-Keeps laws = record {
    put_valid = λ b c v valid fit e.
        let (m, _, held) = put-Held b v valid.0 laws fit valid.1 in
        subst IsRecorded (put_ok b c v e) (m, held);
    put_keeps = λ b c v l valid fit all e.
        let h = subst (Held rec (ops.for_each b)) (got b valid.0 l valid.1 all) valid.1 in
        let (m, put, held) = put-Held b v l laws fit h in
        let up = laws.reachable_put b (rec.key v) (rec.to_rec v) ∙ put_up b c v e in
        (
          m,
          put,
          subst (λ x. recorded.get_all x ≡ ok m) (put_ok b c v e)
              (get_all_ok (ops.put b (rec.key v) (rec.to_rec v)) m up held),
        );
    delete_valid = λ b c v valid fit e.
        subst IsRecorded (delete_ok b c v e)
          (erase (rec.same v) valid.0, delete-Held b v valid.0 laws fit valid.1);
    delete_keeps = λ b c v l valid fit all e.
        let h = subst (Held rec (ops.for_each b)) (got b valid.0 l valid.1 all) valid.1 in
        let up = laws.reachable_delete b (rec.key v) ∙ delete_up b c v e in
        subst (λ x. recorded.get_all x ≡ ok (erase (rec.same v) l)) (delete_ok b c v e)
          (get_all_ok (ops.delete b (rec.key v)) (erase (rec.same v) l) up
            (delete-Held b v l laws fit h));
    distinct = λ b l valid all.
        subst (Distinct rec.same) (got b valid.0 l valid.1 all)
          (Held-Distinct rec (ops.for_each b) valid.0 valid.1 (laws.walk_distinct b));
    all_fit = λ b l valid all.
        subst (All rec.Fits) (got b valid.0 l valid.1 all)
          (Held-fits rec (ops.for_each b) valid.0 valid.1);
  }
