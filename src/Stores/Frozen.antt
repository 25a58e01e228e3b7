-- ===== src/Stores/Frozen.antt =====
-- Freeze and UnFreeze of wallet/bdb/utxo.go, under FreezeUTXO and UnFreezeUTXO of
-- wallet/wltbtc/wallet.go.
use go_electrum_client.Prelude.{
  ℕ, ◌≡◌, sym, subst, ◌∙◌, inl, inr, true, false, some, List, arith, Option-cases,
}
use go_electrum_client.Prelude.Results.{ok, Result-cases, err_ne_ok, panic_ne_ok}
use go_electrum_client.Datastore.{Utxo}
use go_electrum_client.Datastore.Keyed.{erase, find, Inserted}
use go_electrum_client.Datastore.OutPoints.{HashTexts}
use go_electrum_client.Datastore.OutPoints.Printed.{Prints}
use go_electrum_client.Stores.{Bucket, put_rec, get_rec}
use go_electrum_client.Stores.Walks.{Lawful}
use go_electrum_client.Stores.Records.{Held, find-Held}
use go_electrum_client.Stores.Records.Kept.{IsRecorded, got}
use go_electrum_client.Stores.Refined.{same_utxo, FitsUtxo, utxo_recording, utxo_store-Keeps}
use go_electrum_client.Stores.Utxos.{UtxoRec, to_rec, freeze, un_freeze, put, get_all}

module _ (texts : HashTexts) (prints : Prints texts) {B : Type 0} (ops : Bucket UtxoRec B) where
  -- What a call that changes the record of an output does: `change` is what it does to the output.
  abbrev pub Changes : (Utxo → Utxo) → Utxo → List Utxo → B → Type 0
  Changes change u l c =
      (w : Utxo) × (m : List Utxo) × (find (same_utxo u) l ≡ some w)
      × Inserted (change w) (erase (same_utxo (change w)) l) m
      × (get_all texts ops c ≡ ok m)

  get_rec_ok : (b : B) (k : List ℕ) (r : UtxoRec) → get_rec ops b k ≡ ok r → ops.get b k ≡ some r
  unfolding get_rec
  get_rec_ok b k r e = elim (Option-cases (ops.get b k)) [
    | inl gone ↦ absurd (ground (arith, gone))
    | inr (x, q) ↦ ground (arith, q)
  ]

  changes :
      (change : Utxo → Utxo) (b c : B) (u : Utxo) (l : List Utxo) (r : UtxoRec)
      → Lawful ops
      → IsRecorded (utxo_recording texts prints) ops b
      → FitsUtxo u
      → get_all texts ops b ≡ ok l
      → get_rec ops b (texts.op_string u.op) ≡ ok r
      → ((w : Utxo)
          → r ≡ to_rec texts w
          → put_rec ops b (texts.op_string (change w).op) (to_rec texts (change w)) ≡ ok c)
      → ((w : Utxo) → FitsUtxo w → FitsUtxo (change w))
      → Changes change u l c
  unfolding put get_all
  changes change b c u l r laws valid fit all found run keeps =
      let kept = utxo_store-Keeps texts prints ops laws in
      let here = got (utxo_recording texts prints) ops b valid.0 l valid.1 all in
      let held = subst (Held (utxo_recording texts prints) (ops.for_each b)) here valid.1 in
      let at_key =
        sym (laws.get_walk b (texts.op_string u.op))
        ∙ get_rec_ok b (texts.op_string u.op) r found in
      let (w, first, same, fit_w) =
        find-Held (utxo_recording texts prints) u (ops.for_each b) l r fit held at_key in
      let (m, put, listed) =
        kept.put_keeps b c (change w) l valid (keeps w fit_w) all (run w same) in
      (w, m, first, put, listed)

  -- A freeze that ends well was of an output that the store lists; it is then listed as frozen, with
  -- all else of it, and every other output as before.
  pub freeze-Changes :
      (b c : B) (u : Utxo) (l : List Utxo)
      → Lawful ops
      → IsRecorded (utxo_recording texts prints) ops b
      → FitsUtxo u
      → get_all texts ops b ≡ ok l
      → freeze texts ops b u ≡ ok c
      → Changes (λ w. record w { frozen = true }) u l c
  unfolding freeze to_rec
  freeze-Changes b c u l laws valid fit all e =
      elim (Result-cases (get_rec ops b (texts.op_string u.op))) [
        | inl (r, q) ↦
            let run = rw (q, freeze) at e in
            changes (λ w. record w { frozen = true }) b c u l r laws valid fit all q
              (λ w same.
                subst
                  (λ (x : UtxoRec). put_rec ops b x.out_point (record x { frozen = true }) ≡ ok c)
                  same run)
              (λ w fit_w. fit_w)
        | inr (inl (x, q)) ↦ absurd (err_ne_ok (rw (q, freeze) at e))
        | inr (inr q) ↦ absurd (panic_ne_ok (rw (q, freeze) at e))
      ]

  pub un_freeze-Changes :
      (b c : B) (u : Utxo) (l : List Utxo)
      → Lawful ops
      → IsRecorded (utxo_recording texts prints) ops b
      → FitsUtxo u
      → get_all texts ops b ≡ ok l
      → un_freeze texts ops b u ≡ ok c
      → Changes (λ w. record w { frozen = false }) u l c
  unfolding un_freeze to_rec
  un_freeze-Changes b c u l laws valid fit all e =
      elim (Result-cases (get_rec ops b (texts.op_string u.op))) [
        | inl (r, q) ↦
            let run = rw (q, un_freeze) at e in
            changes (λ w. record w { frozen = false }) b c u l r laws valid fit all q
              (λ w same.
                subst
                  (λ (x : UtxoRec). put_rec ops b x.out_point (record x { frozen = false }) ≡ ok c)
                  same run)
              (λ w fit_w. fit_w)
        | inr (inl (x, q)) ↦ absurd (err_ne_ok (rw (q, un_freeze) at e))
        | inr (inr q) ↦ absurd (panic_ne_ok (rw (q, un_freeze) at e))
      ]
