-- ===== src/Wallet/Freezing.antt =====
-- FreezeUTXO and UnFreezeUTXO of wallet/wltbtc/wallet.go, over the store of wallet/bdb/utxo.go.
use go_electrum_client.Prelude.{
  some_injective, ◌≡◌, refl, sym, ap, subst, ◌∙◌, inl, inr, Bool, true, false, ◌&&◌, some, List, [],
  ◌∷◌, Bool-cases, ◌==◌,
}
use go_electrum_client.Prelude.Bytes.{bytes_eq}
use go_electrum_client.Prelude.Results.{Result, ok, err_ne_ok}
use go_electrum_client.Datastore.{OutPoint, Utxo, Stxo, out_points_equal}
use go_electrum_client.Datastore.Interface.{StoreError, Store}
use go_electrum_client.Datastore.Keyed.{erase, find, Inserted, All-find}
use go_electrum_client.Datastore.OutPoints.{HashTexts}
use go_electrum_client.Datastore.OutPoints.Printed.{Prints}
use go_electrum_client.Stores.{Bucket}
use go_electrum_client.Stores.Walks.{Lawful}
use go_electrum_client.Stores.Records.Kept.{IsRecorded}
use go_electrum_client.Stores.Refined.{
  FitsUtxo, utxo_recording, utxo_store-Keeps, out_points_equal_comm, eq_of_out_points_equal,
}
use go_electrum_client.Stores.Utxos.{UtxoRec, utxo_store, get_all, freeze, un_freeze}
use go_electrum_client.Stores.Frozen.{Changes, freeze-Changes, un_freeze-Changes}
use go_electrum_client.Wallet.{on_utxo, freeze_utxo, un_freeze_utxo}

abbrev pub at_op : OutPoint → Utxo → Bool
at_op op u = out_points_equal op u.op

is_at :
    (op : OutPoint) (u : Utxo)
    → (bytes_eq u.op.hash op.hash && (u.op.index == op.index)) ≡ at_op op u
unfolding out_points_equal
is_at op u = same ∙ out_points_equal_comm u.op op
  where
    same : (bytes_eq u.op.hash op.hash && (u.op.index == op.index)) ≡ out_points_equal u.op op
    same = refl

on_utxo-found :
    {U : Type 0} (op : OutPoint) (call : Utxo → Result StoreError U) (l : List Utxo) (c : U)
    → on_utxo op call l ≡ ok c
    → (u : Utxo) × (find (at_op op) l ≡ some u) × (call u ≡ ok c)
unfolding on_utxo find
on_utxo-found op call [] c e = absurd (err_ne_ok e)
on_utxo-found op call (v ∷ l) c e = elim (Bool-cases (at_op op v)) [
  | inl here ↦ (v, rw here refl, rw (is_at op v ∙ here, on_utxo) at e)
  | inr there ↦
      let (u, found, run) = on_utxo-found op call l c (rw (is_at op v ∙ there, on_utxo) at e) in
      (u, rw there found, run)
]

module _ (texts : HashTexts) (prints : Prints texts) {B X : Type 0} (ops : Bucket UtxoRec B)
    (xs : Store Stxo X) where
  -- The list `l` of outputs with what `change` makes of the one at `op`.
  abbrev pub ChangedAt : (Utxo → Utxo) → OutPoint → List Utxo → B → Type 0
  ChangedAt change op l c =
      (w : Utxo) × (m : List Utxo) × (find (at_op op) l ≡ some w)
      × Inserted (change w) (erase (at_op op) l) m
      × (get_all texts ops c ≡ ok m)

  changed_at :
      (change : Utxo → Utxo) (op : OutPoint) (l : List Utxo) (c : B) (u : Utxo)
      → ((w : Utxo) → (change w).op ≡ w.op)
      → find (at_op op) l ≡ some u
      → u.op ≡ op
      → Changes texts prints ops change u l c
      → ChangedAt change op l c
  changed_at change op l c u keeps_op found same (w, m, first, put, listed) =
      let first' : find (at_op op) l ≡ some w =
        subst (λ o. find (λ (x : Utxo). out_points_equal o x.op) l ≡ some w) same first in
      let at_w : (change w).op ≡ op =
        keeps_op w ∙ ap (λ (x : Utxo). x.op) (some_injective (sym first' ∙ found)) ∙ same in
      (
        w,
        m,
        first',
        subst (λ o. Inserted (change w) (erase (λ (x : Utxo). out_points_equal o x.op) l) m) at_w
            put,
        listed,
      )

  -- FreezeUTXO, where it ends well on the bbolt store, was asked for an output that the store lists;
  -- that output is then listed as frozen, with all else of it and every other output as before.
  pub freeze_utxo-Changes :
      (b c : B) (op : OutPoint) (l : List Utxo)
      → Lawful ops
      → IsRecorded (utxo_recording texts prints) ops b
      → get_all texts ops b ≡ ok l
      → freeze_utxo (utxo_store texts ops) xs (freeze texts ops) b op ≡ ok c
      → ChangedAt (λ w. record w { frozen = true }) op l c
  unfolding freeze_utxo
  freeze_utxo-Changes b c op l laws valid all e =
      let (u, found, run) =
        on_utxo-found op (freeze texts ops b) l c (rw (all, freeze_utxo) at e) in
      let fits = (utxo_store-Keeps texts prints ops laws).all_fit b l valid all in
      let (fit, here) = All-find FitsUtxo (at_op op) l u fits found in
      let same : u.op ≡ op = sym (eq_of_out_points_equal op u.op here) in
      changed_at (λ w. record w { frozen = true }) op l c u (λ w. refl) found same
        (freeze-Changes texts prints ops b c u l laws valid fit all run)

  pub un_freeze_utxo-Changes :
      (b c : B) (op : OutPoint) (l : List Utxo)
      → Lawful ops
      → IsRecorded (utxo_recording texts prints) ops b
      → get_all texts ops b ≡ ok l
      → un_freeze_utxo (utxo_store texts ops) xs (un_freeze texts ops) b op ≡ ok c
      → ChangedAt (λ w. record w { frozen = false }) op l c
  unfolding un_freeze_utxo
  un_freeze_utxo-Changes b c op l laws valid all e =
      let (u, found, run) =
        on_utxo-found op (un_freeze texts ops b) l c (rw (all, un_freeze_utxo) at e) in
      let fits = (utxo_store-Keeps texts prints ops laws).all_fit b l valid all in
      let (fit, here) = All-find FitsUtxo (at_op op) l u fits found in
      let same : u.op ≡ op = sym (eq_of_out_points_equal op u.op here) in
      changed_at (λ w. record w { frozen = false }) op l c u (λ w. refl) found same
        (un_freeze-Changes texts prints ops b c u l laws valid fit all run)
