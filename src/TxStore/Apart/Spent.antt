-- ===== src/TxStore/Apart/Spent.antt =====
-- An unspent output becomes a spent one, in AddTransaction.
use go_electrum_client.Prelude.{◌≡◌, refl, ◌∙◌, inl, inr, false, List}
use go_electrum_client.Prelude.Results.{ok, Result-cases}
use go_electrum_client.Datastore.{Utxo, Stxo, out_points_equal}
use go_electrum_client.Datastore.Interface.{Store, TxnStore, Keeps}
use go_electrum_client.Datastore.Keyed.{
  erase, All, All-erase, All-Inserted, All-map, All-erase_not, find-Inserted-none, find-erase-none,
  All-both,
}
use go_electrum_client.Stores.Refined.{
  same_utxo, same_stxo, FitsUtxo, FitsStxo, out_points_equal_comm,
}
use go_electrum_client.TxStore.{Calls, State}
use go_electrum_client.TxStore.Dead.{delete_utxo, put_stxo}
use go_electrum_client.TxStore.Apart.{IsUnspent, Apart, Inv}

module _ {A K U X T : Type 0} (calls : Calls A K) (us : Store Utxo U) (xs : Store Stxo X)
    (ts : TxnStore T) (ValidU : U → Type 0) (ValidX : X → Type 0)
    (keeps_u : Keeps same_utxo FitsUtxo us ValidU) (keeps_x : Keeps same_stxo FitsStxo xs ValidX)
    (P : Stxo → Type 0) where
  abbrev Holds : State A K U X T → Type 0
  Holds = Inv calls us xs ts ValidU ValidX keeps_u keeps_x P

  -- A spent output that is recorded again, or for the first time where no unspent one is at its point.
  put_stxo_keeps :
      (v : Stxo) (s : State A K U X T) (x : X) (h : Holds s)
      → FitsStxo v
      → P v
      → xs.put s.stxos v ≡ ok x
      → (m : List Stxo) × ValidX x
        × (xs.get_all x ≡ ok m)
        × All P m
        × ((l : List Utxo)
            → All (IsUnspent h.spent) l
            → All (λ u. out_points_equal u.op v.utxo.op ≡ false) l
            → All (IsUnspent m) l)
  put_stxo_keeps v s x h fit p e =
      let (m, put, listed) =
        keeps_x.put_keeps s.stxos x v h.spent h.valid_stxos fit h.all_stxos e in
      (
        m,
        keeps_x.put_valid s.stxos x v h.valid_stxos fit e,
        listed,
        All-Inserted P v (erase (same_stxo v) h.spent) m put p
            (All-erase P (same_stxo v) h.spent h.have),
        λ l free other.
            All-both (IsUnspent h.spent) (λ u. out_points_equal u.op v.utxo.op ≡ false)
              (IsUnspent m) l
              (λ u f o.
                find-Inserted-none (λ (w : Stxo). out_points_equal u.op w.utxo.op) v
                  (erase (same_stxo v) h.spent) m put o
                  (find-erase-none (λ (w : Stxo). out_points_equal u.op w.utxo.op) (same_stxo v)
                    h.spent f))
              free other,
      )

  pub put_stxo-Inv :
      (v : Stxo) (s : State A K U X T) (h : Holds s)
      → FitsStxo v
      → P v
      → All (λ u. out_points_equal u.op v.utxo.op ≡ false) h.unspent
      → Holds (put_stxo calls us xs ts v s).0
  unfolding put_stxo
  put_stxo-Inv v s h fit p other = elim (Result-cases (xs.put s.stxos v)) [
    | inl (x, e) ↦
        let (m, valid, listed, have, free) = put_stxo_keeps v s x h fit p e in
        rw (e, put_stxo)
          (record {
            unspent = h.unspent;
            spent = m;
            valid_utxos = h.valid_utxos;
            valid_stxos = valid;
            all_utxos = h.all_utxos;
            all_stxos = listed;
            apart = free h.unspent h.apart other;
            have = have;
          })
    | inr (inl (x, e)) ↦ rw (e, put_stxo) h
    | inr (inr e) ↦ rw (e, put_stxo) h
  ]

  -- A delete of an unspent output does not fail.
  abbrev pub Deletes : Type 0
  Deletes = (u : U) (v : Utxo) → ValidU u → (u' : U) × (us.delete u v ≡ ok u')

  -- Unspent outputs that a delete leaves are at other points.
  left_apart :
      (v : Utxo) (l : List Utxo)
      → All (λ u. out_points_equal u.op v.op ≡ false) (erase (same_utxo v) l)
  left_apart v l =
      All-map (λ u. same_utxo v u ≡ false) (λ u. out_points_equal u.op v.op ≡ false)
        (erase (same_utxo v) l) (λ u e. out_points_equal_comm u.op v.op ∙ e)
        (All-erase_not (same_utxo v) l)

  -- What AddTransaction does with an unspent output that is spent: it is recorded as spent, and then
  -- deleted. The list of unspent outputs loses it.
  pub spend-Inv :
      (v : Stxo) (s : State A K U X T) (h : Holds s)
      → Deletes
      → FitsStxo v
      → P v
      → (k : Holds (delete_utxo calls us xs ts v.utxo (put_stxo calls us xs ts v s).0).0)
        × (k.unspent ≡ erase (same_utxo v.utxo) h.unspent)
  unfolding put_stxo delete_utxo
  spend-Inv v s h deletes fit p =
      let (u, gone) = deletes s.utxos v.utxo h.valid_utxos in
      let valid_u = keeps_u.delete_valid s.utxos u v.utxo h.valid_utxos fit.0 gone in
      let all_u =
        keeps_u.delete_keeps s.utxos u v.utxo h.unspent h.valid_utxos fit.0 h.all_utxos gone in
      let still = All-erase (IsUnspent h.spent) (same_utxo v.utxo) h.unspent h.apart in
      let failed : Apart us xs ValidU ValidX P u s.stxos = record {
        unspent = erase (same_utxo v.utxo) h.unspent;
        spent = h.spent;
        valid_utxos = valid_u;
        valid_stxos = h.valid_stxos;
        all_utxos = all_u;
        all_stxos = h.all_stxos;
        apart = still;
        have = h.have;
      } in
      elim (Result-cases (xs.put s.stxos v)) [
        | inl (x, e) ↦
            let (m, valid, listed, have, free) = put_stxo_keeps v s x h fit p e in
            rw (e, put_stxo)
              (rw (gone, delete_utxo)
                (
                  record {
                    unspent = erase (same_utxo v.utxo) h.unspent;
                    spent = m;
                    valid_utxos = valid_u;
                    valid_stxos = valid;
                    all_utxos = all_u;
                    all_stxos = listed;
                    apart =
                        free (erase (same_utxo v.utxo) h.unspent) still
                          (left_apart v.utxo h.unspent);
                    have = have;
                  },
                  refl,
                ))
        | inr (inl (x, e)) ↦ rw (e, put_stxo) (rw (gone, delete_utxo) (failed, refl))
        | inr (inr e) ↦ rw (e, put_stxo) (rw (gone, delete_utxo) (failed, refl))
      ]
