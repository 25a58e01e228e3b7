-- ===== src/TxStore/Apart.antt =====
-- TxStore of wallet/wltbtc/txstore.go keeps unspent and spent outputs apart: no output is both.
pub mod Dead
pub mod Spent
pub mod Added
pub mod Transaction
use go_electrum_client.Prelude.{
  ℕ, ◌≡◌, refl, sym, ap, subst, ◌∙◌, inl, inr, Bool, true, false, Option, none, some, List, [], ◌∷◌,
  arith, Bool-cases,
}
use go_electrum_client.Prelude.Results.{Result, ok, err, panic, Result-cases}
use go_electrum_client.Datastore.{OutPoint, Utxo, Stxo, out_points_equal}
use go_electrum_client.Datastore.Interface.{Store, TxnStore, Keeps}
use go_electrum_client.Datastore.Keyed.{
  erase, find, All, All-erase, All-Inserted, All-map, All-erase_not, Inserted, find-Inserted-none,
  find-erase-none, find-erase_self, All-both,
}
use go_electrum_client.Stores.Refined.{
  same_utxo, same_stxo, FitsUtxo, FitsStxo, out_points_equal_comm,
}
use go_electrum_client.Prelude.Int.{negsuc}
use go_electrum_client.TxStore.{Calls, State, TxError}
use go_electrum_client.TxStore.Dead.{put_utxo, delete_utxo, put_stxo, delete_stxo, kill}

-- No spent output of the list is `u`.
abbrev pub IsUnspent : List Stxo → Utxo → Type 0
IsUnspent l u = find (λ (x : Stxo). out_points_equal u.op x.utxo.op) l ≡ none

-- The stores list outputs, none of which is both unspent and spent; the spent ones have `P`.
pub record Apart {U X : Type 0} (us : Store Utxo U) (xs : Store Stxo X) (ValidU : U → Type 0)
    (ValidX : X → Type 0) (P : Stxo → Type 0) (u : U) (x : X) : Type 0 where
  pub unspent : List Utxo
  pub spent : List Stxo
  pub valid_utxos : ValidU u
  pub valid_stxos : ValidX x
  pub all_utxos : us.get_all u ≡ ok unspent
  pub all_stxos : xs.get_all x ≡ ok spent
  pub apart : All (IsUnspent spent) unspent
  pub have : All P spent

module _ {A K U X T : Type 0} (calls : Calls A K) (us : Store Utxo U) (xs : Store Stxo X)
    (ts : TxnStore T) (ValidU : U → Type 0) (ValidX : X → Type 0)
    (keeps_u : Keeps same_utxo FitsUtxo us ValidU) (keeps_x : Keeps same_stxo FitsStxo xs ValidX)
    (P : Stxo → Type 0) where
  abbrev pub Inv : State A K U X T → Type 0
  Inv s = Apart us xs ValidU ValidX P s.utxos s.stxos

  pub put_utxo-Inv :
      (v : Utxo) (s : State A K U X T) (h : Inv s)
      → FitsUtxo v
      → IsUnspent h.spent v
      → Inv (put_utxo calls us xs ts v s).0
  unfolding put_utxo
  put_utxo-Inv v s h fit free = elim (Result-cases (us.put s.utxos v)) [
    | inl (u, e) ↦
        let (m, put, listed) =
          keeps_u.put_keeps s.utxos u v h.unspent h.valid_utxos fit h.all_utxos e in
        rw (e, put_utxo)
          (record {
            unspent = m;
            spent = h.spent;
            valid_utxos = keeps_u.put_valid s.utxos u v h.valid_utxos fit e;
            valid_stxos = h.valid_stxos;
            all_utxos = listed;
            all_stxos = h.all_stxos;
            apart =
                All-Inserted (IsUnspent h.spent) v (erase (same_utxo v) h.unspent) m put free
                  (All-erase (IsUnspent h.spent) (same_utxo v) h.unspent h.apart);
            have = h.have;
          })
    | inr (inl (x, e)) ↦ rw (e, put_utxo) h
    | inr (inr e) ↦ rw (e, put_utxo) h
  ]

  pub delete_utxo-Inv :
      (v : Utxo) (s : State A K U X T) → Inv s → FitsUtxo v → Inv (delete_utxo calls us xs ts v s).0
  unfolding delete_utxo
  delete_utxo-Inv v s h fit = elim (Result-cases (us.delete s.utxos v)) [
    | inl (u, e) ↦
        rw (e, delete_utxo)
          (record {
            unspent = erase (same_utxo v) h.unspent;
            spent = h.spent;
            valid_utxos = keeps_u.delete_valid s.utxos u v h.valid_utxos fit e;
            valid_stxos = h.valid_stxos;
            all_utxos = keeps_u.delete_keeps s.utxos u v h.unspent h.valid_utxos fit h.all_utxos e;
            all_stxos = h.all_stxos;
            apart = All-erase (IsUnspent h.spent) (same_utxo v) h.unspent h.apart;
            have = h.have;
          })
    | inr (inl (x, e)) ↦ rw (e, delete_utxo) h
    | inr (inr e) ↦ rw (e, delete_utxo) h
  ]

  -- A change of heights leaves the outputs alone.
  pub kill-same :
      (Q : U → X → Type 0) (txid : List ℕ) (s : State A K U X T)
      → Q s.utxos s.stxos
      → Q (kill calls us xs ts txid s).0.utxos (kill calls us xs ts txid s).0.stxos
  unfolding kill
  kill-same Q txid s h =
      elim (Result-cases
        (ts.update_height s.txns (calls.hash_string txid) (negsuc 0) (calls.now s.reads))) [
          | inl (t, e) ↦ rw (e, kill) h
          | inr (inl (x, e)) ↦ rw (e, kill) h
          | inr (inr e) ↦ rw (e, kill) h
        ]

  abbrev pub FreeAt : Utxo → U → X → Type 0
  FreeAt v u x = (h : Apart us xs ValidU ValidX P u x) × IsUnspent h.spent v

  without :
      (v : Stxo) (s : State A K U X T) (x : X) (h : Inv s)
      → FitsStxo v
      → xs.delete s.stxos v ≡ ok x
      → FreeAt v.utxo s.utxos x
  without v s x h fit e = (
    record {
      unspent = h.unspent;
      spent = erase (same_stxo v) h.spent;
      valid_utxos = h.valid_utxos;
      valid_stxos = keeps_x.delete_valid s.stxos x v h.valid_stxos fit e;
      all_utxos = h.all_utxos;
      all_stxos = keeps_x.delete_keeps s.stxos x v h.spent h.valid_stxos fit h.all_stxos e;
      apart =
          All-map (IsUnspent h.spent) (IsUnspent (erase (same_stxo v) h.spent)) h.unspent
            (λ u free.
              find-erase-none (λ (w : Stxo). out_points_equal u.op w.utxo.op) (same_stxo v) h.spent
                free)
            h.apart;
      have = All-erase P (same_stxo v) h.spent h.have;
    },
    find-erase_self (same_stxo v) h.spent,
  )

  -- A spent output that is deleted is not spent any more.
  pub delete_stxo-Inv :
      (v : Stxo) (s : State A K U X T)
      → Inv s
      → FitsStxo v
      → Inv (delete_stxo calls us xs ts v s).0
        × ((t : State A K U X T)
            → delete_stxo calls us xs ts v s ≡ (t, none)
            → FreeAt v.utxo t.utxos t.stxos)
  unfolding delete_stxo
  delete_stxo-Inv v s h fit = elim (Result-cases (xs.delete s.stxos v)) [
    | inl (x, e) ↦
        let free = without v s x h fit e in
        rw (e, delete_stxo)
          (
            free.0,
            λ t q.
                subst (λ (r : State A K U X T × Option TxError). FreeAt v.utxo r.0.utxos r.0.stxos)
                  q free,
          )
    | inr (inl (x, e)) ↦ rw (e, delete_stxo) (h, λ t q. absurd cc)
    | inr (inr e) ↦ rw (e, delete_stxo) (h, λ t q. absurd cc)
  ]
