-- ===== src/TxStore/Dead/Ends.antt =====
-- markAsDead of wallet/wltbtc/txstore.go comes to an end.
use go_electrum_client.Prelude.{
  ℕ, ◌≡◌, ◌≢◌, refl, sym, ap, subst, ◌∙◌, inl, inr, Bool, true, ◌||◌, Option, none, some, List,
  arith,
}
use go_electrum_client.Prelude.Int.{negsuc}
use go_electrum_client.Prelude.Results.{ok, Result-cases}
use go_electrum_client.Datastore.{Utxo, Stxo}
use go_electrum_client.Datastore.Interface.{Store, TxnStore, Keeps}
use go_electrum_client.Datastore.Keyed.{erase, In, All, All-In, erase-erase}
use go_electrum_client.Stores.Refined.{same_stxo, FitsStxo, out_points_equal_refl}
use go_electrum_client.TxStore.{Calls, TxError, still_marking}
use go_electrum_client.TxStore.Dead.{
  S, Act, ◌>>◌, skip, put_utxo, delete_utxo, delete_stxo, kill, mark_stxo_as_dead,
}

module _ {A K U X T : Type 0} (calls : Calls A K) (us : Store Utxo U) (xs : Store Stxo X)
    (ts : TxnStore T) (Valid : X → Type 0) (keeps : Keeps same_stxo FitsStxo xs Valid) where
  abbrev pub St : Type 0
  St = S calls us xs ts

  -- What is left of the spent outputs `l` when some have been deleted.
  abbrev pub Left : List Stxo → X → Type 0
  Left l x = (t : Stxo → Bool) × (m : List Stxo) × Valid x × (xs.get_all x ≡ ok m) × (m ≡ erase t l)

  -- An outcome with the search ended, and with a part of `l` left.
  abbrev pub Ends : List Stxo → St × Option TxError → Type 0
  Ends l r = (r.1 ≢ some still_marking) × Left l r.0.stxos

  Ends-seq' :
      (l : List Stxo) (k : Act St) (r : St × Option TxError)
      → Ends l r
      → ((t : St) → Left l t.stxos → Ends l (k t))
      → Ends l (elim (r.1) [ none ↦ k r.0 | some x ↦ (r.0, some x) ])
  Ends-seq' l k (s, none) h next = next s h.1
  Ends-seq' l k (s, some e) h next = h

  pub Ends-seq :
      (l : List Stxo) (m k : Act St) (s : St)
      → Ends l (m s)
      → ((t : St) → Left l t.stxos → Ends l (k t))
      → Ends l ((m >> k) s)
  Ends-seq l m k s h next = Ends-seq' l k (m s) h next

  none_ends : {e : TxError} → ◌≢◌ {A = Option TxError} none (some e)
  none_ends e = cc

  pub skip-Ends : (l : List Stxo) (s : St) → Left l s.stxos → Ends l (skip s)
  skip-Ends l s left = (none_ends, left)

  pub kill-Ends :
      (l : List Stxo) (txid : List ℕ) (s : St)
      → Left l s.stxos
      → Ends l (kill calls us xs ts txid s)
  unfolding kill
  kill-Ends l txid s left =
      elim (Result-cases
        (ts.update_height s.txns (calls.hash_string txid) (negsuc 0) (calls.now s.reads))) [
          | inl (t, e) ↦ rw (e, kill) ((λ q. cc), left)
          | inr (inl (x, e)) ↦ rw (e, kill) ((λ q. cc), left)
          | inr (inr e) ↦ rw (e, kill) ((λ q. cc), left)
        ]

  pub put_utxo-Ends :
      (l : List Stxo) (u : Utxo) (s : St) → Left l s.stxos → Ends l (put_utxo calls us xs ts u s)
  unfolding put_utxo
  put_utxo-Ends l u s left = elim (Result-cases (us.put s.utxos u)) [
    | inl (t, e) ↦ rw (e, put_utxo) ((λ q. cc), left)
    | inr (inl (x, e)) ↦ rw (e, put_utxo) ((λ q. cc), left)
    | inr (inr e) ↦ rw (e, put_utxo) ((λ q. cc), left)
  ]

  pub delete_utxo-Ends :
      (l : List Stxo) (u : Utxo) (s : St) → Left l s.stxos → Ends l (delete_utxo calls us xs ts u s)
  unfolding delete_utxo
  delete_utxo-Ends l u s left = elim (Result-cases (us.delete s.utxos u)) [
    | inl (t, e) ↦ rw (e, delete_utxo) ((λ q. cc), left)
    | inr (inl (x, e)) ↦ rw (e, delete_utxo) ((λ q. cc), left)
    | inr (inr e) ↦ rw (e, delete_utxo) ((λ q. cc), left)
  ]

  -- What is left of `l` without `v`.
  abbrev pub Without : List Stxo → Stxo → X → Type 0
  Without l v x =
      (t : Stxo → Bool) × (t v ≡ true)
      × (m : List Stxo) × Valid x
      × (xs.get_all x ≡ ok m)
      × (m ≡ erase t l)

  deleted :
      (l : List Stxo) (v : Stxo) (x y : X)
      → In v l
      → All FitsStxo l
      → Left l x
      → xs.delete x v ≡ ok y
      → Without l v y
  deleted l v x y i fits (t, m, valid, all, e) done =
      let fit = All-In FitsStxo v l fits i in
      (
        λ w. t w || same_stxo v w,
        rw (out_points_equal_refl v.utxo.op) (ground arith),
        erase (same_stxo v) m,
        keeps.delete_valid x y v valid fit done,
        keeps.delete_keeps x y v m valid fit all done,
        ap (erase (same_stxo v)) e ∙ erase-erase t (same_stxo v) l,
      )

  Left-of_Without : (l : List Stxo) (v : Stxo) (x : X) → Without l v x → Left l x
  Left-of_Without l v x (t, e, m, valid, all, same) = (t, m, valid, all, same)

  delete_stxo-Ends :
      (l : List Stxo) (v : Stxo) (s : St)
      → In v l
      → All FitsStxo l
      → Left l s.stxos
      → Ends l (delete_stxo calls us xs ts v s)
        × ((t : St) → delete_stxo calls us xs ts v s ≡ (t, none) → Without l v t.stxos)
  unfolding delete_stxo
  delete_stxo-Ends l v s i fits left = elim (Result-cases (xs.delete s.stxos v)) [
    | inl (y, e) ↦
        let without = deleted l v s.stxos y i fits left e in
        rw (e, delete_stxo)
          (
            ((λ q. cc), Left-of_Without l v y without),
            λ t q. subst (Without l v) (ap (λ (r : St × Option TxError). r.0.stxos) q) without,
          )
    | inr (inl (x, e)) ↦ rw (e, delete_stxo) (((λ q. cc), left), λ t q. absurd cc)
    | inr (inr e) ↦ rw (e, delete_stxo) (((λ q. cc), left), λ t q. absurd cc)
  ]

  seq_none :
      (m k : Act St) (s t : St)
      → (m >> k) s ≡ (t, none)
      → (u : St) × (m s ≡ (u, none)) × (k u ≡ (t, none))
  seq_none m k s t e = split (m s) refl e
    where
      split :
          (r : St × Option TxError)
          → m s ≡ r
          → ◌≡◌ {A = St × Option TxError}
              (elim (r.1) [ none ↦ k r.0 | some x ↦ (r.0, some x) ])
              (t, none)
          → (u : St) × (m s ≡ (u, none)) × (k u ≡ (t, none))
      split (u, none) q e = (u, q, e)
      split (u, some x) q e = absurd cc

  pub Ends-seq_with :
      (l : List Stxo) (m k : Act St) (s : St)
      → Ends l (m s)
      → ((t : St) → m s ≡ (t, none) → Left l t.stxos → Ends l (k t))
      → Ends l ((m >> k) s)
  Ends-seq_with l m k s h next = split (m s) refl h
    where
      split :
          (r : St × Option TxError)
          → m s ≡ r
          → Ends l r
          → Ends l (elim (r.1) [ none ↦ k r.0 | some x ↦ (r.0, some x) ])
      split (u, none) q h = next u q h.1
      split (u, some x) q h = h

  kill_stxos : (txid : List ℕ) (s : St) → (kill calls us xs ts txid s).0.stxos ≡ s.stxos
  unfolding kill
  kill_stxos txid s =
      elim (Result-cases
        (ts.update_height s.txns (calls.hash_string txid) (negsuc 0) (calls.now s.reads))) [
          | inl (t, e) ↦ rw (e, kill) refl
          | inr (inl (x, e)) ↦ rw (e, kill) refl
          | inr (inr e) ↦ rw (e, kill) refl
        ]

  pub mark_stxo-Ends :
      (l : List Stxo) (v : Stxo) (s : St)
      → In v l
      → All FitsStxo l
      → Left l s.stxos
      → Ends l (mark_stxo_as_dead calls us xs ts v s)
        × ((t : St) → mark_stxo_as_dead calls us xs ts v s ≡ (t, none) → Without l v t.stxos)
  unfolding mark_stxo_as_dead
  mark_stxo-Ends l v s i fits left =
      let (ends, without) = delete_stxo-Ends l v s i fits left in
      (
        Ends-seq l (delete_stxo calls us xs ts v) (kill calls us xs ts v.spend_txid) s ends
            (kill-Ends l v.spend_txid),
        λ t e.
            let (u, q, last) =
              seq_none (delete_stxo calls us xs ts v) (kill calls us xs ts v.spend_txid) s t e in
            let same =
              sym (kill_stxos v.spend_txid u) ∙ ap (λ (r : St × Option TxError). r.0.stxos) last in
            subst (Without l v) same (without u q),
      )
