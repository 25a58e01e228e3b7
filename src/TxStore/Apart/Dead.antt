-- ===== src/TxStore/Apart/Dead.antt =====
-- markAsDead of wallet/wltbtc/txstore.go keeps unspent and spent outputs apart.
use go_electrum_client.Prelude.{
  ℕ, zero, suc, ◌≡◌, refl, subst, ◌⊎◌, inl, inr, true, false, Option, none, some, List, [], ◌∷◌,
  if◌then◌else◌, Bool-cases,
}
use go_electrum_client.Prelude.Bytes.{bytes_eq}
use go_electrum_client.Datastore.{Utxo, Stxo}
use go_electrum_client.Datastore.Interface.{Store, TxnStore, Keeps}
use go_electrum_client.Datastore.Keyed.{All}
use go_electrum_client.Stores.Refined.{same_utxo, same_stxo, FitsUtxo, FitsStxo}
use go_electrum_client.TxStore.{Calls, State, TxError}
use go_electrum_client.TxStore.Dead.{
  Act, ◌>>◌, skip, ignore, put_utxo, delete_utxo, delete_stxo, kill, with_stxos, with_utxos,
  mark_stxo_as_dead, revive, follow, dead_stxos, dead_utxos, mark_as_dead, mark_dead, spent_count,
}
use go_electrum_client.TxStore.Apart.{
  Inv, FreeAt, put_utxo-Inv, delete_utxo-Inv, delete_stxo-Inv, kill-same,
}

module _ {A K U X T : Type 0} (calls : Calls A K) (us : Store Utxo U) (xs : Store Stxo X)
    (ts : TxnStore T) (ValidU : U → Type 0) (ValidX : X → Type 0)
    (keeps_u : Keeps same_utxo FitsUtxo us ValidU) (keeps_x : Keeps same_stxo FitsStxo xs ValidX)
    (P : Stxo → Type 0) where
  abbrev Ok : State A K U X T → Type 0
  Ok = Inv calls us xs ts ValidU ValidX keeps_u keeps_x P

  abbrev Free : Utxo → State A K U X T → Type 0
  Free v s = FreeAt calls us xs ts ValidU ValidX keeps_u keeps_x P v s.utxos s.stxos

  -- Two steps, where the second one may rely on what the first one reached without an error.
  seq :
      (m k : Act (State A K U X T)) (s : State A K U X T)
      → Ok (m s).0
      → ((t : State A K U X T) → m s ≡ (t, none) → Ok (k t).0)
      → Ok ((m >> k) s).0
  seq m k s h next = split (m s) refl h
    where
      split :
          (r : State A K U X T × Option TxError)
          → m s ≡ r
          → Ok r.0
          → Ok
              (elim (r.1) as (λ z. State A K U X T × Option TxError) [
                | none ↦ k r.0
                | some x ↦ (r.0, some x)
              ]).0
      split (u, none) q h = next u q
      split (u, some x) q h = h

  state_of :
      (m : Act (State A K U X T)) (s t : State A K U X T) → Ok (m s).0 → m s ≡ (t, none) → Ok t
  state_of m s t h e = subst (λ (r : State A K U X T × Option TxError). Ok r.0) e h

  seq_none :
      (m k : Act (State A K U X T)) (s t : State A K U X T)
      → (m >> k) s ≡ (t, none)
      → (u : State A K U X T) × (m s ≡ (u, none)) × (k u ≡ (t, none))
  seq_none m k s t e = split (m s) refl e
    where
      split :
          (r : State A K U X T × Option TxError)
          → m s ≡ r
          → ◌≡◌ {A = State A K U X T × Option TxError}
              (elim (r.1) [ none ↦ k r.0 | some x ↦ (r.0, some x) ])
              (t, none)
          → (u : State A K U X T) × (m s ≡ (u, none)) × (k u ≡ (t, none))
      split (u, none) q e = (u, q, e)
      split (u, some x) q e = absurd cc

  mark_stxo-Inv :
      (v : Stxo) (s : State A K U X T)
      → Ok s
      → FitsStxo v
      → Ok (mark_stxo_as_dead calls us xs ts v s).0
        × ((t : State A K U X T) → mark_stxo_as_dead calls us xs ts v s ≡ (t, none) → Free v.utxo t)
  unfolding mark_stxo_as_dead
  mark_stxo-Inv v s h fit =
      let (kept, free) = delete_stxo-Inv calls us xs ts ValidU ValidX keeps_u keeps_x P v s h fit in
      let del : Act (State A K U X T) = delete_stxo calls us xs ts v in
      let kill_v : Act (State A K U X T) = kill calls us xs ts v.spend_txid in
      (
        seq del kill_v s kept λ t e.
            kill-same calls us xs ts ValidU ValidX keeps_u keeps_x P
              (λ u x. Ok (record t { utxos = u; stxos = x })) v.spend_txid t
              (state_of del s t kept e),
        λ t e.
            let (u, q, last) = seq_none del kill_v s t e in
            subst (λ (r : State A K U X T × Option TxError). Free v.utxo r.0) last
              (kill-same calls us xs ts ValidU ValidX keeps_u keeps_x P
                (FreeAt calls us xs ts ValidU ValidX keeps_u keeps_x P v.utxo) v.spend_txid u
                (free u q)),
      )

  revive-Inv :
      (txid : List ℕ) (v : Stxo) (s : State A K U X T)
      → Ok s
      → FitsStxo v
      → Ok (revive calls us xs ts txid v s).0
  unfolding revive
  revive-Inv txid v s h fit = elim (Bool-cases (bytes_eq txid v.spend_txid)) [
    | inl spent ↦
        let (kept, free) = mark_stxo-Inv v s h fit in
        rw spent (
          seq (mark_stxo_as_dead calls us xs ts v) (put_utxo calls us xs ts v.utxo) s kept λ t e.
            put_utxo-Inv calls us xs ts ValidU ValidX keeps_u keeps_x P v.utxo t (free t e).0 fit.0
              (free t e).1)
    | inr other ↦ rw other h
  ]

  abbrev MarkKeeps : (List ℕ → Act (State A K U X T)) → Type 0
  MarkKeeps mark = (txid : List ℕ) (s : State A K U X T) → Ok s → Ok (mark txid s).0

  follow-Inv :
      (mark : List ℕ → Act (State A K U X T)) (txid : List ℕ) (v : Stxo) (s : State A K U X T)
      → MarkKeeps mark
      → Ok s
      → FitsStxo v
      → Ok (follow calls us xs ts mark txid v s).0
  unfolding follow
  follow-Inv mark txid v s marks h fit = elim (Bool-cases (bytes_eq txid v.utxo.op.hash)) [
    | inl spends ↦
        let (kept, free) = mark_stxo-Inv v s h fit in
        rw spends (
          seq (mark_stxo_as_dead calls us xs ts v) (mark v.spend_txid) s kept
            λ t e. marks v.spend_txid t (free t e).0)
    | inr other ↦ rw other h
  ]

  dead_stxos-Inv :
      (mark : List ℕ → Act (State A K U X T)) (txid : List ℕ) (l : List Stxo) (s : State A K U X T)
      → MarkKeeps mark
      → All FitsStxo l
      → Ok s
      → Ok (dead_stxos calls us xs ts mark txid l s).0
  unfolding dead_stxos
  dead_stxos-Inv mark txid [] s marks fits h = h
  dead_stxos-Inv mark txid (v ∷ l) s marks fits h =
      let rest : Act (State A K U X T) = dead_stxos calls us xs ts mark txid l in
      let first = revive-Inv txid v s h fits.0 in
      seq (revive calls us xs ts txid v) (follow calls us xs ts mark txid v >> rest) s first λ t e.
        let second =
          follow-Inv mark txid v t marks (state_of (revive calls us xs ts txid v) s t first e)
            fits.0 in
        seq (follow calls us xs ts mark txid v) rest t second λ u q.
          dead_stxos-Inv mark txid l u marks fits.1
            (state_of (follow calls us xs ts mark txid v) t u second q)

  dead_utxos-Inv :
      (txid : List ℕ) (l : List Utxo) (s : State A K U X T)
      → All FitsUtxo l
      → Ok s
      → Ok (dead_utxos calls us xs ts txid l s).0
  unfolding dead_utxos
  dead_utxos-Inv txid [] s fits h = h
  dead_utxos-Inv txid (v ∷ l) s fits h =
      let act : Act (State A K U X T) =
        if bytes_eq txid v.op.hash then delete_utxo calls us xs ts v else skip in
      let first = one (Bool-cases (bytes_eq txid v.op.hash)) in
      seq act (dead_utxos calls us xs ts txid l) s first
        λ t e. dead_utxos-Inv txid l t fits.1 (state_of act s t first e)
    where
      one :
          ((bytes_eq txid v.op.hash ≡ true) ⊎ (bytes_eq txid v.op.hash ≡ false))
          → Ok ((if bytes_eq txid v.op.hash then delete_utxo calls us xs ts v else skip) s).0
      one (inl dead) =
          rw dead (delete_utxo-Inv calls us xs ts ValidU ValidX keeps_u keeps_x P v s h fits.0)
      one (inr alive) = rw alive h

  stxos :
      (mark : List ℕ → Act (State A K U X T)) (txid : List ℕ) (s : State A K U X T)
      → MarkKeeps mark
      → Ok s
      → Ok (with_stxos calls us xs ts (dead_stxos calls us xs ts mark txid) s).0
  unfolding with_stxos
  stxos mark txid s marks h =
      rw (h.all_stxos, with_stxos)
        (dead_stxos-Inv mark txid h.spent s marks
          (keeps_x.all_fit s.stxos h.spent h.valid_stxos h.all_stxos) h)

  outs :
      (txid : List ℕ) (s : State A K U X T)
      → Ok s
      → Ok (with_utxos calls us xs ts (dead_utxos calls us xs ts txid) s).0
  unfolding with_utxos
  outs txid s h =
      rw (h.all_utxos, with_utxos)
        (dead_utxos-Inv txid h.unspent s
          (keeps_u.all_fit s.utxos h.unspent h.valid_utxos h.all_utxos) h)

  mark_as_dead-Inv : (fuel : ℕ) → MarkKeeps (mark_as_dead calls us xs ts fuel)
  unfolding mark_as_dead
  mark_as_dead-Inv zero txid s h = h
  mark_as_dead-Inv (suc fuel) txid s h =
      let mark : List ℕ → Act (State A K U X T) = mark_as_dead calls us xs ts fuel in
      let first = stxos mark txid s (mark_as_dead-Inv fuel) h in
      seq (with_stxos calls us xs ts (dead_stxos calls us xs ts mark txid))
        (with_utxos calls us xs ts (dead_utxos calls us xs ts txid)
          >> ignore (kill calls us xs ts txid))
        s first
        λ t e.
          let second = outs txid t (
            state_of (with_stxos calls us xs ts (dead_stxos calls us xs ts mark txid)) s t first
              e) in
          seq (with_utxos calls us xs ts (dead_utxos calls us xs ts txid))
            (ignore (kill calls us xs ts txid)) t second
            λ u q.
              kill-same calls us xs ts ValidU ValidX keeps_u keeps_x P
                (λ z x. Ok (record u { utxos = z; stxos = x })) txid u
                (state_of (with_utxos calls us xs ts (dead_utxos calls us xs ts txid)) t u second q)

  -- A transaction that is marked as dead, with all that depends on it, leaves the outputs apart.
  pub mark_dead-Inv :
      (txid : List ℕ) (s : State A K U X T) → Ok s → Ok (mark_dead calls us xs ts txid s).0
  unfolding mark_dead
  mark_dead-Inv txid s h = mark_as_dead-Inv (suc (spent_count calls us xs ts s)) txid s h
