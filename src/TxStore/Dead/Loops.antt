-- ===== src/TxStore/Dead/Loops.antt =====
-- The loops of markAsDead in wallet/wltbtc/txstore.go, and the recursion, come to an end.
use go_electrum_client.Prelude.{
  ℕ, zero, suc, ◌<◌, ◌≡◌, ◌≢◌, sym, ap, ◌∙◌, ◌⊎◌, inl, inr, Bool, true, false, ◌||◌, Option, some,
  List, [], ◌∷◌, arith, if◌then◌else◌, Bool-cases, length,
}
use go_electrum_client.Prelude.Bytes.{bytes_eq}
use go_electrum_client.Prelude.Results.{ok, Result-cases}
use go_electrum_client.Datastore.{Utxo, Stxo}
use go_electrum_client.Datastore.Interface.{Store, TxnStore, Keeps}
use go_electrum_client.Datastore.Keyed.{
  erase, In, All, All-of_In, erase-erase, length-erase-In, erase_nothing,
}
use go_electrum_client.Stores.Refined.{same_stxo, FitsStxo}
use go_electrum_client.TxStore.{Calls, State, TxError, still_marking}
use go_electrum_client.TxStore.Dead.{
  Act, ◌>>◌, skip, ignore, put_utxo, delete_utxo, kill, with_stxos, with_utxos, revive, follow,
  mark_stxo_as_dead, dead_stxos, dead_utxos, mark_as_dead, mark_dead, spent_count,
}
use go_electrum_client.TxStore.Dead.Ends.{
  Left, Ends, Ends-seq, Ends-seq_with, skip-Ends, kill-Ends, put_utxo-Ends, delete_utxo-Ends,
  mark_stxo-Ends,
}

module _ {A K U X T : Type 0} (calls : Calls A K) (us : Store Utxo U) (xs : Store Stxo X)
    (ts : TxnStore T) (Valid : X → Type 0) (keeps : Keeps same_stxo FitsStxo xs Valid) where
  abbrev LeftOf : List Stxo → X → Type 0
  LeftOf = Left calls us xs ts Valid keeps

  abbrev EndsOn : List Stxo → State A K U X T × Option TxError → Type 0
  EndsOn = Ends calls us xs ts Valid keeps

  revive_ends :
      (l : List Stxo) (txid : List ℕ) (v : Stxo) (s : State A K U X T)
      → In v l
      → All FitsStxo l
      → LeftOf l s.stxos
      → EndsOn l (revive calls us xs ts txid v s)
  unfolding revive
  revive_ends l txid v s i fits left = elim (Bool-cases (bytes_eq txid v.spend_txid)) [
    | inl spent ↦ rw spent (
        Ends-seq calls us xs ts Valid keeps l (mark_stxo_as_dead calls us xs ts v)
          (put_utxo calls us xs ts v.utxo) s
          (mark_stxo-Ends calls us xs ts Valid keeps l v s i fits left).0
          (put_utxo-Ends calls us xs ts Valid keeps l v.utxo))
    | inr other ↦ rw other (skip-Ends calls us xs ts Valid keeps l s left)
  ]

  -- What is asked of the call of markAsDead in the loop, on fewer than `n` spent outputs.
  abbrev MarkEnds : ℕ → (List ℕ → Act (State A K U X T)) → Type 0
  MarkEnds n mark =
      (txid : List ℕ) (s : State A K U X T) (m : List Stxo)
      → Valid s.stxos
      → xs.get_all s.stxos ≡ ok m
      → length m < n
      → EndsOn m (mark txid s)

  follow_ends :
      (l : List Stxo) (mark : List ℕ → Act (State A K U X T)) (txid : List ℕ) (v : Stxo)
      (s : State A K U X T)
      → MarkEnds (length l) mark
      → In v l
      → All FitsStxo l
      → LeftOf l s.stxos
      → EndsOn l (follow calls us xs ts mark txid v s)
  unfolding follow
  follow_ends l mark txid v s marks i fits left = elim (Bool-cases (bytes_eq txid v.utxo.op.hash)) [
    | inr other ↦ rw other (skip-Ends calls us xs ts Valid keeps l s left)
    | inl spends ↦
        let (ends, without) = mark_stxo-Ends calls us xs ts Valid keeps l v s i fits left in
        rw spends (
          Ends-seq_with calls us xs ts Valid keeps l (mark_stxo_as_dead calls us xs ts v)
            (mark v.spend_txid) s ends
            λ t e _.
              let (q, here, m, valid, all, same) = without t e in
              let fewer : length m < length l =
                omega (arith, ap length same, length-erase-In q v l i here) in
              let (ended, (q', m', valid', all', same')) = marks v.spend_txid t m valid all fewer in
              (
                ended,
                (
                  (λ w. q w || q' w),
                  m',
                  valid',
                  all',
                  same' ∙ ap (erase q') same ∙ erase-erase q q' l,
                ),
              ))
  ]

  dead_stxos_ends :
      (l : List Stxo) (mark : List ℕ → Act (State A K U X T)) (txid : List ℕ) (rest : List Stxo)
      (s : State A K U X T)
      → MarkEnds (length l) mark
      → All (λ v. In v l) rest
      → All FitsStxo l
      → LeftOf l s.stxos
      → EndsOn l (dead_stxos calls us xs ts mark txid rest s)
  unfolding dead_stxos
  dead_stxos_ends l mark txid [] s marks i fits left = skip-Ends calls us xs ts Valid keeps l s left
  dead_stxos_ends l mark txid (v ∷ rest) s marks i fits left =
      let rest_act = dead_stxos calls us xs ts mark txid rest in
      let follow_act = follow calls us xs ts mark txid v in
      Ends-seq calls us xs ts Valid keeps l (revive calls us xs ts txid v) (follow_act >> rest_act)
        s (revive_ends l txid v s i.0 fits left)
        λ t left_t.
          Ends-seq calls us xs ts Valid keeps l follow_act rest_act t
            (follow_ends l mark txid v t marks i.0 fits left_t)
            λ u left_u. dead_stxos_ends l mark txid rest u marks i.1 fits left_u

  dead_utxos_ends :
      (l : List Stxo) (txid : List ℕ) (outs : List Utxo) (s : State A K U X T)
      → LeftOf l s.stxos
      → EndsOn l (dead_utxos calls us xs ts txid outs s)
  unfolding dead_utxos
  dead_utxos_ends l txid [] s left = skip-Ends calls us xs ts Valid keeps l s left
  dead_utxos_ends l txid (u ∷ outs) s left =
      Ends-seq calls us xs ts Valid keeps l
        (if bytes_eq txid u.op.hash then delete_utxo calls us xs ts u else skip)
        (dead_utxos calls us xs ts txid outs) s (one (Bool-cases (bytes_eq txid u.op.hash)))
        (dead_utxos_ends l txid outs)
    where
      one :
          ((bytes_eq txid u.op.hash ≡ true) ⊎ (bytes_eq txid u.op.hash ≡ false))
          → EndsOn l ((if bytes_eq txid u.op.hash then delete_utxo calls us xs ts u else skip) s)
      one (inl dead) = rw dead (delete_utxo-Ends calls us xs ts Valid keeps l u s left)
      one (inr alive) = rw alive (skip-Ends calls us xs ts Valid keeps l s left)

  all_of :
      (l : List Stxo) (s : State A K U X T)
      → Valid s.stxos
      → xs.get_all s.stxos ≡ ok l
      → LeftOf l s.stxos
  all_of l s valid all = ((λ v. false), l, valid, all, sym (erase_nothing l))

  ignore_ends :
      (l : List Stxo) (m : Act (State A K U X T)) (s : State A K U X T)
      → EndsOn l (m s)
      → EndsOn l (ignore m s)
  ignore_ends l m s h = ((λ q. cc), h.1)

  mark_as_dead_ends : (fuel : ℕ) → MarkEnds fuel (mark_as_dead calls us xs ts fuel)
  unfolding mark_as_dead with_stxos with_utxos
  mark_as_dead_ends zero txid s l valid all few = absurd (omega arith)
  mark_as_dead_ends (suc fuel) txid s l valid all few =
      Ends-seq calls us xs ts Valid keeps l
        (with_stxos calls us xs ts (dead_stxos calls us xs ts mark txid)) after s
        (rw (all, with_stxos)
          (dead_stxos_ends l mark txid l s
            (λ i t m v a below. mark_as_dead_ends fuel i t m v a (omega arith))
            (All-of_In (λ v. In v l) l (λ v i. i)) (keeps.all_fit s.stxos l valid all)
            (all_of l s valid all)))
        after_ends
    where
      mark : List ℕ → Act (State A K U X T)
      mark = mark_as_dead calls us xs ts fuel

      last : Act (State A K U X T)
      last = ignore (kill calls us xs ts txid)

      after : Act (State A K U X T)
      after = with_utxos calls us xs ts (dead_utxos calls us xs ts txid) >> last

      outs_ends :
          (t : State A K U X T)
          → LeftOf l t.stxos
          → EndsOn l (with_utxos calls us xs ts (dead_utxos calls us xs ts txid) t)
      outs_ends t left = elim (Result-cases (us.get_all t.utxos)) [
        | inl (outs, e) ↦ rw (e, with_utxos) (dead_utxos_ends l txid outs t left)
        | inr (inl (x, e)) ↦ rw (e, with_utxos) ((λ q. cc), left)
        | inr (inr e) ↦ rw (e, with_utxos) ((λ q. cc), left)
      ]

      after_ends : (t : State A K U X T) → LeftOf l t.stxos → EndsOn l (after t)
      after_ends t left =
          Ends-seq calls us xs ts Valid keeps l
            (with_utxos calls us xs ts (dead_utxos calls us xs ts txid)) last t (outs_ends t left)
            λ u left_u.
              ignore_ends l (kill calls us xs ts txid) u
                (kill-Ends calls us xs ts Valid keeps l txid u left_u)

  -- Where the spent outputs can be listed, markAsDead comes to an end whatever the other stores and
  -- the later calls answer: its nesting is never deeper than the number of spent outputs. Those that
  -- are left at the end can be listed, and are some of those before.
  pub mark_dead_terminates :
      (txid : List ℕ) (s : State A K U X T) (l : List Stxo)
      → Valid s.stxos
      → xs.get_all s.stxos ≡ ok l
      → ((mark_dead calls us xs ts txid s).1 ≢ some still_marking)
        × (t : Stxo → Bool) × (xs.get_all (mark_dead calls us xs ts txid s).0.stxos
            ≡ ok (erase t l))
  unfolding mark_dead spent_count
  mark_dead_terminates txid s l valid all =
      let few : length l < suc (spent_count calls us xs ts s) =
        rw (all, spent_count) (omega arith) in
      let (ends, (t, m, _, listed, same)) =
        mark_as_dead_ends (suc (spent_count calls us xs ts s)) txid s l valid all few in
      (ends, t, listed ∙ ap ok same)
