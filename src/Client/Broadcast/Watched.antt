-- ===== src/Client/Broadcast/Watched.antt =====
-- What Broadcast leaves subscribed.
use go_electrum_client.Prelude.{
  some_injective, ℕ, ◌≡◌, refl, sym, subst, ap, ◌∙◌, inl, inr, Bool, true, false, Option, none,
  some, List, [], ◌∷◌, if◌then◌else◌, Option-cases, arith,
}
use go_electrum_client.Prelude.Bytes.{bytes_eq, bytes_eq_iff}
use go_electrum_client.Prelude.Results.{
  Result, ok, err, panic, Result-cases, err_ne_ok, panic_ne_ok,
}
use go_electrum_client.Datastore.Keyed.{In}
use go_electrum_client.TxStore.{Tx, TxOut, Calls, new_wire_tx}
use go_electrum_client.Client.{ElectrumWallet, ElectrumX, Scripts, Client, ClientError, bad_script}
use go_electrum_client.Client.Subscribed.{Maps}
use go_electrum_client.Client.Broadcast.{
  is_ours, pays_back, back_to_wallet, on_sent, broadcast_tx, broadcast,
}
use go_electrum_client.Client.Broadcast.Loop.{HasSub, AllBack, run, run-AllBack}

module _ {A W N K : Type 0} (wallets : ElectrumWallet A W) (nodes : ElectrumX N)
    (scripts : Scripts A) (calls : Calls A K) where
  module _ (maps : Maps wallets) where
    abbrev Has : W → List ℕ → Type 0
    Has = HasSub wallets nodes scripts calls

    abbrev Backs : W → List (Option (List ℕ)) → Type 0
    Backs = AllBack wallets nodes scripts calls maps

    abbrev loop : N → W → List (Option (List ℕ)) → N × W × Result ClientError (Unit {0})
    loop = run wallets nodes scripts calls

    abbrev backs : List A → List TxOut → Option (List (Option (List ℕ)))
    backs = back_to_wallet wallets nodes scripts calls

    -- Whether an output has one address, and that is among ours.
    unfoldable is_back : List A → TxOut → Bool
    is_back ours out = elim (scripts.extract_pk_script_addrs out.pk_script) [
      | none ↦ false
      | some addresses ↦ pays_back wallets nodes scripts calls ours addresses
    ]

    is_ours_of_In :
        (ours : List A) (a b : A)
        → In b ours
        → scripts.script_address a ≡ scripts.script_address b
        → is_ours wallets nodes scripts calls ours a ≡ true
    unfolding is_ours
    is_ours_of_In [] a b i same = absurd i
    is_ours_of_In (x ∷ l) a b (inl here) same =
        let e : bytes_eq (scripts.script_address a) (scripts.script_address x) ≡ true =
          (bytes_eq_iff (scripts.script_address a) (scripts.script_address x)).1
            (same ∙ ap scripts.script_address here) in
        rw e refl
    is_ours_of_In (x ∷ l) a b (inr i) same = ground (arith, is_ours_of_In l a b i same)

    is_back_of_In :
        (ours : List A) (out : TxOut) (a b : A)
        → scripts.extract_pk_script_addrs out.pk_script ≡ some (a ∷ [])
        → In b ours
        → scripts.script_address a ≡ scripts.script_address b
        → is_back ours out ≡ true
    unfolding is_back pays_back
    is_back_of_In ours out a b only i same = rw (only, is_back) (is_ours_of_In ours a b i same)

    -- The entries of a list of outputs that could be read.
    record Read (ours : List A) (out : TxOut) (l : List TxOut) (bs : List (Option (List ℕ)))
        : Type 0 where
      pub rest : List (Option (List ℕ))
      pub read : backs ours l ≡ some rest
      pub now : bs ≡ (if is_back ours out then some out.pk_script else none) ∷ rest

    Read-first :
        (ours : List A) (out : TxOut) (l : List TxOut) (bs : List (Option (List ℕ)))
        → backs ours (out ∷ l) ≡ some bs
        → Read ours out l bs
    unfolding back_to_wallet is_back
    Read-first ours out l bs e =
        elim (Option-cases (scripts.extract_pk_script_addrs out.pk_script)) [
          | inl q ↦
              let r : backs ours (out ∷ l) ≡ none = rw (q, back_to_wallet) refl in
              absurd (cc (r, e))
          | inr (addresses, q) ↦ elim (Option-cases (backs ours l)) [
            | inl o ↦
                let r : backs ours (out ∷ l) ≡ none = rw (q, back_to_wallet) (rw o refl) in
                absurd (cc (r, e))
            | inr (rest, o) ↦
                let r : backs ours (out ∷ l)
                    ≡ some (
                        (if pays_back wallets nodes scripts calls ours addresses
                          then some out.pk_script
                          else none)
                        ∷ rest) =
                  rw (q, back_to_wallet) (rw o refl) in
                record { rest = rest; read = o; now = rw (q, is_back) (some_injective (sym e ∙ r)) }
          ]
        ]

    AllBack-tail :
        (w : W) (b : Option (List ℕ)) (l : List (Option (List ℕ))) → Backs w (b ∷ l) → Backs w l
    AllBack-tail w none l h = h
    AllBack-tail w (some x) l h = h.1

    back_HasSub :
        (ours : List A) (w : W) (out : TxOut) (l : List TxOut) (bs : List (Option (List ℕ)))
        → backs ours l ≡ some bs
        → In out l
        → is_back ours out ≡ true
        → Backs w bs
        → Has w out.pk_script
    back_HasSub ours w out [] bs e i back all = absurd i
    back_HasSub ours w out (o ∷ l) bs e (inl same) back all =
        let r = Read-first ours o l bs e in
        let here : is_back ours o ≡ true = ap (is_back ours) (sym same) ∙ back in
        let first : bs ≡ some o.pk_script ∷ r.rest = r.now ∙ rw here refl in
        subst (λ (x : TxOut). Has w x.pk_script) (sym same) (subst (Backs w) first all).0
    back_HasSub ours w out (o ∷ l) bs e (inr i) back all =
        let r = Read-first ours o l bs e in
        back_HasSub ours w out l r.rest r.read i back (
          AllBack-tail w (if is_back ours o then some o.pk_script else none) r.rest
            (subst (Backs w) r.now all))

    abbrev C' : Type 0
    C' = Client N W

    abbrev Sent : TxOut → C' × Result ClientError (List ℕ) → Type 0
    Sent out t = (v : W) × (t.0.wallet ≡ some v) × Has v out.pk_script

    on_sent-Sent :
        (m : N) (o : Option (List ℕ)) (w : W) (txid : List ℕ) (bs : List (Option (List ℕ)))
        (out : TxOut)
        → (on_sent wallets nodes scripts calls w bs (m, o)).1 ≡ ok txid
        → ((v : W) → Backs v bs → Has v out.pk_script)
        → Sent out (on_sent wallets nodes scripts calls w bs (m, o))
    unfolding on_sent
    on_sent-Sent m none w txid bs out e f = absurd (err_ne_ok e)
    on_sent-Sent m (some t) w txid bs out e f = elim (Result-cases (loop m w bs).2) [
      | inl (u, q) ↦ (
        (loop m w bs).1,
        refl,
        f (loop m w bs).1 (run-AllBack wallets nodes scripts calls maps bs m w q),
      )
      | inr (inl (x, q)) ↦
          let r : (on_sent wallets nodes scripts calls w bs (m, some t)).1 ≡ err x =
            rw (q, on_sent) refl in
          absurd (err_ne_ok (sym r ∙ e))
      | inr (inr q) ↦
          let r : (on_sent wallets nodes scripts calls w bs (m, some t)).1 ≡ panic =
            rw (q, on_sent) refl in
          absurd (panic_ne_ok (sym r ∙ e))
    ]

    broadcast_tx-Sent :
        (n : N) (w : W) (raw txid : List ℕ) (tx : Tx) (out : TxOut)
        → In out tx.tx_out
        → is_back (wallets.list_addresses w) out ≡ true
        → (broadcast_tx wallets nodes scripts calls n w raw tx).1 ≡ ok txid
        → Sent out (broadcast_tx wallets nodes scripts calls n w raw tx)
    unfolding broadcast_tx
    broadcast_tx-Sent n w raw txid tx out i back e =
        elim (Option-cases (backs (wallets.list_addresses w) tx.tx_out)) [
          | inl q ↦
              let r : (broadcast_tx wallets nodes scripts calls n w raw tx).1 ≡ err bad_script =
                rw (q, broadcast_tx) refl in
              absurd (err_ne_ok (sym r ∙ e))
          | inr (bs, q) ↦
              let (m, o) = nodes.broadcast n (scripts.hex raw) in
              let same : broadcast_tx wallets nodes scripts calls n w raw tx
                  ≡ on_sent wallets nodes scripts calls w bs (m, o) =
                rw (q, broadcast_tx) refl in
              subst (Sent out) (sym same) (
                on_sent-Sent m o w txid bs out
                  (ap (λ (t : C' × Result ClientError (List ℕ)). t.1) (sym same) ∙ e)
                  (λ v. back_HasSub (wallets.list_addresses w) v out tx.tx_out bs q i back))
        ]

    -- Where Broadcast returns a transaction id, every output whose script has one address, with the
    -- script address of any address that the wallet lists, has a subscription of its script in the
    -- wallet, which keeps its subscriptions as a map.
    pub broadcast-HasSub :
        (n : N) (w : W) (raw txid : List ℕ) (tx : Tx) (out : TxOut) (a b : A)
        → new_wire_tx calls raw true ≡ ok tx
        → In out tx.tx_out
        → scripts.extract_pk_script_addrs out.pk_script ≡ some (a ∷ [])
        → In b (wallets.list_addresses w)
        → scripts.script_address a ≡ scripts.script_address b
        → (broadcast wallets nodes scripts calls (record { x = some n; wallet = some w }) raw).1
          ≡ ok txid
        → (v : W) × ((broadcast wallets nodes scripts calls
              (record { x = some n; wallet = some w })
              raw).0.wallet
            ≡ some v)
          × HasSub wallets nodes scripts calls v out.pk_script
    unfolding broadcast
    broadcast-HasSub n w raw txid tx out a b decoded i only listed alike e =
        let back = is_back_of_In (wallets.list_addresses w) out a b only listed alike in
        let same : broadcast wallets nodes scripts calls (record { x = some n; wallet = some w })
              raw
            ≡ broadcast_tx wallets nodes scripts calls n w raw tx =
          rw (decoded, broadcast) refl in
        subst (Sent out) (sym same) (
          broadcast_tx-Sent n w raw txid tx out i back
            (ap (λ (t : C' × Result ClientError (List ℕ)). t.1) (sym same) ∙ e))
