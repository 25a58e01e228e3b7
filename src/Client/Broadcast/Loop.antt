-- ===== src/Client/Broadcast/Loop.antt =====
-- The loop of Broadcast over the outputs that pay back.
use go_electrum_client.Prelude.{
  ℕ, ◌≡◌, refl, sym, subst, ap, ◌∙◌, inl, inr, Option, none, some, List, [], ◌∷◌, Option-cases,
}
use go_electrum_client.Prelude.Results.{
  Result, ok, err, panic, Result-cases, err_ne_ok, panic_ne_ok,
}
use go_electrum_client.Datastore.{Subscription}
use go_electrum_client.TxStore.{Calls}
use go_electrum_client.Client.{
  ElectrumWallet, ElectrumX, Scripts, ClientError, node_error, empty_result,
}
use go_electrum_client.Client.Subscribed.{Maps, IsSubscribed, kept_under}
use go_electrum_client.Client.Broadcast.{back_sub, subscribe_backs}

module _ {A W N K : Type 0} (wallets : ElectrumWallet A W) (nodes : ElectrumX N)
    (scripts : Scripts A) (calls : Calls A K) where
  abbrev pub HasSub : W → List ℕ → Type 0
  HasSub w script = IsSubscribed (wallets.get_subscription w (scripts.hex script))

  abbrev pub run : N → W → List (Option (List ℕ)) → N × W × Result ClientError (Unit {0})
  run = subscribe_backs wallets nodes scripts calls

  abbrev sub : List ℕ → Subscription
  sub = back_sub wallets nodes scripts calls

  -- A loop that ends well has subscribed to its first script, then done the rest.
  record Went (n : N) (w : W) (script : List ℕ) (l : List (Option (List ℕ))) : Type 0 where
    pub m : N
    pub v : W
    pub added : wallets.add_subscription w (sub script) ≡ ok v
    pub rest : run n w (some script ∷ l) ≡ run m v l

  went :
      (n : N) (w : W) (script : List ℕ) (l : List (Option (List ℕ)))
      → (run n w (some script ∷ l)).2 ≡ ok tt
      → Went n w script l
  unfolding subscribe_backs
  went n w script l e = elim (Result-cases (wallets.add_subscription w (sub script))) [
    | inr (inl (x, q)) ↦
        let r : (run n w (some script ∷ l)).2 ≡ panic = rw (q, subscribe_backs) refl in
        absurd (panic_ne_ok (sym r ∙ e))
    | inr (inr q) ↦
        let r : (run n w (some script ∷ l)).2 ≡ panic = rw (q, subscribe_backs) refl in
        absurd (panic_ne_ok (sym r ∙ e))
    | inl (v, q) ↦
        elim (Option-cases
          (nodes.subscribe_scripthash_notify n (sub script).electrum_scripthash).1) [
            | inr (some t, o) ↦ record {
              m = (nodes.subscribe_scripthash_notify n (sub script).electrum_scripthash).0;
              v = v;
              added = q;
              rest = rw (q, subscribe_backs) (rw o refl);
            }
            | inr (none, o) ↦
                let r : (run n w (some script ∷ l)).2 ≡ err empty_result =
                  rw (q, subscribe_backs) (rw o refl) in
                absurd (err_ne_ok (sym r ∙ e))
            | inl o ↦
                let r : (run n w (some script ∷ l)).2 ≡ err node_error =
                  rw (q, subscribe_backs) (rw o refl) in
                absurd (err_ne_ok (sym r ∙ e))
          ]
  ]

  module _ (maps : Maps wallets) where
    pub run-kept :
        (l : List (Option (List ℕ))) (n : N) (w : W) (script : List ℕ)
        → (run n w l).2 ≡ ok tt
        → HasSub w script
        → HasSub (run n w l).1 script
    unfolding subscribe_backs
    run-kept [] n w script e there = there
    run-kept (none ∷ l) n w script e there = run-kept l n w script e there
    run-kept (some x ∷ l) n w script e there =
        let s = went n w x l e in
        subst (λ (t : N × W × Result ClientError (Unit {0})). HasSub t.1 script) (sym s.rest)
          (run-kept l s.m s.v script
            (ap (λ (t : N × W × Result ClientError (Unit {0})). t.2) (sym s.rest) ∙ e)
            (kept_under wallets maps w s.v (sub x) (scripts.hex script) s.added there))

    -- The scripts of the entries that are there.
    abbrev pub AllBack : W → List (Option (List ℕ)) → Type 0
    AllBack w [] = Unit {0}
    AllBack w (none ∷ l) = AllBack w l
    AllBack w (some script ∷ l) = HasSub w script × AllBack w l

    pub run-AllBack :
        (l : List (Option (List ℕ))) (n : N) (w : W)
        → (run n w l).2 ≡ ok tt
        → AllBack (run n w l).1 l
    unfolding subscribe_backs
    run-AllBack [] n w e = tt
    run-AllBack (none ∷ l) n w e = run-AllBack l n w e
    run-AllBack (some x ∷ l) n w e =
        let s = went n w x l e in
        let e' = ap (λ (t : N × W × Result ClientError (Unit {0})). t.2) (sym s.rest) ∙ e in
        subst (λ (t : N × W × Result ClientError (Unit {0})). HasSub t.1 x × AllBack t.1 l)
          (sym s.rest)
          (
            run-kept l s.m s.v x e' (sub x, maps.added w s.v (sub x) s.added),
            run-AllBack l s.m s.v e',
          )
