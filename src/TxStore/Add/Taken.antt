-- ===== src/TxStore/Add/Taken.antt =====
-- What the outputs that AddTransaction of wallet/wltbtc/txstore.go takes off a list are worth.
use go_electrum_client.Prelude.{
  some_injective, ◌≡◌, ◌≢◌, refl, sym, ap, ◌∙◌, inl, inr, Bool, true, false, ◌||◌, Option, none,
  some, List, [], ◌∷◌, arith, if◌then◌else◌, Bool-cases,
}
use go_electrum_client.Prelude.Int.{ℤ, pos, ◌+ℤ◌, ◌-ℤ◌, int_laws}
use go_electrum_client.Datastore.{OutPoint, Utxo, out_points_equal}
use go_electrum_client.Datastore.Keyed.{find, erase, erase-none, Distinct}
use go_electrum_client.Stores.Refined.{same_utxo, eq_of_out_points_equal}
use go_electrum_client.TxStore.Add.{keep_first, take_spent}
use go_electrum_client.Wallet.Sums.{sum_of, zero_add}

abbrev pub is_spent_by : List OutPoint → Utxo → Bool
is_spent_by [] u = false
is_spent_by (i ∷ l) u = out_points_equal i u.op || is_spent_by l u

abbrev pub spent_worth : List OutPoint → Utxo → ℤ
spent_worth ins u = if u.watch_only then pos 0 else if is_spent_by ins u then u.value else pos 0

abbrev pub is_op : OutPoint → Utxo → Bool
is_op i u = out_points_equal i u.op

pub nothing_spent : (outs : List Utxo) → sum_of (spent_worth []) outs ≡ pos 0
unfolding sum_of
nothing_spent [] = refl
nothing_spent (u ∷ outs) =
    ground (arith, nothing_spent outs, zero_add (sum_of (spent_worth []) outs))

pub add_zero : (a : ℤ) → a +ℤ pos 0 ≡ a
add_zero a = omega int_laws

pub sub_zero : (a : ℤ) → a -ℤ pos 0 ≡ a
sub_zero a = omega int_laws

-- An input that spends nothing in a list counts for nothing.
pub unspent_worth :
    (i : OutPoint) (l : List OutPoint) (outs : List Utxo)
    → find (is_op i) outs ≡ none
    → sum_of (spent_worth (i ∷ l)) outs ≡ sum_of (spent_worth l) outs
unfolding find sum_of
unspent_worth i l [] e = refl
unspent_worth i l (u ∷ outs) e = elim (Bool-cases (out_points_equal i u.op)) [
  | inl here ↦ absurd (ground arith)
  | inr there ↦
      rw there (ap (λ z. spent_worth l u +ℤ z) (unspent_worth i l outs (rw (there, find) at e)))
]

some_ne_none : {A : Type 0} {a : A} → some a ≢ none
some_ne_none e = cc

keep_first-none : (v : Utxo) (o : Option (Utxo × List Utxo)) → keep_first v o ≡ none → o ≡ none
keep_first-none v none e = refl
keep_first-none v (some (u, m)) e = absurd cc

pub take_spent-none :
    (i : OutPoint) (outs : List Utxo) → take_spent i outs ≡ none → find (is_op i) outs ≡ none
unfolding take_spent find
take_spent-none i [] e = refl
take_spent-none i (u ∷ outs) e = elim (Bool-cases (out_points_equal i u.op)) [
  | inl here ↦ absurd (some_ne_none (rw (here, take_spent) at e))
  | inr there ↦
      rw there (
        take_spent-none i outs
          (keep_first-none u (take_spent i outs) (rw (there, take_spent) at e)))
]

none_left :
    (i : OutPoint) (v : Utxo) (outs : List Utxo)
    → out_points_equal i v.op ≡ true
    → find (same_utxo v) outs ≡ none
    → find (is_op i) outs ≡ none
none_left i v outs here e =
    ap (λ o. find (λ (w : Utxo). out_points_equal o w.op) outs) (eq_of_out_points_equal i v.op here)
    ∙ e

keep_first-some :
    (v : Utxo) (o : Option (Utxo × List Utxo)) (u : Utxo) (left : List Utxo)
    → keep_first v o ≡ some (u, left)
    → (m : List Utxo) × (o ≡ some (u, m)) × (v ∷ m ≡ left)
keep_first-some v none u left e = absurd cc
keep_first-some v (some (w, m)) u left e =
    let q : (w, v ∷ m) ≡ (u, left) = some_injective e in
    (
      m,
      ap (λ z. some (z, m)) (ap (λ (p : Utxo × List Utxo). p.0) q),
      ap (λ (p : Utxo × List Utxo). p.1) q,
    )

-- Where the outputs differ, the one that is taken has the output point, and the others are left.
pub take_spent-some :
    (i : OutPoint) (outs left : List Utxo) (u : Utxo)
    → Distinct same_utxo outs
    → take_spent i outs ≡ some (u, left)
    → (find (is_op i) outs ≡ some u) × (left ≡ erase (is_op i) outs)
unfolding take_spent find erase
take_spent-some i [] left u d e = absurd cc
take_spent-some i (v ∷ outs) left u d e = elim (Bool-cases (out_points_equal i v.op)) [
  | inl here ↦
      let q : (v, outs) ≡ (u, left) = some_injective (rw (here, take_spent) at e) in
      rw here (
        ap (λ (p : Utxo × List Utxo). some p.0) q,
        sym (ap (λ (p : Utxo × List Utxo). p.1) q)
            ∙ sym (erase-none (is_op i) outs (none_left i v outs here d.0)),
      )
  | inr there ↦
      let (m, q, same) =
        keep_first-some v (take_spent i outs) u left (rw (there, take_spent) at e) in
      let (found, rest) = take_spent-some i outs m u d.1 q in
      rw there (found, sym same ∙ ap (◌∷◌ v) rest)
]

abbrev pub owned : Utxo → ℤ
owned u = if u.watch_only then pos 0 else u.value

swap_sum : (a b c : ℤ) → a +ℤ (b +ℤ c) ≡ b +ℤ (a +ℤ c)
swap_sum a b c = omega int_laws

pub taken_worth :
    (i : OutPoint) (l : List OutPoint) (outs : List Utxo) (u : Utxo)
    → Distinct same_utxo outs
    → find (is_op i) outs ≡ some u
    → sum_of (spent_worth (i ∷ l)) outs ≡ owned u +ℤ sum_of (spent_worth l) (erase (is_op i) outs)
unfolding sum_of find erase
taken_worth i l [] u d e = absurd cc
taken_worth i l (v ∷ outs) u d e = elim (Bool-cases (out_points_equal i v.op)) [
  | inl here ↦
      let same : v ≡ u = some_injective (rw (here, find) at e) in
      let gone = none_left i v outs here d.0 in
      rw here (
        ap (λ z. owned v +ℤ z) (unspent_worth i l outs gone)
        ∙ ap (λ z. owned v +ℤ sum_of (spent_worth l) z) (sym (erase-none (is_op i) outs gone))
        ∙ ap (λ z. owned z +ℤ sum_of (spent_worth l) (erase (is_op i) outs)) same)
  | inr there ↦ rw there (
      ap (λ z. spent_worth l v +ℤ z) (taken_worth i l outs u d.1 (rw (there, find) at e))
      ∙ swap_sum (spent_worth l v) (owned u) (sum_of (spent_worth l) (erase (is_op i) outs)))
]
