-- ===== src/Fees/Bounds.antt =====
-- GetFeePerByte of wallet/fees.go: its bound and its cache.
use go_electrum_client.Prelude.{
  ℕ, ◌-◌, ◌≤◌, ◌≡◌, ◌∙◌, refl, sym, ap, subst, inl, inr, Bool, true, false, Option, none, some,
  arith, Bool-cases, if◌then◌else◌, ltb,
}
use go_electrum_client.Prelude.Int.{ℤ, pos, ◌≤ℤ◌, ltb_ℤ, not_ltb_ℤ, int_laws, eqb_ℤ}
use go_electrum_client.Prelude.Results.{Result, ok, err, panic}
use go_electrum_client.Fees.{
  FeeLevel, priority, normal, economic, fee_bump, super_economic, ServiceFees, FeeProvider, Answer,
  no_reply, not_fees, null_fees, new_fees, default_fee, select_fee, fee_of, minute, is_stale, keep,
  get_fee_per_byte,
}

-- The configured fees do not pass the configured maximum.
pub record Configured (p : FeeProvider) : Type 0 where
  pub priority_low : p.priority_fee ≤ℤ p.max_fee
  pub normal_low : p.normal_fee ≤ℤ p.max_fee
  pub economic_low : p.economic_fee ≤ℤ p.max_fee

-- A fee that is returned is at most the maximum; an error is not returned.
abbrev pub AtMost : ℤ → Result (Unit {0}) ℤ → Type 0
AtMost m (ok fee) = fee ≤ℤ m
AtMost m (err e) = ⊥
AtMost m panic = Unit {0}

default_fee_low : (p : FeeProvider) (l : FeeLevel) → Configured p → default_fee p l ≤ℤ p.max_fee
default_fee_low p priority c = c.priority_low
default_fee_low p normal c = c.normal_low
default_fee_low p economic c = c.economic_low
default_fee_low p fee_bump c = c.priority_low
default_fee_low p super_economic c = c.normal_low

self_le : (m : ℤ) → m ≤ℤ m
self_le m = omega int_laws

select_fee_low :
    (p : FeeProvider) (fee : ℤ) (l : FeeLevel) → Configured p → select_fee p fee l ≤ℤ p.max_fee
unfolding select_fee
select_fee_low p fee l c = elim (Bool-cases (ltb_ℤ p.max_fee fee)) [
  | inl high ↦ rw high (self_le p.max_fee)
  | inr low ↦ elim (Bool-cases (eqb_ℤ fee (pos 0))) [
    | inl zero_fee ↦ rw (low, zero_fee) (default_fee_low p l c)
    | inr other ↦ rw (low, other) (not_ltb_ℤ p.max_fee fee low)
  ]
]

fee_of-AtMost :
    (p : FeeProvider) (f : Option ServiceFees) (l : FeeLevel)
    → Configured p
    → AtMost p.max_fee (fee_of p f l)
unfolding fee_of
fee_of-AtMost p none super_economic c = c.normal_low
fee_of-AtMost p (some f) super_economic c = c.normal_low
fee_of-AtMost p none priority c = tt
fee_of-AtMost p none normal c = tt
fee_of-AtMost p none economic c = tt
fee_of-AtMost p none fee_bump c = tt
fee_of-AtMost p (some f) priority c = select_fee_low p f.priority_rate priority c
fee_of-AtMost p (some f) normal c = select_fee_low p f.normal_rate priority c
fee_of-AtMost p (some f) economic c = select_fee_low p f.economic_rate priority c
fee_of-AtMost p (some f) fee_bump c = select_fee_low p f.priority_rate priority c

keep-Configured :
    (p : FeeProvider) (t : ℕ) (f : Option ServiceFees) → Configured p → Configured (keep p t f)
keep-Configured p t f c = record {
  priority_low = c.priority_low;
  normal_low = c.normal_low;
  economic_low = c.economic_low;
}

AtMost-if :
    (m : ℤ) (b : Bool) (x y : FeeProvider × Result (Unit {0}) ℤ)
    → AtMost m x.1
    → AtMost m y.1
    → AtMost m (if b then x else y).1
AtMost-if m true x y h k = h
AtMost-if m false x y h k = k

-- Where the configured fees do not pass the maximum, no fee that is returned passes it, whatever
-- the service answers; no error is returned.
pub get_fee_per_byte-AtMost :
    (a : Answer) (now later : ℕ) (l : FeeLevel) (p : FeeProvider)
    → Configured p
    → AtMost p.max_fee (get_fee_per_byte a now later l p).1
unfolding get_fee_per_byte
get_fee_per_byte-AtMost a now later l p c =
    AtMost-if p.max_fee p.has_api (if is_stale p.last_updated now then ask a else kept) unset
      (AtMost-if p.max_fee (is_stale p.last_updated now) (ask a) kept (asked a)
        (fee_of-AtMost p p.cached l c))
      (default_fee_low p l c)
  where
    kept : FeeProvider × Result (Unit {0}) ℤ
    kept = (p, fee_of p p.cached l)

    unset : FeeProvider × Result (Unit {0}) ℤ
    unset = (p, ok (default_fee p l))

    ask : Answer → FeeProvider × Result (Unit {0}) ℤ
    ask x = elim x [
      | no_reply ↦ unset
      | not_fees ↦ unset
      | null_fees ↦ (keep p later none, fee_of (keep p later none) none l)
      | new_fees f ↦ (keep p later (some f), fee_of (keep p later (some f)) (some f) l)
    ]

    asked : (x : Answer) → AtMost p.max_fee (ask x).1
    asked no_reply = default_fee_low p l c
    asked not_fees = default_fee_low p l c
    asked null_fees = fee_of-AtMost (keep p later none) none l (keep-Configured p later none c)
    asked (new_fees f) =
        fee_of-AtMost (keep p later (some f)) (some f) l (keep-Configured p later (some f) c)

get_fee_per_byte_asked :
    (f : ServiceFees) (now later : ℕ) (l : FeeLevel) (p : FeeProvider)
    → p.has_api ≡ true
    → is_stale p.last_updated now ≡ true
    → get_fee_per_byte (new_fees f) now later l p
      ≡ (keep p later (some f), fee_of (keep p later (some f)) (some f) l)
unfolding get_fee_per_byte
get_fee_per_byte_asked f now later l p set stale =
    let new : FeeProvider × Result (Unit {0}) ℤ =
      (keep p later (some f), fee_of (keep p later (some f)) (some f) l) in
    let old : FeeProvider × Result (Unit {0}) ℤ = (p, fee_of p p.cached l) in
    ap
      (λ x.
        if x then (if is_stale p.last_updated now then new else old) else (p, ok (default_fee p l)))
      set
    ∙ ap (λ x. if x then new else old) stale

get_fee_per_byte_kept :
    (a : Answer) (now later t : ℕ) (l : FeeLevel) (p : FeeProvider)
    → p.has_api ≡ true
    → p.last_updated ≡ some t
    → now - t ≤ minute
    → get_fee_per_byte a now later l p ≡ (p, fee_of p p.cached l)
unfolding get_fee_per_byte is_stale
get_fee_per_byte_kept a now later t l p set at le =
    let fresh : ltb minute (now - t) ≡ false = ground arith in
    let recent : is_stale p.last_updated now ≡ false = ap (λ o. is_stale o now) at ∙ fresh in
    let unset : FeeProvider × Result (Unit {0}) ℤ = (p, ok (default_fee p l)) in
    let old : FeeProvider × Result (Unit {0}) ℤ = (p, fee_of p p.cached l) in
    let asked = elim a as (λ (_ : Answer). FeeProvider × Result (Unit {0}) ℤ) [
      | no_reply ↦ unset
      | not_fees ↦ unset
      | null_fees ↦ (keep p later none, fee_of (keep p later none) none l)
      | new_fees f ↦ (keep p later (some f), fee_of (keep p later (some f)) (some f) l)
    ] in
    ap (λ x. if x then (if is_stale p.last_updated now then asked else old) else unset) set
    ∙ ap (λ x. if x then asked else old) recent

-- Within a minute of an answer the service is not asked again: whatever it would answer then, the
-- fee of a level is that of the cached answer, and the provider does not change.
pub get_fee_per_byte_cached :
    (b : Answer) (now later soon after : ℕ) (l k : FeeLevel) (p : FeeProvider) (f : ServiceFees)
    → p.has_api ≡ true
    → is_stale p.last_updated now ≡ true
    → soon - later ≤ minute
    → let q = (get_fee_per_byte (new_fees f) now later l p).0 in
      get_fee_per_byte b soon after k q ≡ (q, fee_of q (some f) k)
get_fee_per_byte_cached b now later soon after l k p f set stale le =
    subst (λ (q : FeeProvider). get_fee_per_byte b soon after k q ≡ (q, fee_of q (some f) k))
      (sym (ap (λ x. x.0) (get_fee_per_byte_asked f now later l p set stale)))
      (get_fee_per_byte_kept b soon after later k (keep p later (some f)) set refl le)
