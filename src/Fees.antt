-- ===== src/Fees.antt =====
-- wallet/fees.go: the fee per byte, from a fee service with a cache of one minute.
-- What the service answers and the two readings of the clock are arguments. Times are in
-- nanoseconds; the zero time of a new cache is `none`.
pub mod Bounds
use go_electrum_client.Prelude.{ℕ, ◌-◌, Bool, true, false, Option, none, some, if◌then◌else◌, ltb}
use go_electrum_client.Prelude.Int.{ℤ, pos, ltb_ℤ, eqb_ℤ}
use go_electrum_client.Prelude.Results.{Result, ok, err, panic}

pub data FeeLevel : Type 0 where
  priority normal economic fee_bump super_economic : FeeLevel

pub record ServiceFees : Type 0 where
  pub priority_rate : ℤ
  pub normal_rate : ℤ
  pub economic_rate : ℤ

-- The cached fees may be a nil pointer.
pub record FeeProvider : Type 0 where
  pub max_fee : ℤ
  pub priority_fee : ℤ
  pub normal_fee : ℤ
  pub economic_fee : ℤ
  pub has_api : Bool
  pub last_updated : Option ℕ
  pub cached : Option ServiceFees

-- What comes of a request: no answer, no JSON of fees, a JSON null, or fees.
pub data Answer : Type 0 where
  no_reply not_fees null_fees : Answer
  new_fees : ServiceFees → Answer

abbrev pub default_fee : FeeProvider → FeeLevel → ℤ
default_fee p priority = p.priority_fee
default_fee p normal = p.normal_fee
default_fee p economic = p.economic_fee
default_fee p fee_bump = p.priority_fee
default_fee p super_economic = p.normal_fee

unfoldable pub select_fee : FeeProvider → ℤ → FeeLevel → ℤ
select_fee p fee level =
    if ltb_ℤ p.max_fee fee
    then p.max_fee
    else if eqb_ℤ fee (pos 0)
    then default_fee p level
    else fee

-- The final switch; reading a field of nil panics.
unfoldable pub fee_of : FeeProvider → Option ServiceFees → FeeLevel → Result (Unit {0}) ℤ
fee_of p fees super_economic = ok p.normal_fee
fee_of p none level = panic
fee_of p (some f) priority = ok (select_fee p f.priority_rate priority)
fee_of p (some f) normal = ok (select_fee p f.normal_rate priority)
fee_of p (some f) economic = ok (select_fee p f.economic_rate priority)
fee_of p (some f) fee_bump = ok (select_fee p f.priority_rate priority)

abbrev pub minute : ℕ
minute = 60000000000

unfoldable pub is_stale : Option ℕ → ℕ → Bool
is_stale none now = true
is_stale (some t) now = ltb minute (now - t)

abbrev pub keep : FeeProvider → ℕ → Option ServiceFees → FeeProvider
keep p t fees = record p { last_updated = some t; cached = fees }

unfoldable pub get_fee_per_byte :
    Answer → ℕ → ℕ → FeeLevel → FeeProvider → FeeProvider × Result (Unit {0}) ℤ
get_fee_per_byte a now later level p =
    if p.has_api
    then if is_stale p.last_updated now
      then elim a [
        | no_reply ↦ (p, ok (default_fee p level))
        | not_fees ↦ (p, ok (default_fee p level))
        | null_fees ↦ (keep p later none, fee_of (keep p later none) none level)
        | new_fees f ↦ (keep p later (some f), fee_of (keep p later (some f)) (some f) level)
      ]
      else (p, fee_of p p.cached level)
    else (p, ok (default_fee p level))
