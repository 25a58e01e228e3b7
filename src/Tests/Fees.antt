-- ===== src/Tests/Fees.antt =====
-- A provider with a fee service under the theorems of the fees.
use go_electrum_client.Prelude.{◌≡◌, refl, true, none}
use go_electrum_client.Prelude.Int.{pos, int_laws}
use go_electrum_client.Fees.{
  FeeProvider, ServiceFees, priority, new_fees, is_stale, get_fee_per_byte,
}
use go_electrum_client.Fees.Bounds.{Configured, AtMost, get_fee_per_byte-AtMost}

abbrev provider : FeeProvider
provider = record {
  max_fee = pos 1000;
  priority_fee = pos 50;
  normal_fee = pos 30;
  economic_fee = pos 20;
  has_api = true;
  last_updated = none;
  cached = none;
}

abbrev fees : ServiceFees
fees = record { priority_rate = pos 2000; normal_rate = pos 0; economic_rate = pos 3 }

provider-Configured : Configured provider
provider-Configured = record {
  priority_low = omega int_laws;
  normal_low = omega int_laws;
  economic_low = omega int_laws;
}

get_fee_per_byte-AtMost_example :
    AtMost (pos 1000) (get_fee_per_byte (new_fees fees) 7 8 priority provider).1
get_fee_per_byte-AtMost_example =
    get_fee_per_byte-AtMost (new_fees fees) 7 8 priority provider provider-Configured

provider_stale : is_stale provider.last_updated 7 ≡ true
unfolding is_stale
provider_stale = refl
