-- ===== src/Session.antt =====
-- electrumx/node_session.go: what this client reckons that its session has cost the server.
-- The source counts in float32; here one unit is 1/3600000 of a cost, so that a byte, an error and
-- a second's decay are whole numbers. The rounding of float32 is not modelled.
pub mod Decay
use go_electrum_client.Prelude.{ℕ, zero, suc, ◌*◌, ◌%◌, List, ◌==◌, if◌then◌else◌, length}
use go_electrum_client.Prelude.Int.{ℤ, pos, ◌+ℤ◌, ◌-ℤ◌}

-- BW_COST_PER_BYTE, COST_DECAY_PER_SEC and the cost of an error, in units.
abbrev pub bw_cost_per_byte : ℕ
bw_cost_per_byte = 36

abbrev pub cost_decay_per_sec : ℕ
cost_decay_per_sec = 10000000

abbrev pub error_cost : ℕ
error_cost = 360000000

abbrev pub tuning_factor : ℕ
tuning_factor = 10

unfoldable pub bump_cost : ℤ → ℤ → ℤ
bump_cost cost incurred = cost +ℤ incurred

unfoldable pub bump_cost_bytes : ℤ → ℕ → ℤ
unfolding bump_cost
bump_cost_bytes cost n = bump_cost cost (pos (n * bw_cost_per_byte))

unfoldable pub bump_cost_string : ℤ → List ℕ → ℤ
unfolding bump_cost_bytes
bump_cost_string cost s = bump_cost_bytes cost (length s)

unfoldable pub bump_cost_error : ℤ → ℤ
unfolding bump_cost
bump_cost_error cost = bump_cost cost (pos error_cost)

unfoldable pub reduce_cost : ℤ → ℤ
reduce_cost cost = cost -ℤ pos cost_decay_per_sec

-- The decay loop at its tick number `tune`, for `n` ticks.
unfoldable pub run_cost_decay : ℕ → ℕ → ℤ → ℤ
run_cost_decay zero tune cost = cost
run_cost_decay (suc n) tune cost =
    run_cost_decay n (suc tune) (if tune % tuning_factor == 0 then reduce_cost cost else cost)
