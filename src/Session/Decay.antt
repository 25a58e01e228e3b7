-- ===== src/Session/Decay.antt =====
-- runCostDecayLoop of electrumx/node_session.go.
use go_electrum_client.Prelude.{
  ℕ, zero, suc, ◌+◌, ◌*◌, ◌/◌, ◌%◌, ◌≡◌, ◌∙◌, sym, inl, inr, ◌≢◌, true, false, Bool-cases, ◌==◌,
  ==_iff,
}
use go_electrum_client.Prelude.Int.{ℤ, pos, ◌+ℤ◌, ◌-ℤ◌, int_laws, parts}
use go_electrum_client.Session.{cost_decay_per_sec, tuning_factor, reduce_cost, run_cost_decay}

false_ne_true : false ≢ true
false_ne_true e = cc

decay_from :
    (n tune : ℕ) (cost : ℤ)
    → run_cost_decay n tune cost +ℤ pos ((tune + n + 9) / 10 * cost_decay_per_sec)
      ≡ cost +ℤ pos ((tune + 9) / 10 * cost_decay_per_sec)
unfolding run_cost_decay reduce_cost
decay_from zero tune cost = omega int_laws
decay_from (suc n) tune cost = elim (Bool-cases (tune % tuning_factor == 0)) [
  | inl turn ↦
      let whole : tune % tuning_factor ≡ 0 = (==_iff (tune % tuning_factor) 0).0 turn in
      rw (turn, run_cost_decay)
        (omega (int_laws, parts (decay_from n (suc tune) (cost -ℤ pos cost_decay_per_sec)), whole))
  | inr skip ↦
      let part : (tune % tuning_factor ≡ 0) → ⊥ =
        λ e. false_ne_true (sym skip ∙ (==_iff (tune % tuning_factor) 0).1 e) in
      rw (skip, run_cost_decay) (omega (int_laws, parts (decay_from n (suc tune) cost), part))
]

-- After `n` ticks the cost is lower by the decay of one second for every tenth tick, the first
-- tick included: the loop gives back a tenth of what the server gives back.
pub run_cost_decay_lem :
    (n : ℕ) (cost : ℤ) → run_cost_decay n 0 cost ≡ cost -ℤ pos ((n + 9) / 10 * cost_decay_per_sec)
run_cost_decay_lem n cost = omega (int_laws, parts (decay_from n 0 cost))
