-- ===== src/Headers/Verify.antt =====
-- verifyAll of electrumx/headers.go against a description of the linked chain.
use go_electrum_client.Prelude.{
  ℕ, zero, suc, ◌<◌, ◌≡◌, ◌↔◌, refl, sym, ap, ◌∙◌, some, Option, arith, Option-cases, inl, inr,
  subst,
}
use native.Mathlib.Decide.{dec_lt}
use go_electrum_client.Prelude.Int.{
  ℤ, pos, pos_part, ◌+ℤ◌, ◌-ℤ◌, ◌≤ℤ◌, ◌<ℤ◌, int_laws, distance, offset,
}
use go_electrum_client.Prelude.Bytes.{bytes_eq_iff}
use go_electrum_client.Prelude.Results.{ok}
use go_electrum_client.Headers.{BlockHeader, Headers}
use go_electrum_client.Headers.Maps.{verify_loop, verify_all}

-- The headers at `j` and above it are there, and the upper one names the hash of the lower one.
abbrev pub LinkAt : (ℤ → Option BlockHeader) → ℤ → Type 0
LinkAt m j =
    (p : BlockHeader) × (b : BlockHeader) × (m j ≡ some p)
    × (m (j +ℤ pos 1) ≡ some b)
    × (p.hash ≡ b.prev)

module _ (m : ℤ → Option BlockHeader) (low : ℤ) where
  upper : (n : ℕ) → m (low +ℤ pos (suc n)) ≡ m (low +ℤ pos n +ℤ pos 1)
  upper n = ap m (omega int_laws)

  lower : (n : ℕ) → m (low +ℤ pos (suc n) -ℤ pos 1) ≡ m (low +ℤ pos n)
  lower n = ap m (omega int_laws)

  LinkAt-of_step :
      (n : ℕ)
      → verify_loop m low (suc n) ≡ ok tt
      → LinkAt m (low +ℤ pos n) × (verify_loop m low n ≡ ok tt)
  unfolding verify_loop
  LinkAt-of_step n e = elim (Option-cases (m (low +ℤ pos n))) [
    | inl gone ↦ ground (arith, upper n, lower n)
    | inr (p, hp) ↦ elim (Option-cases (m (low +ℤ pos n +ℤ pos 1))) [
      | inl gone ↦ ground (arith, upper n, lower n)
      | inr (b, hb) ↦ (
        (p, b, hp, hb, ground (arith, upper n, lower n, bytes_eq_iff p.hash b.prev)),
        ground (arith, upper n, lower n),
      )
    ]
  ]

  verify_loop-step :
      (n : ℕ) → LinkAt m (low +ℤ pos n) → verify_loop m low (suc n) ≡ verify_loop m low n
  unfolding verify_loop
  verify_loop-step n (p, b, hp, hb, same) =
      ground (arith, upper n, lower n, bytes_eq_iff p.hash b.prev)

  links_of_verify_loop :
      (n : ℕ) → verify_loop m low n ≡ ok tt → (i : ℕ) → i < n → LinkAt m (low +ℤ pos i)
  links_of_verify_loop zero e i lt = absurd (omega arith)
  links_of_verify_loop (suc n) e i lt =
      let (here, below) = LinkAt-of_step n e in
      elim (dec_lt i n) [
        | yes less ↦ links_of_verify_loop n below i less
        | no top ↦ let same : n ≡ i = omega arith in subst (λ k. LinkAt m (low +ℤ pos k)) same here
      ]

  verify_loop_of_links :
      (n : ℕ) → ((i : ℕ) → i < n → LinkAt m (low +ℤ pos i)) → verify_loop m low n ≡ ok tt
  unfolding verify_loop
  verify_loop_of_links zero links = refl
  verify_loop_of_links (suc n) links =
      verify_loop-step n (links n (omega arith))
      ∙ verify_loop_of_links n (λ i lt. links i (omega arith))

-- The loop of verifyAll runs from the tip down to the start point.
verify_all_lem :
    (h : Headers)
    → verify_all h ≡ verify_loop h.hdrs h.start_point (pos_part (h.tip -ℤ h.start_point))
unfolding verify_all
verify_all_lem h = ground arith

-- verifyAll succeeds exactly when every height from the start point to below the tip holds a
-- header whose hash the header above it names.
pub verify_all_iff :
    (h : Headers)
    → (verify_all h ≡ ok tt) ↔ ((j : ℤ) → h.start_point ≤ℤ j → j <ℤ h.tip → LinkAt h.hdrs j)
verify_all_iff h = (forward, backward)
  where
    start : ℤ
    start = h.start_point

    n : ℕ
    n = pos_part (h.tip -ℤ start)

    forward : verify_all h ≡ ok tt → (j : ℤ) → start ≤ℤ j → j <ℤ h.tip → LinkAt h.hdrs j
    forward e j ge lt =
        let i : ℕ = pos_part (j -ℤ start) in
        let same : start +ℤ pos i ≡ j = offset start j ge in
        subst (LinkAt h.hdrs) same (
          links_of_verify_loop h.hdrs start n (sym (verify_all_lem h) ∙ e) i
            (omega (arith, distance j start, distance h.tip start)))

    backward : ((j : ℤ) → start ≤ℤ j → j <ℤ h.tip → LinkAt h.hdrs j) → verify_all h ≡ ok tt
    backward links =
        verify_all_lem h
        ∙ verify_loop_of_links h.hdrs start n (λ i lt.
          links (start +ℤ pos i) (omega int_laws) (omega (int_laws, distance h.tip start)))
