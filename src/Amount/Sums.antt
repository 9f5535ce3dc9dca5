-- ===== src/Amount/Sums.antt =====
-- The sum of a stored amount and a client's is rounded as the client's amount is.
use reward_mservice.Common.{
  ℕ, ◌+◌, ◌*◌, ◌/◌, ◌%◌, ◌<◌, leb, Bool-cases, inl, inr, ◌≡◌, arith, if◌then◌else◌, ◌∙◌, ap, subst,
}
use reward_mservice.Amount.{round_decimal}
use native.Mathlib.Nat.{mul-add-div_right, mul-div-mul_left, mul_comm, div-add-mod}

abbrev by_quotient : ℕ → ℕ → ℕ → ℕ
by_quotient d q r = if leb d (r * 2) then q + 1 else q

module _ (total n d : ℕ) (above : 0 < d) where
  quotient : (total * d + n * 100000000) * 100000000 / (100000000 * d) ≡ total + n * 100000000 / d
  quotient =
      ap (λ x. x / (100000000 * d)) (mul_comm (total * d + n * 100000000) 100000000)
      ∙ mul-div-mul_left (total * d + n * 100000000) d (omega arith)
      ∙ mul-add-div_right above total (n * 100000000)

  cancelled :
      (q r x : ℕ)
      → d * q + r ≡ n * 100000000
      → 100000000 * d * (total + q) + x ≡ (total * d + n * 100000000) * 100000000
      → x ≡ 100000000 * r
  cancelled q r x e h = grind arith

  remainder :
      (total * d + n * 100000000) * 100000000 % (100000000 * d) ≡ 100000000 * (n * 100000000 % d)
  remainder = cancelled (n * 100000000 / d) (n * 100000000 % d) _ (div-add-mod (n * 100000000) d) (
      subst
        (λ q.
          100000000 * d * q + (total * d + n * 100000000) * 100000000 % (100000000 * d)
          ≡ (total * d + n * 100000000) * 100000000)
        quotient (div-add-mod ((total * d + n * 100000000) * 100000000) (100000000 * d)))

  doubled :
      (q r : ℕ)
      → by_quotient (100000000 * d) (total + q) (100000000 * r) ≡ total + by_quotient d q r
  doubled q r = elim (Bool-cases (leb d (r * 2))) [
    | inl up ↦ ground arith
    | inr down ↦ ground arith
  ]

  pub round_decimal-sum :
      round_decimal (total * d + n * 100000000) (100000000 * d) ≡ total + round_decimal n d
  unfolding round_decimal
  round_decimal-sum = rw (quotient, remainder) (doubled (n * 100000000 / d) (n * 100000000 % d))
