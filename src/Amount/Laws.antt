-- ===== src/Amount/Laws.antt =====
-- What comparing, adding and formatting amounts does.
use reward_mservice.Common.{
  ℕ, ◌+◌, ◌*◌, ◌/◌, ◌%◌, ◌≤◌, ◌<◌, leb, Bool-cases, inl, inr, ℤ, pos, ◌≤ℤ◌, ◌≡◌, ◌≢◌, Option, some,
  Text, arith, if◌then◌else◌, ltb_ℤ,
}
use reward_mservice.Amount.{
  Rat, of_decimal, decimal, Cmp, less, same, greater, cmp_rat, parse_amount, cmp_amount,
  round_decimal,
}
use native.Mathlib.Nat.{div-add-mod, mod-lt}

module _ (set_string : Text → Option Rat) where
  -- Two stored amounts that are not negative compare as their columns do.
  pub cmp_amount-decimal :
      (a b : ℕ)
      → cmp_amount set_string (decimal (pos a)) (decimal (pos b))
        ≡ some (
            if ltb_ℤ (pos a) (pos b) then less else if ltb_ℤ (pos b) (pos a) then greater else same)
  unfolding cmp_amount parse_amount cmp_rat
  cmp_amount-decimal a b = ground arith

  -- A column that is found to be no less than another.
  pub covers :
      (a b : ℤ) (c : Cmp)
      → cmp_amount set_string (decimal a) (decimal b) ≡ some c
      → c ≢ less
      → (pos 0 ≤ℤ b) × (b ≤ℤ a)
  unfolding cmp_amount parse_amount cmp_rat
  covers a b c h n = ground arith

pub parse_amount-decimal :
    (set_string : Text → Option Rat) (k : ℕ)
    → parse_amount set_string (decimal (pos k)) ≡ some (of_decimal (pos k))
unfolding parse_amount
parse_amount-decimal set_string k = ground arith

rounding :
    (m q r d : ℕ)
    → d * q + r ≡ m
    → r < d
    → let k = if leb d (r * 2) then q + 1 else q in
      (k * d * 2 ≤ m * 2 + d) × (m * 2 ≤ k * d * 2 + d)
rounding m q r d e l = elim (Bool-cases (leb d (r * 2))) [
  | inl up ↦ rw up (grind arith, grind arith)
  | inr down ↦ rw down (grind arith, grind arith)
]

-- The rounding of `FormatAmount` of n / d, for d above zero, to eight decimals is off by half a
-- unit of the last place at most, either way.
pub round_decimal-error :
    (n d : ℕ)
    → 0 < d
    → (round_decimal n d * d * 2 ≤ n * 100000000 * 2 + d)
      × (n * 100000000 * 2 ≤ round_decimal n d * d * 2 + d)
unfolding round_decimal
round_decimal-error n d l =
    rounding (n * 100000000) (n * 100000000 / d) (n * 100000000 % d) d
      (div-add-mod (n * 100000000) d) (mod-lt (n * 100000000) l)
