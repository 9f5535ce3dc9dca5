-- ===== src/Amount.antt =====
-- server/util/amount.go. A Go amount string is `decimal d`, the text with eight decimals of
-- d / 10^8, as a DECIMAL(20, 8) column is read and as `FloatString(8)` prints it ("0" is
-- `decimal (pos 0)`), or `text s`, a text that a client wrote.
pub mod Laws
pub mod Sums
pub mod Limits
use reward_mservice.Common.{
  ℕ, ◌+◌, ◌*◌, ◌/◌, ◌%◌, ℤ, pos, ◌+ℤ◌, ltb_ℤ, pos_part, neg_part, sub_ℕ, Bool, true, false, Option,
  none, some, Text, trim_space, is_empty, leb, if◌then◌else◌,
}

-- `*big.Rat`; `den` is positive. It need not be in lowest terms.
pub record Rat : Type 0 where
  pub num : ℤ
  pub den : ℕ

pub data Amount : Type 0 where
  decimal : ℤ → Amount
  text : Text → Amount

abbrev pub scale : ℕ
scale = 100000000

-- z * n
abbrev pub times : ℤ → ℕ → ℤ
times z n = sub_ℕ (pos_part z * n) (neg_part z * n)

abbrev pub is_negative : ℤ → Bool
is_negative z = ltb_ℤ z (pos 0)

abbrev pub of_decimal : ℤ → Rat
of_decimal d = record { num = d; den = scale }

-- `Rat.Cmp`
pub data Cmp : Type 0 where
  less same greater : Cmp

pub cmp_rat : Rat → Rat → Cmp
cmp_rat a b =
    let x = times a.num b.den in
    let y = times b.num a.den in if ltb_ℤ x y then less else if ltb_ℤ y x then greater else same

-- `Rat.Add`
pub add_rat : Rat → Rat → Rat
add_rat a b = record { num = times a.num b.den +ℤ times b.num a.den; den = a.den * b.den }

-- `Rat.Mul`; the second factor is never negative where the program multiplies.
pub mul_rat : Rat → Rat → Rat
mul_rat a b = record { num = times a.num (pos_part b.num); den = a.den * b.den }

-- The rounding of `FloatString(8)`: the quotient, and one more from one half up. The argument
-- is never negative where the program formats.
pub round_decimal : ℕ → ℕ → ℕ
round_decimal n d =
    let q = n * scale / d in let r = n * scale % d in if leb d (r * 2) then q + 1 else q

-- `FormatAmount`
pub format_amount : Rat → Amount
unfolding round_decimal
format_amount r = decimal (pos (round_decimal (pos_part r.num) r.den))

non_negative : Option Rat → Option Rat
non_negative none = none
non_negative (some r) = if is_negative r.num then none else some r

-- `set_string` is `Rat.SetString`, of package math/big.
module _ (set_string : Text → Option Rat) where
  -- `ParseAmount`; `none` is ErrInvalidAmount.
  pub parse_amount : Amount → Option Rat
  unfolding non_negative
  parse_amount (decimal d) = non_negative (some (of_decimal d))
  parse_amount (text s) =
      let value = trim_space s in if is_empty value then none else non_negative (set_string value)

  -- `AddAmount`
  pub add_amount : Amount → Amount → Option Amount
  add_amount left right = elim (parse_amount left) [
    | none ↦ none
    | some a ↦ elim (parse_amount right) [
      | none ↦ none
      | some b ↦ some (format_amount (add_rat a b))
    ]
  ]

  -- `CmpAmount`
  pub cmp_amount : Amount → Amount → Option Cmp
  cmp_amount left right = elim (parse_amount left) [
    | none ↦ none
    | some a ↦ elim (parse_amount right) [ none ↦ none | some b ↦ some (cmp_rat a b) ]
  ]
