-- ===== src/Amount/Limits.antt =====
-- What `AddAmount` and `CmpAmount` establish together: a sum is within a limit.
use reward_mservice.Common.{
  ℕ, ◌+◌, ◌*◌, ◌≤◌, ◌<◌, ℤ, ◌+ℤ◌, pos, negsuc, false, inl, inr, ◌≡◌, ◌≢◌, refl, arith, Option, some,
  Option-cases, Text, trim_space, subst, sym, ap, ◌∙◌,
}
use reward_mservice.Amount.{
  Rat, times, decimal, text, Amount, Cmp, greater, is_negative, parse_amount, add_amount,
  cmp_amount, cmp_rat, add_rat, format_amount, of_decimal, round_decimal, non_negative,
}
use reward_mservice.Amount.Sums.{round_decimal-sum}
use reward_mservice.Amount.Laws.{parse_amount-decimal}

naturally : (z : ℤ) → is_negative z ≡ false → (n : ℕ) × (z ≡ pos n)
naturally (pos n) h = (n, refl)
naturally (negsuc n) h = absurd (ground arith)

not_above :
    (k m d : ℕ) (c : Cmp)
    → cmp_rat (of_decimal (pos k)) (record { num = pos m; den = d }) ≡ c
    → c ≢ greater
    → k * d ≤ m * 100000000
unfolding cmp_rat
not_above k m d c h below = ground arith

times-pos : (n d : ℕ) → times (pos n) d ≡ pos (n * d)
times-pos n d = ground arith

plus-pos : (m n : ℕ) → pos m +ℤ pos n ≡ pos (m + n)
unfolding ◌+ℤ◌
plus-pos m n = ground arith

added_amount :
    (total n d : ℕ)
    → 0 < d
    → format_amount (add_rat (of_decimal (pos total)) (record { num = pos n; den = d }))
      ≡ decimal (pos (total + round_decimal n d))
unfolding format_amount add_rat
added_amount total n d above =
    rw (times-pos total d, times-pos n 100000000, plus-pos (total * d) (n * 100000000))
      (ap (λ k. decimal (pos k)) (round_decimal-sum total n d above))

next_amount :
    (total n : ℕ) (p q : Rat) (next : Amount)
    → p ≡ of_decimal (pos total)
    → q.num ≡ pos n
    → 0 < q.den
    → format_amount (add_rat p q) ≡ next
    → next ≡ decimal (pos (total + round_decimal n q.den))
next_amount total n p q next is_p is_n above h =
    sym h
    ∙ ap (λ x. format_amount (add_rat x q)) is_p
    ∙ ap (λ z. format_amount (add_rat (of_decimal (pos total)) (record { num = z; den = q.den })))
        is_n
    ∙ added_amount total n q.den above

module _ (set_string : Text → Option Rat) where
  compared_numbers :
      (k m d : ℕ) (limit : Text) (c : Cmp)
      → parse_amount set_string (text limit) ≡ some (record { num = pos m; den = d })
      → cmp_amount set_string (decimal (pos k)) (text limit) ≡ some c
      → cmp_rat (of_decimal (pos k)) (record { num = pos m; den = d }) ≡ c
  unfolding cmp_amount
  compared_numbers k m d limit c parsed compared = ground (arith, parse_amount-decimal set_string k)

  parse_amount-text :
      (s : Text) (q : Rat)
      → parse_amount set_string (text s) ≡ some q
      → (set_string (trim_space s) ≡ some q) × ((n : ℕ) × (q.num ≡ pos n))
  unfolding parse_amount non_negative
  parse_amount-text s q h = elim (Option-cases (set_string (trim_space s))) [
    | inl absent ↦ absurd (ground arith)
    | inr (r, read) ↦ (ground arith, naturally q.num (ground arith))
  ]

  parse_amount-column :
      (z : ℤ) (p : Rat)
      → parse_amount set_string (decimal z) ≡ some p
      → (p ≡ of_decimal z) × ((n : ℕ) × (z ≡ pos n))
  unfolding parse_amount non_negative
  parse_amount-column z p h = (ground arith, naturally z (ground arith))

  -- The amount `total` and the text's amount, rounded to eight decimals, are at most the limit.
  pub record Within (total : ℤ) (s limit : Text) : Type 0 where
    pub held : ℕ
    pub is_held : total ≡ pos held
    pub amount : Rat
    pub read : set_string (trim_space s) ≡ some amount
    pub num : ℕ
    pub is_num : amount.num ≡ pos num
    pub bound : Rat
    pub bound_read : set_string (trim_space limit) ≡ some bound
    pub bound_num : ℕ
    pub is_bound_num : bound.num ≡ pos bound_num
    pub within :
        0 < amount.den → (held + round_decimal num amount.den) * bound.den ≤ bound_num * 100000000

  pub sum-Within :
      (total : ℤ) (s limit : Text) (next : Amount) (c : Cmp)
      → add_amount set_string (decimal total) (text s) ≡ some next
      → cmp_amount set_string next (text limit) ≡ some c
      → c ≢ greater
      → Within total s limit
  unfolding add_amount cmp_amount
  sum-Within total s limit next c added compared below =
      elim (Option-cases (parse_amount set_string (decimal total))) [
        | inl absent ↦ absurd (ground arith)
        | inr (p, ep) ↦ elim (Option-cases (parse_amount set_string (text s))) [
          | inl absent ↦ absurd (ground arith)
          | inr (q, eq) ↦ elim (Option-cases (parse_amount set_string (text limit))) [
            | inl absent ↦ absurd (ground arith)
            | inr (l, el) ↦
                let held = parse_amount-column total p ep in
                let client = parse_amount-text s q eq in
                let bound = parse_amount-text limit l el in
                record {
                  held = held.1.0;
                  is_held = held.1.1;
                  amount = q;
                  read = client.0;
                  num = client.1.0;
                  is_num = client.1.1;
                  bound = l;
                  bound_read = bound.0;
                  bound_num = bound.1.0;
                  is_bound_num = bound.1.1;
                  within = λ above.
                      let made =
                        next_amount held.1.0 client.1.0 p q next (held.0 ∙ ap of_decimal held.1.1)
                          client.1.1 above (ground arith) in
                      not_above (held.1.0 + round_decimal client.1.0 q.den) bound.1.0 l.den c
                        (compared_numbers _ bound.1.0 l.den limit c
                          (el ∙ ap (λ z. some (record { num = z; den = l.den })) bound.1.1)
                          (subst (λ x. cmp_amount set_string x (text limit) ≡ some c) made
                            compared))
                        below;
                }
          ]
        ]
      ]
