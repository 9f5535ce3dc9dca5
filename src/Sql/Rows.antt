-- ===== src/Sql/Rows.antt =====
-- Rows that a query finds, before and after a statement, and what holds of every row.
use reward_mservice.Common.{
  ◌≡◌, refl, subst, Bool, true, false, none, some, List, [], ◌∷◌, ◌++◌, find, All, arith, Text,
  eq_text, eq_text_refl, eq_text_sound, ◌⊎◌, inl, inr, Bool-cases,
}
use reward_mservice.Sql.{update, has}

module _ {R : Type 0} where
  pub find-append :
      (p : R → Bool) (rows ys : List R) (r : R)
      → find p rows ≡ some r
      → find p (rows ++ ys) ≡ some r
  unfolding find
  find-append p [] ys r h = cc
  find-append p (x ∷ rows) ys r h = ground (arith, find-append p rows ys r)

  pub find-append_new :
      (p : R → Bool) (rows : List R) (r : R)
      → find p rows ≡ none
      → p r ≡ true
      → find p (rows ++ r ∷ []) ≡ some r
  unfolding find
  find-append_new p [] r h k = ground arith
  find-append_new p (x ∷ rows) r h k = ground (arith, find-append_new p rows r)

  -- A row found after an INSERT was there before, or is the new one.
  pub find-append_cases :
      (p : R → Bool) (rows : List R) (r s : R)
      → find p (rows ++ r ∷ []) ≡ some s
      → (find p rows ≡ some s) ⊎ ((find p rows ≡ none) × (r ≡ s) × (p r ≡ true))
  unfolding find
  find-append_cases p [] r s h = inr (refl, ground arith, ground arith)
  find-append_cases p (x ∷ rows) r s h = elim (Bool-cases (p x)) [
    | inl met ↦ inl (ground arith)
    | inr missed ↦
        let rest : find p (rows ++ r ∷ []) ≡ some s = ground arith in
        elim (find-append_cases p rows r s rest) [
          | inl old ↦ inl (ground arith)
          | inr new ↦ inr (ground arith, new.1, new.2)
        ]
  ]

  pub missed-find : (p : R → Bool) (rows : List R) → has p rows ≡ false → find p rows ≡ none
  unfolding has find
  missed-find p [] h = refl
  missed-find p (x ∷ rows) h = ground (arith, missed-find p rows)

  -- A query that an UPDATE does not disturb finds the row, changed or not.
  pub find-update_any :
      (p q : R → Bool) (f : R → R) (rows : List R) (r : R)
      → ((s : R) → p (f s) ≡ p s)
      → find p rows ≡ some r
      → (find p (update q f rows) ≡ some r) ⊎ (find p (update q f rows) ≡ some (f r))
  unfolding update find
  find-update_any p q f [] r keep h = cc
  find-update_any p q f (x ∷ rows) r keep h =
      ground (arith, keep x, find-update_any p q f rows r keep)

  pub find-update_back :
      (p q : R → Bool) (f : R → R) (rows : List R) (s : R)
      → ((r : R) → p (f r) ≡ p r)
      → find p (update q f rows) ≡ some s
      → (r : R) × (find p rows ≡ some r) × ((s ≡ r) ⊎ (s ≡ f r))
  unfolding update find
  find-update_back p q f [] s keep h = cc
  find-update_back p q f (x ∷ rows) s keep h = elim (Bool-cases (q x)) [
    | inl changed ↦ elim (Bool-cases (p x)) [
      | inl met ↦ (x, ground arith, inr (ground (arith, keep x)))
      | inr missed ↦ (s, ground (arith, keep x), inl refl)
    ]
    | inr kept ↦ elim (Bool-cases (p x)) [
      | inl met ↦ (x, ground arith, inl (ground arith))
      | inr missed ↦
          let rest : find p (update q f rows) ≡ some s = ground arith in
          let back = find-update_back p q f rows s keep rest in
          (back.0, ground (arith, back.1), back.2)
    ]
  ]

  pub All-append :
      (P : R → Type 0) (rows : List R) (r : R) → All P rows → P r → All P (rows ++ r ∷ [])
  All-append P [] r a h = (h, tt)
  All-append P (x ∷ rows) r a h = (a.0, All-append P rows r a.1 h)

  pub All-find :
      (P : R → Type 0) (p : R → Bool) (rows : List R) (r : R)
      → All P rows
      → find p rows ≡ some r
      → P r
  unfolding find
  All-find P p [] r a h = cc
  All-find P p (x ∷ rows) r a h = elim (Bool-cases (p x)) [
    | inl met ↦ let same : x ≡ r = ground arith in subst P same a.0
    | inr missed ↦ All-find P p rows r a.1 (ground arith)
  ]

  pub All-map : (P Q : R → Type 0) (rows : List R) → ((r : R) → P r → Q r) → All P rows → All Q rows
  All-map P Q [] k a = tt
  All-map P Q (x ∷ rows) k a = (k x a.0, All-map P Q rows k a.1)

  pub All-update :
      (P : R → Type 0) (p : R → Bool) (f : R → R) (rows : List R)
      → ((r : R) → p r ≡ true → P r → P (f r))
      → All P rows
      → All P (update p f rows)
  unfolding update
  All-update P p f [] k a = tt
  All-update P p f (x ∷ rows) k a = elim (Bool-cases (p x)) [
    | inl met ↦ rw met (k x met a.0, a.1)
    | inr missed ↦ rw missed (a.0, All-update P p f rows k a.1)
  ]

eq_text_sym : (s t : Text) → eq_text s t ≡ false → eq_text t s ≡ false
eq_text_sym s t h = elim (Bool-cases (eq_text t s)) [
  | inl alike ↦ let e = eq_text_sound t s alike in let r = eq_text_refl s in absurd (cc)
  | inr unlike ↦ unlike
]

-- Rows whose texts differ, as a unique key has it.
module _ {R : Type 0} (key : R → Text) where
  abbrev pub has_key : Text → R → Bool
  has_key s r = eq_text (key r) s

  abbrev pub TextKeyed : List R → Type 0
  TextKeyed [] = Unit
  TextKeyed (r ∷ rows) = (find (has_key (key r)) rows ≡ none) × TextKeyed rows

  -- A row that any query finds is the row with its key.
  pub find-key :
      (q : R → Bool) (rows : List R) (r : R)
      → TextKeyed rows
      → find q rows ≡ some r
      → find (has_key (key r)) rows ≡ some r
  unfolding find
  find-key q [] r k h = cc
  find-key q (x ∷ rows) r k h = elim (Bool-cases (q x)) [
    | inl met ↦
        let same : x ≡ r = ground arith in
        subst (λ s. find (has_key (key s)) (x ∷ rows) ≡ some s) same
          (rw (eq_text_refl (key x)) refl)
    | inr missed ↦
        let rest : find q rows ≡ some r = ground arith in
        elim (Bool-cases (eq_text (key x) (key r))) [
          | inl clash ↦
              let found = find-key q rows r k.1 rest in
              let none_left : find (has_key (key r)) rows ≡ none =
                subst (λ s. find (has_key s) rows ≡ none) (eq_text_sound _ _ clash) k.0 in
              absurd (cc)
          | inr other ↦ ground (arith, find-key q rows r k.1)
        ]
  ]

  absent_key-update :
      (s : Text) (p : R → Bool) (f : R → R) (rows : List R)
      → ((r : R) → key (f r) ≡ key r)
      → find (has_key s) rows ≡ none
      → find (has_key s) (update p f rows) ≡ none
  unfolding update find
  absent_key-update s p f [] keep a = refl
  absent_key-update s p f (x ∷ rows) keep a =
      ground (arith, keep x, absent_key-update s p f rows keep)

  pub update-TextKeyed :
      (p : R → Bool) (f : R → R) (rows : List R)
      → ((r : R) → key (f r) ≡ key r)
      → TextKeyed rows
      → TextKeyed (update p f rows)
  unfolding update
  update-TextKeyed p f [] keep k = tt
  update-TextKeyed p f (x ∷ rows) keep k = elim (Bool-cases (p x)) [
    | inl met ↦ rw met (rw (keep x) k.0, k.1)
    | inr missed ↦
        rw missed (absent_key-update (key x) p f rows keep k.0, update-TextKeyed p f rows keep k.1)
  ]

  absent_key-append :
      (s : Text) (rows : List R) (r : R)
      → find (has_key s) rows ≡ none
      → eq_text (key r) s ≡ false
      → find (has_key s) (rows ++ r ∷ []) ≡ none
  unfolding find
  absent_key-append s [] r a n = ground arith
  absent_key-append s (x ∷ rows) r a n = ground (arith, absent_key-append s rows r)

  pub append-TextKeyed :
      (rows : List R) (r : R)
      → TextKeyed rows
      → find (has_key (key r)) rows ≡ none
      → TextKeyed (rows ++ r ∷ [])
  unfolding find
  append-TextKeyed [] r k a = (refl, tt)
  append-TextKeyed (x ∷ rows) r k a = elim (Bool-cases (eq_text (key x) (key r))) [
    | inl same ↦ absurd (ground arith)
    | inr other ↦ (
      absent_key-append (key x) rows r k.0 (eq_text_sym _ _ other),
      append-TextKeyed rows r k.1 (ground arith),
    )
  ]

-- The row that `has` has met.
pub has_row :
    {R : Type 0} (p : R → Bool) (rows : List R)
    → has p rows ≡ true
    → (r : R) × (find p rows ≡ some r)
unfolding has find
has_row p [] h = cc
has_row p (x ∷ rows) h = elim (Bool-cases (p x)) [
  | inl met ↦ (x, ground arith)
  | inr missed ↦
      let rest : has p rows ≡ true = ground arith in
      let row = has_row p rows rest in (row.0, ground (arith, row.1))
]
