-- ===== src/Sql/Laws.antt =====
-- Queries after updates, sums over a table, and primary keys.
use reward_mservice.Common.{
  ℕ, ◌<◌, ◌≤◌, ◌==◌, ℤ, pos, ◌+ℤ◌, int_laws, ◌≡◌, refl, subst, ap, ◌≢◌, Bool, true, false, none,
  some, List, [], ◌∷◌, ◌++◌, find, All, arith,
}
use reward_mservice.Sql.{update, has}

module _ {R : Type 0} where
  -- A row that the query finds is met by an UPDATE with the same WHERE.
  pub has-find : (p : R → Bool) (rows : List R) (r : R) → find p rows ≡ some r → has p rows ≡ true
  unfolding has find
  has-find p [] r h = cc
  has-find p (x ∷ rows) r h = ground (arith, has-find p rows r)

  pub find_sound : (p : R → Bool) (rows : List R) (r : R) → find p rows ≡ some r → p r ≡ true
  unfolding find
  find_sound p [] r h = cc
  find_sound p (x ∷ rows) r h = ground (arith, find_sound p rows r)

  pub find-update_self :
      (p : R → Bool) (f : R → R) (rows : List R) (r : R)
      → find p rows ≡ some r
      → p (f r) ≡ true
      → find p (update p f rows) ≡ some (f r)
  unfolding update find
  find-update_self p f [] r h k = cc
  find-update_self p f (x ∷ rows) r h k = ground (arith, find-update_self p f rows r)

  -- A query that tells no difference between a row and what the UPDATE makes of it, at rows that
  -- it does not look for.
  pub find-update_other :
      (q p : R → Bool) (f : R → R) (rows : List R)
      → ((r : R) → p r ≡ true → (q r ≡ false) × (q (f r) ≡ false))
      → find q (update p f rows) ≡ find q rows
  unfolding update find
  find-update_other q p f [] h = refl
  find-update_other q p f (x ∷ rows) h = ground (arith, h x, find-update_other q p f rows h)

  -- A narrower WHERE that the found row meets changes the same row.
  pub update_narrow :
      (p q : R → Bool) (f : R → R) (rows : List R) (r : R)
      → find p rows ≡ some r
      → ((s : R) → q s ≡ true → p s ≡ true)
      → q r ≡ true
      → update q f rows ≡ update p f rows
  unfolding update find
  update_narrow p q f [] r h n k = refl
  update_narrow p q f (x ∷ rows) r h n k = ground (arith, n x, update_narrow p q f rows r)

  unfoldable pub sum_of : (R → ℤ) → List R → ℤ
  sum_of g [] = pos 0
  sum_of g (r ∷ rows) = g r +ℤ sum_of g rows

  -- An UPDATE changes a sum by what it changes at the row that it meets.
  pub sum_of-update :
      (g : R → ℤ) (p : R → Bool) (f : R → R) (rows : List R) (r : R)
      → find p rows ≡ some r
      → sum_of g (update p f rows) +ℤ g r ≡ sum_of g rows +ℤ g (f r)
  unfolding update find sum_of
  sum_of-update g p f [] r h = cc
  sum_of-update g p f (x ∷ rows) r h = grind (int_laws, sum_of-update g p f rows r)

  -- An UPDATE that changes no summand.
  pub sum_of-update_same :
      (g : R → ℤ) (p : R → Bool) (f : R → R) (rows : List R)
      → ((r : R) → p r ≡ true → g (f r) ≡ g r)
      → sum_of g (update p f rows) ≡ sum_of g rows
  unfolding update sum_of
  sum_of-update_same g p f [] same = refl
  sum_of-update_same g p f (x ∷ rows) same =
      ground (arith, same x, sum_of-update_same g p f rows same)

  pub sum_of-append :
      (g : R → ℤ) (rows : List R) (r : R) → sum_of g (rows ++ r ∷ []) ≡ sum_of g rows +ℤ g r
  unfolding sum_of
  sum_of-append g [] r = omega int_laws
  sum_of-append g (x ∷ rows) r = rw (sum_of-append g rows r) (omega int_laws)

  module _ (id : R → ℕ) where
    -- The ids of the rows differ.
    abbrev pub Keyed : List R → Type 0
    Keyed [] = Unit
    Keyed (r ∷ rows) = (find (λ s. id s == id r) rows ≡ none) × Keyed rows

    -- A row that any query finds is the row with its id.
    pub find-id :
        (q : R → Bool) (rows : List R) (r : R)
        → Keyed rows
        → find q rows ≡ some r
        → find (λ s. id s == id r) rows ≡ some r
    unfolding find
    find-id q [] r k h = cc
    find-id q (x ∷ rows) r k h =
        ground
          (arith, find-id q rows r k.1, λ (e : id x ≡ id r). ap (λ n. find (λ s. id s == n) rows) e)

    -- The row with an id is the one that any query finds of that id.
    pub the_row :
        (i : ℕ) (q : R → Bool) (rows : List R) (r s : R)
        → Keyed rows
        → find (λ x. id x == i) rows ≡ some r
        → find q rows ≡ some s
        → id s ≡ i
        → s ≡ r
    the_row i q rows r s k h e same =
        let own = find-id q rows s k e in
        let here : find (λ x. id x == i) rows ≡ some s =
          subst (λ n. find (λ x. id x == n) rows ≡ some s) same own in
        cc

    absent-update :
        (n : ℕ) (p : R → Bool) (f : R → R) (rows : List R)
        → ((r : R) → id (f r) ≡ id r)
        → find (λ s. id s == n) rows ≡ none
        → find (λ s. id s == n) (update p f rows) ≡ none
    unfolding update find
    absent-update n p f [] keep a = refl
    absent-update n p f (x ∷ rows) keep a = ground (arith, keep x, absent-update n p f rows keep)

    -- An UPDATE that keeps the ids keeps them different.
    pub update-Keyed :
        (p : R → Bool) (f : R → R) (rows : List R)
        → ((r : R) → id (f r) ≡ id r)
        → Keyed rows
        → Keyed (update p f rows)
    unfolding update
    update-Keyed p f [] keep k = tt
    update-Keyed p f (x ∷ rows) keep k = ground (
      arith,
      keep x,
      absent-update (id x) p f rows keep k.0,
      ap (λ n. find (λ s. id s == n) (update p f rows)) (keep x),
      update-Keyed p f rows keep k.1,
    )

    -- Below a bound on the ids.
    abbrev pub IsBelow : ℕ → List R → Type 0
    IsBelow n = All (λ r. id r < n)

    pub update-IsBelow :
        (n : ℕ) (p : R → Bool) (f : R → R) (rows : List R)
        → ((r : R) → id (f r) ≡ id r)
        → IsBelow n rows
        → IsBelow n (update p f rows)
    unfolding update
    update-IsBelow n p f [] keep b = tt
    update-IsBelow n p f (x ∷ rows) keep b =
        ground (arith, keep x, update-IsBelow n p f rows keep b.1)

    absent-append :
        (m : ℕ) (rows : List R) (r : R)
        → find (λ s. id s == m) rows ≡ none
        → id r ≢ m
        → find (λ s. id s == m) (rows ++ r ∷ []) ≡ none
    unfolding find
    absent-append m [] r a ne = ground arith
    absent-append m (x ∷ rows) r a ne = ground (arith, absent-append m rows r)

    -- A new row with an id above all others.
    pub append-Keyed :
        (rows : List R) (r : R) → IsBelow (id r) rows → Keyed rows → Keyed (rows ++ r ∷ [])
    append-Keyed [] r b k = (unfold find in refl, tt)
    append-Keyed (x ∷ rows) r b k =
        (absent-append (id x) rows r k.0 (omega arith), append-Keyed rows r b.1 k.1)

    pub append-IsBelow :
        (n : ℕ) (rows : List R) (r : R) → id r < n → IsBelow n rows → IsBelow n (rows ++ r ∷ [])
    append-IsBelow n [] r l b = (l, tt)
    append-IsBelow n (x ∷ rows) r l b = (b.0, append-IsBelow n rows r l b.1)

    pub IsBelow-mono : (m n : ℕ) (rows : List R) → m ≤ n → IsBelow m rows → IsBelow n rows
    IsBelow-mono m n [] l b = tt
    IsBelow-mono m n (x ∷ rows) l b = (omega arith, IsBelow-mono m n rows l b.1)

    pub absent-below :
        (n i : ℕ) (rows : List R) → IsBelow n rows → n ≤ i → find (λ s. id s == i) rows ≡ none
    unfolding find
    absent-below n i [] b l = refl
    absent-below n i (x ∷ rows) b l = ground (arith, b.0, absent-below n i rows b.1 l)
