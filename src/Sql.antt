-- ===== src/Sql.antt =====
-- What the SQL statements of server/repository/dao say of one table, a list of rows in the order
-- of their ids. Every UPDATE of the program names a primary key in its WHERE, so it meets one row
-- at most.
pub mod Laws
pub mod Rows
use reward_mservice.Common.{Bool, false, ◌||◌, List, [], ◌∷◌, if◌then◌else◌}

module _ {R : Type 0} where
  -- UPDATE … SET … WHERE
  unfoldable pub update : (R → Bool) → (R → R) → List R → List R
  update p f [] = []
  update p f (r ∷ rows) = if p r then f r ∷ rows else r ∷ update p f rows

  -- Whether a row meets the WHERE: RowsAffected > 0, COUNT(*) > 0.
  unfoldable pub has : (R → Bool) → List R → Bool
  has p [] = false
  has p (r ∷ rows) = p r || has p rows
