-- ===== src/Finance/InitSoundness.antt =====
-- The methods of finance docs and of the creation of project budgets leave the budgets sound.
use reward_mservice.Common.{
  ℕ, ◌+◌, ◌<◌, ◌==◌, ℤ, pos, ◌+ℤ◌, int_laws, Bool, true, false, not, none, List, [], ◌∷◌, ◌++◌, map,
  length, find, Text, ◌≡◌, refl, ap, ◌∙◌, arith, if◌then◌else◌,
}
use reward_mservice.Model.{ProjectBudget}
use reward_mservice.World.{Tables, new_ids, execute_if}
use reward_mservice.World.Keeps.{Keeps, Above, Keeps-pure, if_Holds}
use reward_mservice.Sql.Laws.{sum_of, Keyed, IsBelow, IsBelow-mono}
use reward_mservice.Dao.ProjectBudgets.{batch_create, number_from, on_budgets, any_clash}
use reward_mservice.IssueRequest.Proofs.Outcomes.{budget_id}
use reward_mservice.IssueRequest.Proofs.Backing.{IsBacked, held}
use reward_mservice.IssueRequest.Proofs.Soundness.{IsSound, IsSound-IsMonotone}
use reward_mservice.Finance.Docs.{BudgetItem}
use reward_mservice.Finance.Budgets.{to_project_budgets, new_project_budget}

absent_from :
    (m n : ℕ) (bs : List ProjectBudget)
    → m < n
    → find (λ s. budget_id s == m) (number_from n bs) ≡ none
unfolding find number_from
absent_from m n [] l = refl
absent_from m n (b ∷ bs) l = ground (arith, absent_from m (n + 1) bs)

from-Keyed : (n : ℕ) (bs : List ProjectBudget) → Keyed budget_id (number_from n bs)
unfolding number_from
from-Keyed n [] = tt
from-Keyed n (b ∷ bs) = (absent_from n (n + 1) bs (omega arith), from-Keyed (n + 1) bs)

from-IsBelow :
    (n m : ℕ) (bs : List ProjectBudget) → n + length bs ≡ m → IsBelow budget_id m (number_from n bs)
unfolding number_from
from-IsBelow n m [] e = tt
from-IsBelow n m (b ∷ bs) e = (ground arith, from-IsBelow (n + 1) m bs (ground arith))

absent_join :
    (m : ℕ) (xs ys : List ProjectBudget)
    → find (λ s. budget_id s == m) xs ≡ none
    → find (λ s. budget_id s == m) ys ≡ none
    → find (λ s. budget_id s == m) (xs ++ ys) ≡ none
unfolding find
absent_join m [] ys a b = b
absent_join m (x ∷ xs) ys a b = ground (arith, absent_join m xs ys)

join-Keyed :
    (n : ℕ) (rows bs : List ProjectBudget)
    → Keyed budget_id rows
    → IsBelow budget_id n rows
    → Keyed budget_id (rows ++ number_from n bs)
join-Keyed n [] bs k b = from-Keyed n bs
join-Keyed n (x ∷ rows) bs k b = (
  absent_join (budget_id x) rows (number_from n bs) k.0 (absent_from (budget_id x) n bs b.0),
  join-Keyed n rows bs k.1 b.1,
)

join-IsBelow :
    (m : ℕ) (rows ys : List ProjectBudget)
    → IsBelow budget_id m rows
    → IsBelow budget_id m ys
    → IsBelow budget_id m (rows ++ ys)
join-IsBelow m [] ys a b = b
join-IsBelow m (x ∷ rows) ys a b = (a.0, join-IsBelow m rows ys a.1 b)

sum_of-join :
    (g : ProjectBudget → ℤ) (rows ys : List ProjectBudget)
    → sum_of g ys ≡ pos 0
    → sum_of g (rows ++ ys) ≡ sum_of g rows
unfolding sum_of
sum_of-join g [] ys z = z
sum_of-join g (x ∷ rows) ys z = ap (λ s. g x +ℤ s) (sum_of-join g rows ys z)

-- New budgets withhold nothing.
abbrev WithholdsNothing : List ProjectBudget → Type 0
WithholdsNothing bs =
    (n project : ℕ) (voucher unit : Text)
    → sum_of (held project voucher unit) (number_from n bs) ≡ pos 0

none_held : (b : Bool) (s : ℤ) → s ≡ pos 0 → (if b then pos 0 else pos 0) +ℤ s ≡ pos 0
none_held true s z = grind int_laws
none_held false s z = grind int_laws

to_project_budgets-WithholdsNothing :
    (doc : Text) (id : ℕ) (items : List BudgetItem)
    → WithholdsNothing (to_project_budgets doc id items)
unfolding to_project_budgets sum_of number_from
to_project_budgets-WithholdsNothing doc id [] n project voucher unit = refl
to_project_budgets-WithholdsNothing doc id (i ∷ items) n project voucher unit =
    none_held _ _ (to_project_budgets-WithholdsNothing doc id items (n + 1) project voucher unit)

added-IsSound :
    (t : Tables) (n m : ℕ) (bs : List ProjectBudget)
    → WithholdsNothing bs
    → n + length bs ≡ m
    → IsSound t n
    → IsSound (on_budgets (λ old. old ++ number_from n bs) t) m
unfolding IsBacked
added-IsSound t n m bs z e s = record {
  keyed = join-Keyed n t.project_budgets bs s.keyed s.below;
  below =
      join-IsBelow m t.project_budgets (number_from n bs)
        (IsBelow-mono budget_id n m t.project_budgets (omega (arith, e)) s.below)
        (from-IsBelow n m bs e);
  backed = λ project voucher unit.
      sum_of-join (held project voucher unit) t.project_budgets (number_from n bs)
        (z n project voucher unit)
      ∙ s.backed project voucher unit;
}

pub Keeps-batch_create :
    (doc : Text) (id : ℕ) (items : List BudgetItem)
    → Keeps IsSound (batch_create (to_project_budgets doc id items))
unfolding batch_create to_project_budgets new_ids execute_if
Keeps-batch_create doc id [] = Keeps-pure tt
Keeps-batch_create doc id (i ∷ items) = record {
  at = λ env w s.
      let more = IsSound-IsMonotone.at w.tables w.next_id _ (omega arith) s in
      if_Holds IsSound (env.fails w.calls) _ _ more (
        if_Holds IsSound
          (not (
            any_clash (new_project_budget doc id i ∷ map (new_project_budget doc id) items)
              w.tables.project_budgets))
          _ _
          (added-IsSound w.tables w.next_id _ (to_project_budgets doc id (i ∷ items))
            (to_project_budgets-WithholdsNothing doc id (i ∷ items)) refl s)
          more);
}

pub batch_create_grows :
    (bound : ℕ) (doc : Text) (id : ℕ) (items : List BudgetItem)
    → Keeps (Above bound) (batch_create (to_project_budgets doc id items))
unfolding batch_create to_project_budgets new_ids execute_if
batch_create_grows bound doc id [] = Keeps-pure tt
batch_create_grows bound doc id (i ∷ items) = record {
  at = λ env w h. if_Holds (Above bound) (env.fails w.calls) _ _ (omega (arith, h)) (
      if_Holds (Above bound)
        (not (
          any_clash (new_project_budget doc id i ∷ map (new_project_budget doc id) items)
            w.tables.project_budgets))
        _ _ (omega (arith, h)) (omega (arith, h)));
}
