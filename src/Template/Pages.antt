-- ===== src/Template/Pages.antt =====
-- What `ListTemplates` returns.
use reward_mservice.Common.{
  ℕ, ◌≤◌, Option, List, [], ◌∷◌, length, take, ◌≡◌, refl, ap, zero, suc, arith,
}
use reward_mservice.Errs.{app, wrap, invalid_request, internal_error}
use reward_mservice.Util.{validate_template_status}
use reward_mservice.Model.{Template, TemplateStatus}
use reward_mservice.World.{Env, World, require}
use reward_mservice.World.Yields.{
  Value, Yields, Yields-any, Yields-pure, Yields-bind, Yields-query, Yields-or_else,
}
use reward_mservice.Dao
use reward_mservice.Dao.Templates.{count_templates, find_page}
use reward_mservice.Template.Service.{
  PageResult, TemplateListQuery, normalize_page, normalize_size, to_template_vos, list_templates,
}

length-take : {A : Type 0} (n : ℕ) (xs : List A) → length (take n xs) ≤ n
unfolding take
length-take zero xs = omega arith
length-take (suc n) [] = omega arith
length-take (suc n) (x ∷ xs) = omega (arith, length-take n xs)

-- A page that the query asked for, within the bounds.
pub record IsPage (q : TemplateListQuery) (p : PageResult) : Type 0 where
  pub page : p.page ≡ normalize_page q.page
  pub first : 1 ≤ p.page
  pub some_rows : 1 ≤ p.size
  pub few_rows : p.size ≤ 100
  pub fits : length p.items ≤ p.size

page-fits :
    (page size : ℕ) (status : Option TemplateStatus)
    → Yields (λ rows. length rows ≤ size) (find_page page size status)
unfolding find_page
page-fits page size status = Yields-query _ (λ t. length-take size _)

list-fits :
    (page size : ℕ) (status : Option TemplateStatus)
    → Yields (λ listed. length listed.0 ≤ size) (Dao.Templates.list page size status)
unfolding Dao.Templates.list
list-fits page size status = Yields-bind _ _ (Yields-any (count_templates status)) (λ total _.
    Yields-bind _ _ (page-fits page size status) (λ rows fits. Yields-pure (rows, total) fits))

to_template_vos-length :
    (templates : List Template)
    → Yields (λ vos. length vos ≡ length templates) (to_template_vos templates)
unfolding to_template_vos
to_template_vos-length [] = Yields-pure [] refl
to_template_vos-length (t ∷ templates) = Yields-bind _ _ (Yields-any _) (λ vo _.
    Yields-bind _ _ (to_template_vos-length templates)
      (λ vos same. Yields-pure (vo ∷ vos) (ap suc same)))

size_bounds : (raw : ℕ) → (1 ≤ normalize_size raw) × (normalize_size raw ≤ 100)
unfolding normalize_size
size_bounds raw = ground arith

page_bound : (raw : ℕ) → 1 ≤ normalize_page raw
unfolding normalize_page
page_bound raw = ground arith

list-IsPage : (q : TemplateListQuery) → Yields (IsPage q) (list_templates q)
unfolding list_templates
list-IsPage q =
    Yields-bind _ _ (Yields-any (require (validate_template_status q.status) (app invalid_request)))
      (λ status _.
        Yields-bind _ _
          (Yields-or_else _ (wrap internal_error)
            (list-fits (normalize_page q.page) (normalize_size q.size) status))
          (λ listed fits. Yields-bind _ _ (to_template_vos-length listed.0) (λ items same.
            Yields-pure
              (record {
                total = listed.1;
                page = normalize_page q.page;
                size = normalize_size q.size;
                items = items;
              })
              (record {
                page = refl;
                first = page_bound q.page;
                some_rows = (size_bounds q.size).0;
                few_rows = (size_bounds q.size).1;
                fits = omega (arith, same, fits);
              }))))

-- `ListTemplates`: a page that it returns has the page number asked for, or 1 if that is not
-- positive, between 1 and 100 as its size, and no more templates than that, whatever numbers the
-- client sends.
pub list_templates-IsPage :
    (q : TemplateListQuery) (env : Env) (w : World) → Value (IsPage q) (list_templates q env w).0
list_templates-IsPage q env w = (list-IsPage q).at env w
