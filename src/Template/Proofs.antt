-- ===== src/Template/Proofs.antt =====
-- A published template never changes.
use reward_mservice.Common.{
  ℕ, ◌==◌, ==_iff, Bool, true, false, Option, none, some, List, [], ◌∷◌, Text, codes, find, ◌≡◌,
  refl, ◌∙◌, sym, subst, arith, Bool-cases, inl, inr, trim_space, is_empty,
}
use reward_mservice.Dao.Projects.{on_projects}
use reward_mservice.Model.{Project, Template, TemplateType, TemplateStatus, TemplateConfig}
use reward_mservice.Amount.{text}
use reward_mservice.World.{Tables, pure}
use reward_mservice.World.Keeps.{
  Invariant, Keeps, keeps_rules, IsMonotone, Keeps-execute, Keeps-execute_if, Keeps-new_ids,
  Keeps-if, Keeps-pure, Keeps-throw,
}
use reward_mservice.World.Triple.{
  Triple, Triple-bind, Triple-query, Triple-or_else, Triple-Keeps, Keeps-Triple, Triple-pure,
  Triple-throw_if_to, Triple-require_to, Triple-Keeps_to, Triple-execute, Triple-pre,
}
use reward_mservice.Sql.{update}
use reward_mservice.Sql.Rows.{find-append}
use reward_mservice.Dao
use reward_mservice.Dao.Templates.{
  has_id, has_id_and_status, set_config, on_templates, create, get_by_id, update_status,
}
use reward_mservice.Reward.Proofs.Keeps.{Keeps-read_amount}
use reward_mservice.Template.Config.{
  validate_config_keys, amount_text, normalize_config_amount, parse_fix_template_config, read_cap,
  parse_cap, parse_dynamic_template_config, parse_template_config, parse_template_input,
}
use reward_mservice.Template.Service.{
  CreateTemplateRequest, UpdateTemplateRequest, create_template, load_editable_template,
  template_config_to_vo, to_template_vo, update_template, publish_template, is_draft,
}

-- What only reads keeps every invariant.
module _ {P : Invariant} where
  Keeps-keys : (raw : Text) (allowed : List Text) → Keeps P (validate_config_keys raw allowed)
  unfolding validate_config_keys
  Keeps-keys raw allowed = search keeps_rules

  Keeps-amount_text : (o : Option Text) → Keeps P (amount_text o)
  Keeps-amount_text none = Keeps-throw _
  Keeps-amount_text (some n) = Keeps-pure n

  Keeps-normalize : (raw : Text) → Keeps P (normalize_config_amount raw)
  unfolding normalize_config_amount
  Keeps-normalize raw = search (keeps_rules, Keeps-amount_text)

  Keeps-fix : (raw : Text) → Keeps P (parse_fix_template_config raw)
  unfolding parse_fix_template_config
  Keeps-fix raw = search (keeps_rules, Keeps-keys, Keeps-normalize, Keeps-read_amount) depth 20

  Keeps-read_cap : (raw : Text) → Keeps P (read_cap raw)
  unfolding read_cap
  Keeps-read_cap raw = search (keeps_rules, Keeps-read_amount)

  Keeps-cap : (raw : Text) → Keeps P (parse_cap raw)
  Keeps-cap raw =
      Keeps-if (is_empty (trim_space raw)) (pure (text (codes ""))) (read_cap raw) (Keeps-pure _)
        (Keeps-read_cap raw)

  Keeps-dynamic : (raw : Text) → Keeps P (parse_dynamic_template_config raw)
  unfolding parse_dynamic_template_config
  Keeps-dynamic raw = search (keeps_rules, Keeps-keys, Keeps-cap) depth 20

  Keeps-config : (y : TemplateType) (raw : Text) → Keeps P (parse_template_config y raw)
  Keeps-config TemplateType.fixed raw = Keeps-fix raw
  Keeps-config TemplateType.dynamic raw = Keeps-dynamic raw
  Keeps-config TemplateType.unknown_type raw = Keeps-throw _

  Keeps-input : (t v u y c : Text) → Keeps P (parse_template_input t v u y c)
  unfolding parse_template_input
  Keeps-input t v u y c = search (keeps_rules, Keeps-config) depth 20

  Keeps-config_to_vo : (y : TemplateType) (c : TemplateConfig) → Keeps P (template_config_to_vo y c)
  unfolding template_config_to_vo
  Keeps-config_to_vo TemplateType.fixed c = search keeps_rules
  Keeps-config_to_vo TemplateType.dynamic c = search keeps_rules
  Keeps-config_to_vo TemplateType.unknown_type c = Keeps-throw _

  Keeps-to_vo : (t : Template) → Keeps P (to_template_vo t)
  unfolding to_template_vo
  Keeps-to_vo t = search (keeps_rules, Keeps-config_to_vo)

-- `P` is not about templates.
pub record IsOfOthers (P : Invariant) : Type 0 where
  pub mono : IsMonotone P
  pub frame :
      (f : List Template → List Template) (t : Tables) (n : ℕ) → P t n → P (on_templates f t) n
  pub projects :
      (f : List Project → List Project) (t : Tables) (n : ℕ) → P t n → P (on_projects f t) n

module _ {P : Invariant} (k : IsOfOthers P) where
  pub Keeps-create_template : (body : Option CreateTemplateRequest) → Keeps P (create_template body)
  unfolding create_template create
  Keeps-create_template body =
      search (keeps_rules, Keeps-input, Keeps-new_ids, k.mono, Keeps-execute, k.frame) depth 20

  pub Keeps-update_template :
      (id : ℕ) (body : Option UpdateTemplateRequest) → Keeps P (update_template id body)
  unfolding update_template load_editable_template get_by_id Dao.Templates.update_template
  Keeps-update_template id body =
      search (keeps_rules, Keeps-config, Keeps-to_vo, Keeps-execute, k.frame) depth 20

  pub Keeps-publish_template : (id : ℕ) → Keeps P (publish_template id)
  unfolding publish_template get_by_id update_status
  Keeps-publish_template id = search (keeps_rules, Keeps-execute_if, k.frame) depth 20

-- The published template `r` is a row.
module _ (r : Template) (published : r.status ≡ TemplateStatus.published) where
  abbrev pub IsThere : Invariant
  IsThere t n = find (has_id r.id) t.templates ≡ some r

  pub IsThere-IsMonotone : IsMonotone IsThere
  IsThere-IsMonotone = record { at = λ t m n l h. h }

  untouched :
      (p : Template → Bool) (f : Template → Template) (rows : List Template)
      → p r ≡ false
      → ((s : Template) → (f s).id ≡ s.id)
      → find (has_id r.id) rows ≡ some r
      → find (has_id r.id) (update p f rows) ≡ some r
  unfolding update find
  untouched p f [] other keep h = h
  untouched p f (x ∷ rows) other keep h = ground (arith, keep x, untouched p f rows other keep)

  pub Keeps-create_IsThere :
      (body : Option CreateTemplateRequest) → Keeps IsThere (create_template body)
  unfolding create_template create
  Keeps-create_IsThere body =
      search
        (
          keeps_rules,
          Keeps-input,
          Keeps-new_ids,
          IsThere-IsMonotone,
          Keeps-execute,
          λ (n : ℕ) (x : Template) (t : Tables) (m : ℕ) (h : IsThere t m).
              find-append (has_id r.id) t.templates (x ∷ []) r h,
        )
        depth 20

  published-IsThere :
      (id : ℕ) (t : Tables) (n : ℕ)
      → IsThere t n
      → IsThere
          (on_templates
            (update
              (has_id_and_status id TemplateStatus.draft)
              (λ s. record s { status = TemplateStatus.published }))
            t)
          n
  published-IsThere id t n h =
      untouched (has_id_and_status id TemplateStatus.draft) _ t.templates (ground arith) (λ s. refl)
        h

  pub Keeps-publish_IsThere : (id : ℕ) → Keeps IsThere (publish_template id)
  unfolding publish_template get_by_id update_status
  Keeps-publish_IsThere id =
      search
        (
          keeps_rules,
          Keeps-execute_if,
          λ (t : Tables) (m : ℕ) (h : IsThere t m). published-IsThere id t m h,
        )
        depth 20

  -- A template that may be edited is another one.
  Editable : ℕ → Template → Invariant
  Editable id x t n =
      IsThere t n × (find (has_id id) t.templates ≡ some x) × (is_draft x.status ≡ true)

  Triple-load_editable : (id : ℕ) → Triple IsThere (load_editable_template id) (Editable id) IsThere
  unfolding load_editable_template get_by_id Editable
  Triple-load_editable id =
      Triple-bind {Q = λ _. IsThere} _ _ (Triple-Keeps _ (search keeps_rules)) (λ _.
        Triple-bind _ _ (Triple-or_else _ _ (Triple-query _)) (λ found.
          Triple-bind _ _ (Triple-require_to (λ t n h. h.0) found _) (λ x.
            Triple-bind _ _ (Triple-throw_if_to (λ t n h. h.0.0) _ _)
              (λ _. Triple-pure x (λ t n h. (h.0.0.0, h.0.0.1 ∙ h.0.1, ground (arith, h.1)))))))

  other_id : (id : ℕ) (x : Template) (t : Tables) (n : ℕ) → Editable id x t n → (r.id == id) ≡ false
  unfolding Editable
  other_id id x t n h = elim (Bool-cases (r.id == id)) [
    | inl clash ↦
        let same : find (has_id r.id) t.templates ≡ some x =
          subst (λ i. find (has_id i) t.templates ≡ some x) (sym ((==_iff r.id id).0 clash)) h.1 in
        ground (arith, h.0, h.2, same)
    | inr other ↦ other
  ]

  edited-IsThere :
      (id : ℕ) (title : Text) (config : TemplateConfig) (x : Template) (t : Tables) (n : ℕ)
      → Editable id x t n
      → IsThere (on_templates (update (has_id id) (set_config title config)) t) n
  unfolding Editable
  edited-IsThere id title config x t n h =
      untouched (has_id id) _ t.templates (other_id id x t n h) (λ s. refl) h.0

  pub Keeps-update_IsThere :
      (id : ℕ) (body : Option UpdateTemplateRequest) → Keeps IsThere (update_template id body)
  unfolding update_template Dao.Templates.update_template Editable
  Keeps-update_IsThere id body = Keeps-Triple _ (
      Triple-bind _ _ (Triple-require_to (λ t n h. h) body _) (λ req.
        Triple-bind _ _ (Triple-pre _ (λ t n h. h.0) (Triple-load_editable id)) (λ x.
          Triple-bind _ _ (Triple-throw_if_to (λ t n h. h.0) _ _) (λ _.
            Triple-bind _ _
              (Triple-Keeps_to (λ t n h. h.0.0) _ (Keeps-config x.template_type req.config))
              (λ config.
                Triple-bind {Q = λ _. IsThere} _ _
                  (Triple-or_else _ _ (
                    Triple-execute _ _ _ _
                      (λ t n h. edited-IsThere id (trim_space req.title) config x t n h.0)
                      (λ t n h. h.0.0)))
                  (λ _. Triple-Keeps _ (Keeps-to_vo _)))))))
