-- ===== src/Template/Service.antt =====
-- server/service/template.go: the methods of `TemplateService`, and http/data/page.go.
use reward_mservice.Common.{
  ℕ, ltb, not, Bool, Option, List, [], ◌∷◌, Text, trim_space, is_empty, if◌then◌else◌,
}
use reward_mservice.Errs.{
  Err, app, wrap, driver, invalid_request, internal_error, invalid_status_transition,
  template_not_found, is_status_transition_error,
}
use reward_mservice.Model.{
  Template, TemplateType, TemplateStatus, TemplateConfig, FixTemplateConfig, DynamicTemplateConfig,
  is_positive,
}
use reward_mservice.Util.{validate_template_status}
use reward_mservice.World.{M, pure, throw, require, throw_if, or_else, ◌>>=◌, ◌>>◌}
use reward_mservice.Dao
use reward_mservice.Template.Config.{parse_template_input, parse_template_config}

pub record CreateTemplateRequest : Type 0 where
  pub title : Text
  pub voucher_type : Text
  pub unit : Text
  pub template_type : Text
  pub config : Text

pub record UpdateTemplateRequest : Type 0 where
  pub title : Text
  pub config : Text

pub record TemplateListQuery : Type 0 where
  pub page : ℕ
  pub size : ℕ
  pub status : Text

pub record PublishTemplateResponse : Type 0 where
  pub template_id : ℕ
  pub status : TemplateStatus

-- The config that is shown, by the template's type.
pub data ConfigVo : Type 0 where
  fixed_vo : FixTemplateConfig → ConfigVo
  dynamic_vo : DynamicTemplateConfig → ConfigVo

-- `TemplateVO`
pub record TemplateVo : Type 0 where
  pub template : Template
  pub config : ConfigVo

pub record PageResult : Type 0 where
  pub total : ℕ
  pub page : ℕ
  pub size : ℕ
  pub items : List TemplateVo

-- `PageQuery.Normalize`; an int is its 64-bit pattern.
unfoldable pub normalize_page : ℕ → ℕ
normalize_page page = if is_positive page then page else 1

unfoldable pub normalize_size : ℕ → ℕ
normalize_size raw =
    let size = if is_positive raw then raw else 20 in if ltb 100 size then 100 else size

-- `status != DRAFT`, of `validateTemplateEditable` and `validateTemplatePublishTransition`.
abbrev pub is_draft : TemplateStatus → Bool
is_draft s = Dao.Templates.is_status s TemplateStatus.draft

unfoldable pub template_config_to_vo : TemplateType → TemplateConfig → M ConfigVo
template_config_to_vo TemplateType.fixed raw = do
  cfg ← require raw.as_fixed driver
  pure (fixed_vo cfg)
template_config_to_vo TemplateType.dynamic raw = do
  cfg ← require raw.as_dynamic driver
  pure (dynamic_vo cfg)
template_config_to_vo TemplateType.unknown_type raw = throw (app invalid_request)

unfoldable pub to_template_vo : Template → M TemplateVo
to_template_vo template = do
  config ← template_config_to_vo template.template_type template.config
  pure (record { template = template; config = config })

unfoldable pub create_template : Option CreateTemplateRequest → M ℕ
create_template body = do
  req ← require body (app invalid_request)
  input ← parse_template_input req.title req.voucher_type req.unit req.template_type req.config
  or_else
      (Dao.Templates.create (record {
        id = 0;
        title = input.title;
        voucher_type = input.voucher_type;
        unit = input.unit;
        template_type = input.template_type;
        config = input.config;
        status = TemplateStatus.draft;
      }))
      (wrap internal_error)

unfoldable pub load_editable_template : ℕ → M Template
load_editable_template id = do
  throw_if (not (is_positive id)) (app invalid_request)
  found ← or_else (Dao.Templates.get_by_id id) (wrap internal_error)
  template ← require found (app template_not_found)
  throw_if (not (is_draft template.status)) (app invalid_status_transition)
  pure template

unfoldable pub update_template : ℕ → Option UpdateTemplateRequest → M TemplateVo
update_template id body = do
  req ← require body (app invalid_request)
  template ← load_editable_template id
  throw_if (is_empty req.config) (app invalid_request)
  config ← parse_template_config template.template_type req.config
  let title = trim_space req.title
  or_else (Dao.Templates.update_template id title config) (wrap internal_error)
  to_template_vo (Dao.Templates.set_config title config template)

-- What the error of `UpdateStatus` becomes.
abbrev pub transition_or_internal : Err → Err
transition_or_internal e = if is_status_transition_error e then e else wrap internal_error e

unfoldable pub publish_template : ℕ → M PublishTemplateResponse
publish_template id = do
  found ← or_else (Dao.Templates.get_by_id id) (wrap internal_error)
  template ← require found (app template_not_found)
  throw_if (not (is_draft template.status)) (app invalid_status_transition)
  or_else (Dao.Templates.update_status id TemplateStatus.draft TemplateStatus.published)
      transition_or_internal
  pure (record { template_id = id; status = TemplateStatus.published })

unfoldable pub to_template_vos : List Template → M (List TemplateVo)
to_template_vos [] = pure []
to_template_vos (template ∷ templates) = do
  vo ← or_else (to_template_vo template) (wrap internal_error)
  vos ← to_template_vos templates
  pure (vo ∷ vos)

unfoldable pub list_templates : TemplateListQuery → M PageResult
list_templates q = do
  let page = normalize_page q.page
  let size = normalize_size q.size
  status ← require (validate_template_status q.status) (app invalid_request)
  listed ← or_else (Dao.Templates.list page size status) (wrap internal_error)
  items ← to_template_vos listed.0
  pure (record { total = listed.1; page = page; size = size; items = items })
