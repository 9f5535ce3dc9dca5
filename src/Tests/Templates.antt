-- ===== src/Tests/Templates.antt =====
-- The theorems on amounts and on templates at work.
use reward_mservice.Common.{pos, ◌+◌, ◌*◌, ◌≤◌, some, [], ◌∷◌, codes, find, ◌≡◌, refl, arith}
use reward_mservice.Amount.{decimal, round_decimal}
use reward_mservice.Amount.Laws.{round_decimal-error}
use reward_mservice.Model.{Template, TemplateType, TemplateStatus}
use reward_mservice.World.{World}
use reward_mservice.World.Yields.{Value}
use reward_mservice.Dao
use reward_mservice.Template.Config.{fix_config}
use reward_mservice.Template.Service.{list_templates, TemplateListQuery}
use reward_mservice.Template.Pages.{IsPage, list_templates-IsPage}
use reward_mservice.System.{Reaches, here, later, after, on_update_template, on_publish_template}
use reward_mservice.System.Templates.{reaches-IsThere}
use reward_mservice.Tests.{crypto, usdt, world, tables, env}

round_decimal-error_example :
    (round_decimal 2 3 * 3 * 2 ≤ 2 * 100000000 * 2 + 3)
    × (2 * 100000000 * 2 ≤ round_decimal 2 3 * 3 * 2 + 3)
round_decimal-error_example = round_decimal-error 2 3 (omega arith)

-- A reward of 5.
abbrev template : Template
template = record {
  id = 8;
  title = codes "five";
  voucher_type = crypto;
  unit = usdt;
  template_type = TemplateType.fixed;
  config = fix_config (decimal (pos 500000000));
  status = TemplateStatus.published;
}

abbrev shop : World
shop = record world { tables = record tables { templates = template ∷ [] } }

template_found : find (Dao.Templates.has_id 8) shop.tables.templates ≡ some template
unfolding find
template_found = refl

abbrev query : TemplateListQuery
query = record { page = 0; size = 1000; status = codes "published" }

list_templates-IsPage_example : Value (IsPage query) (list_templates query env shop).0
list_templates-IsPage_example = list_templates-IsPage query env shop

-- A published template is to be published again, and to be updated.
abbrev later_shop : World
later_shop =
    after (on_update_template 8 (some (record { title = codes "six"; config = codes "1" }))) env
      (after (on_publish_template 8) env shop)

abbrev shop_run : Reaches shop later_shop
shop_run =
    later (on_update_template 8 (some (record { title = codes "six"; config = codes "1" }))) env
      (later (on_publish_template 8) env here)

reaches-IsThere_example : find (Dao.Templates.has_id 8) later_shop.tables.templates ≡ some template
reaches-IsThere_example = reaches-IsThere shop later_shop template shop_run refl template_found
