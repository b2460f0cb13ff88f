-- ===== src/Render/Nftables/Examples.antt =====
-- The ruleset of the worked example, and the theorems at it.
use Prim.Native.String as Text
use regied.Prelude.{
  String, Option, none, some, ◌≤◌, ◌≡◌, refl, All, get, put, join, quote, sort, split_at,
}
use regied.Prelude.Logged.{each}
use regied.Config.Model.{Config, lookup}
use regied.Config.Validate.{validate, validator_of, config_of, valid}
use regied.Samples.Router.{router, golden}
use regied.Render.Nftables.Ruleset.{ruleset_text}
use regied.Render.Nftables.Matches.{is_identifier}
use regied.Render.Nftables.Filter.{render, rendered, render_table}
use regied.Render.Nftables.Accepts.{IsNaming}
use regied.Config.Checks.Names.{max_link_name_length}
use regied.Render.Nftables.Names.{link_name}
use regied.Render.Nftables.Lengths.{link_name_bounded}
use regied.Render.Nftables.Valid.{render_table-NamesOnly}

abbrev all_files : String → Option String
all_files path = none

abbrev router_config : Config
router_config = config_of (validator_of all_files router)

router_valid : validate all_files router ≡ valid router_config
unfolding validate get put
router_valid = refl

-- The golden file of the repository.
router_ruleset : render router_config ≡ rendered (render_table router_config).value
unfolding render render_table validator_of config_of join each sort quote is_identifier lookup get
    put
router_ruleset = refl

router_text : ruleset_text (render_table router_config).value ≡ golden
unfolding ruleset_text render_table validator_of config_of join each sort quote split_at
    is_identifier lookup get put
router_text = refl

render_table-NamesOnly_example : All IsNaming (render_table router_config).reports
render_table-NamesOnly_example = render_table-NamesOnly all_files router router_valid

wan_name : link_name router_config "wan" ≡ some "eth0"
unfolding link_name lookup validator_of config_of
wan_name = refl

link_name_bounded_example : Text.len "eth0" ≤ max_link_name_length
link_name_bounded_example = link_name_bounded all_files router router_valid "wan" "eth0" wan_name
