-- ===== src/Config/Validate/Examples.antt =====
-- The theorems on a validated configuration at the worked example.
use regied.Prelude.{String, Option, none, some, ◌≡◌, refl, All, get, put}
use regied.Api.Document.{kind_of}
use regied.Config.Model.{Config, lookup}
use regied.Config.Validate.{validate, validator_of, config_of, valid}
use regied.Config.Validate.Indexed.{lookup_complete}
use regied.Config.Validate.Ports.{EachApart, port_forwards, forwards_apart}
use regied.Samples.Router.{router}

abbrev no_complaint : String → Option String
no_complaint path = none

abbrev router_parsed : Config
router_parsed = config_of (validator_of no_complaint router)

router_passes : validate no_complaint router ≡ valid router_parsed
unfolding validate get put
router_passes = refl

lookup_complete_example :
    All (λ r. lookup router_parsed (kind_of r.spec) r.name ≡ some r) router.resources
lookup_complete_example = lookup_complete no_complaint router router_passes

forwards_apart_example : EachApart (port_forwards router_parsed.document.resources)
forwards_apart_example = forwards_apart no_complaint router router_passes
