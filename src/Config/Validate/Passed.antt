-- ===== src/Config/Validate/Passed.antt =====
-- internal/config/validate.go, Validate: what a document that passes has passed.
use regied.Prelude.{
  Bool, true, false, not, ◌||◌, Option, [], ◌∷◌, String, Bool-cases, ◌≡◌, refl, inl, inr, arith,
}
use regied.Api.Document.{NetworkConfig}
use regied.Config.Model.{Config}
use regied.Config.Problem.{has_errors}
use regied.Config.Resolve.{Validator, build_index}
use regied.Config.Checks.Firewall.{is_empty_list}
use regied.Config.Checks.Names.{check_link_names, check_bridge_members}
use regied.Config.Checks.Records.{check_duplicate_records}
use regied.Config.Checks.Forwards.{check_overlaps}
use regied.Config.Checks.Cycles.{check_derivation_cycles}
use regied.Config.Validate.{
  check_document, check_singletons, check_resources, check_all, valid, validator_of, problems_of,
  pin_problems_of, config_of, validate,
}
use regied.Config.Validate.Quiet.{Quiet, errors_parts, split}

or_left : (a b : Bool) → (a || b) ≡ false → a ≡ false
or_left false b h = refl
or_left true b h = absurd (ground arith)

-- The checks between resources, and those of each, that reported no error.
pub record Passed (v : Validator) : Type 0 where
  pub index : Quiet (build_index [] v.document.resources)
  pub resources : Quiet (check_resources v [] v.document.resources)
  pub link_names : Quiet (check_link_names v.document.resources)
  pub overlaps : Quiet (check_overlaps [] v.document.resources)
  pub cycles : Quiet (check_derivation_cycles v.document.resources)

problems_of-Passed : (v : Validator) → has_errors (problems_of v) ≡ false → Passed v
unfolding problems_of check_all
problems_of-Passed v quiet =
    let checks = errors_parts (build_index [] v.document.resources).reports _ quiet in
    let parts =
      split
        ((check_document v.document).reports
          ∷ (check_singletons v.document.resources).reports
          ∷ (check_resources v [] v.document.resources).reports
          ∷ (check_link_names v.document.resources).reports
          ∷ (check_duplicate_records 0 [] v.document.resources).reports
          ∷ (check_overlaps [] v.document.resources).reports
          ∷ (check_bridge_members v.document.resources).reports
          ∷ (check_derivation_cycles v.document.resources).reports
          ∷ []
          ∷ [])
        checks.1 in
    record {
      index = checks.0;
      resources = parts.1.1.0;
      link_names = parts.1.1.1.0;
      overlaps = parts.1.1.1.1.1.0;
      cycles = parts.1.1.1.1.1.1.1.0;
    }

-- What a document that is valid has passed, and the configuration that it gives.
pub validate-Passed :
    (files : String → Option String) (d : NetworkConfig) {c : Config}
    → validate files d ≡ valid c
    → Passed (validator_of files d) × (config_of (validator_of files d) ≡ c)
unfolding validate
validate-Passed files d {c} h =
    let v = validator_of files d in
    elim (Bool-cases (has_errors (problems_of v) || not (is_empty_list (pin_problems_of d)))) [
      | inl t ↦ absurd (let no = rw t at h in ground arith)
      | inr f ↦
          let same : valid (config_of v) ≡ valid c = rw f at h in
          (problems_of-Passed v (or_left _ _ f), cc)
    ]
