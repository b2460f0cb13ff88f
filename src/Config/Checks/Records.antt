-- ===== src/Config/Checks/Records.antt =====
-- internal/config/validate.go, the checks of DNS record sets. Names are lowered as Go lowers ASCII.
use regied.Prelude.{
  ℕ, ◌+◌, String, Bool, false, not, ◌&&◌, ◌||◌, Option, none, some, List, [], ◌∷◌, if◌then◌else◌,
  ltb, ◌==◌, ◌=ˢ◌, ◌⋅◌, quote, is_some, trim_suffix, get, put,
}
use regied.Prelude.Letters.{to_lower, has_suffix}
use regied.Prelude.Logged.{◌>>=◌, ◌>>◌, pure}
use regied.Prelude.Durations.{duration_text}
use regied.Api.Link.{advertised_address_of}
use regied.Api.Serving.{
  DnsRecordSetSpec, DnsRecord, RecordAddress, delegated, advertised, type_or_default,
  proxied_enabled,
}
use regied.Api.Document.{Resource, ref_text}
use regied.Config.Model.{as_interface, as_record_set}
use regied.Config.Resolve.{
  Validator, Check, errorf, skip, when, required, each_at, at, resolve_interface, resolve_uplink,
}
use regied.Config.Checks.Derived.{check_derived_address, spec_of}
use regied.Config.Checks.Uplinks.{check_secret}
use regied.Config.Checks.Firewall.{is_tunnel, is_empty_list}

-- a name without its case and its last dot
plain_name : String → String
unfolding to_lower trim_suffix
plain_name name = trim_suffix (to_lower name) "."

unfoldable pub name_in_zone : String → String → Bool
unfolding plain_name has_suffix
name_in_zone name zone =
    (plain_name name =ˢ plain_name zone) || has_suffix (plain_name name) ("." ⋅ plain_name zone)

check_uplink_record : Validator → Resource → DnsRecord → String → Check (Unit {0})
unfolding required resolve_uplink is_tunnel
check_uplink_record v r rec field = do
  when (is_some rec.address) (
      errorf r (field ⋅ ".address")
        "an A record follows an uplink and takes its address from it; address is for an AAAA record")
  named ← required r (field ⋅ ".egressRef") (not (rec.egress_ref =ˢ ""))
  when named (do
    uplink ← resolve_uplink v r (field ⋅ ".egressRef") rec.egress_ref
    when (is_tunnel uplink) (
        errorf r (field ⋅ ".egressRef") (
          "nothing can be published through the DSLiteTunnel "
          ⋅ quote rec.egress_ref
          ⋅ ": it is translated at the far end, so there is no address for this record to hold")))

check_advertised_record : Validator → Resource → String → String → Check (Unit {0})
unfolding required resolve_interface advertised_address_of as_interface
check_advertised_record v r field ref = do
  named ← required r (field ⋅ ".interfaceRef") (not (ref =ˢ ""))
  when named (do
    upstream ← resolve_interface v r (field ⋅ ".interfaceRef") ref
    elim (spec_of upstream) [
      | none ↦ skip
      | some s ↦ when (not (is_some (advertised_address_of s))) (
          errorf r (field ⋅ ".interfaceRef") (
            "the Interface "
            ⋅ quote ref
            ⋅ " takes no address from the router advertisement; give it a fromRouterAdvertisement address, or cut this record from the delegation with fromDelegatedPrefix"))
    ])

check_record_address : Validator → Resource → String → Option RecordAddress → Check (Unit {0})
unfolding required check_advertised_record check_derived_address
check_record_address v r field none = do required r (field ⋅ ".address") false; skip
check_record_address v r field (some (advertised ref)) =
    check_advertised_record v r (field ⋅ ".address.fromRouterAdvertisement") ref
check_record_address v r field (some (delegated d)) =
    check_derived_address v r (field ⋅ ".address.fromDelegatedPrefix") d

check_delegated_record : Validator → Resource → DnsRecord → String → Check (Unit {0})
unfolding check_record_address
check_delegated_record v r rec field = do
  when (not (rec.egress_ref =ˢ "")) (
      errorf r (field ⋅ ".egressRef")
        "an AAAA record holds an address cut from the delegation, not one an uplink holds; leave egressRef out and write address.fromDelegatedPrefix or address.fromRouterAdvertisement")
  check_record_address v r field rec.address

check_type : Validator → Resource → DnsRecord → String → Check (Unit {0})
unfolding type_or_default check_uplink_record check_delegated_record
check_type v r rec field =
    if type_or_default rec =ˢ "A"
    then check_uplink_record v r rec field
    else if type_or_default rec =ˢ "AAAA"
    then check_delegated_record v r rec field
    else errorf r (field ⋅ ".type")
        (quote (type_or_default rec) ⋅ " is not a record type regied writes; it writes A and AAAA")

check_name : Resource → String → String → ℕ → String → Check (Unit {0})
unfolding name_in_zone
check_name r zone field i name = when (not (name_in_zone name zone)) (
    errorf r (at (field ⋅ ".names") i)
      (quote name ⋅ " is not inside the zone " ⋅ quote zone ⋅ ", so it cannot be written there"))

abbrev min_record_ttl : ℕ
min_record_ttl = 60000000000

abbrev max_record_ttl : ℕ
max_record_ttl = 86400000000000

-- DNSRecordTTL.String
ttl_text : ℕ → String
unfolding duration_text
ttl_text ttl = if ttl == 0 then "automatic" else duration_text ttl

check_ttl : Resource → DnsRecord → String → Check (Unit {0})
unfolding ttl_text duration_text
check_ttl r rec field =
    if rec.ttl == 0
    then skip
    else if proxied_enabled rec
    then errorf r (field ⋅ ".ttl") (
        "a proxied record's TTL is the provider's to decide, so "
        ⋅ ttl_text rec.ttl
        ⋅ " goes nowhere; leave it out")
    else when (ltb rec.ttl min_record_ttl || ltb max_record_ttl rec.ttl) (
        errorf r (field ⋅ ".ttl") (
          ttl_text rec.ttl
          ⋅ " is outside what the provider accepts, which is between "
          ⋅ duration_text min_record_ttl
          ⋅ " and "
          ⋅ duration_text max_record_ttl))

check_record : Validator → Resource → DnsRecordSetSpec → Bool → ℕ → DnsRecord → Check (Unit {0})
unfolding check_type required is_empty_list each_at check_name check_ttl
check_record v r s has_zone i rec = do
  check_type v r rec (at "spec.records" i)
  named ← required r (at "spec.records" i ⋅ ".names") (not (is_empty_list rec.names))
  when (named && has_zone) (each_at (check_name r s.zone (at "spec.records" i)) 0 rec.names)
  check_ttl r rec (at "spec.records" i)

unfoldable pub check_record_set : Validator → Resource → DnsRecordSetSpec → Check (Unit {0})
unfolding required check_secret is_empty_list each_at check_record
check_record_set v r s = do
  provided ← required r "spec.provider" (not (s.provider =ˢ ""))
  when (provided && not (s.provider =ˢ "cloudflare")) (
      errorf r "spec.provider" (
        quote s.provider
        ⋅ " is not a provider regied writes to; \"cloudflare\" is the only one, and naming it is what keeps this declaration valid on the day there is a second"))
  has_zone ← required r "spec.zone" (not (s.zone =ˢ ""))
  check_secret v r "spec.apiTokenFile" s.api_token_file
  listed ← required r "spec.records" (not (is_empty_list s.records))
  when listed (each_at (check_record v r s has_zone) 0 s.records)

-- where a record was declared; the position of its resource tells two of one name apart
pub record Origin : Type 0 where
  pub position : ℕ
  pub ref : String
  pub field : String

origin_text : ℕ → Origin → String
origin_text position first =
    if first.position == position then first.field else first.ref ⋅ " at " ⋅ first.field

declared_twice : Resource → ℕ → String → DnsRecord → String → Origin → Check (Unit {0})
unfolding type_or_default origin_text
declared_twice r position field rec name first = errorf r field (
    "the "
    ⋅ type_or_default rec
    ⋅ " record for "
    ⋅ quote name
    ⋅ " is already declared by "
    ⋅ origin_text position first
    ⋅ "; which of the two it would hold is written nowhere")

record_key : DnsRecord → String → String
unfolding type_or_default plain_name
record_key rec name = type_or_default rec ⋅ " " ⋅ plain_name name

-- the loop over the names of a record, with what was seen before
check_names_once :
    Resource
    → ℕ
    → String
    → DnsRecord
    → ℕ
    → List (String × Origin)
    → List String
    → Check (List (String × Origin))
unfolding record_key ref_text declared_twice
check_names_once r position field rec j seen [] = pure seen
check_names_once r position field rec j seen (name ∷ names) =
    elim (get (record_key rec name) seen) [
      | some first ↦ do
        declared_twice r position (at (field ⋅ ".names") j) rec name first
        check_names_once r position field rec (j + 1) seen names
      | none ↦
          check_names_once r position field rec (j + 1)
            (put (record_key rec name)
              (record { position = position; ref = ref_text r; field = at (field ⋅ ".names") j })
              seen)
            names
    ]

check_records_once :
    Resource → ℕ → ℕ → List (String × Origin) → List DnsRecord → Check (List (String × Origin))
unfolding check_names_once
check_records_once r position i seen [] = pure seen
check_records_once r position i seen (rec ∷ recs) = do
  grown ← check_names_once r position (at "spec.records" i) rec 0 seen rec.names
  check_records_once r position (i + 1) grown recs

abbrev records_of : Option DnsRecordSetSpec → List DnsRecord
records_of none = []
records_of (some s) = s.records

-- checkDuplicateDNSRecords
unfoldable pub check_duplicate_records :
    ℕ → List (String × Origin) → List Resource → Check (Unit {0})
unfolding check_records_once as_record_set
check_duplicate_records position seen [] = skip
check_duplicate_records position seen (r ∷ rs) = do
  grown ← check_records_once r position 0 seen (records_of (as_record_set r.spec))
  check_duplicate_records (position + 1) grown rs
