-- ===== src/Render/Nftables/Lengths.antt =====
-- The names of links, which internal/config/validate.go checks in checkLinkNames and which the ruleset
-- of internal/render/nftables/render.go is written with.
use Prim.Native.String as Text
use regied.Prelude.{
  ◌≤◌, Bool, true, false, Option, some, List, [], ◌∷◌, String, Bool-cases, Option-cases, ◌≡◌, refl,
  sym, ◌∙◌, ◌||◌, inl, inr, arith, All, leb,
}
use regied.Api.Link.{InterfaceSpec}
use regied.Api.Document.{
  Kind, Resource, NetworkConfig, Spec, an_interface, a_session, a_tunnel, kind_of, kind_text,
  same_kind, is_link, interface, pppoe_session, dslite_tunnel,
}
use regied.Config.Model.{Config, Entry, find_entry, lookup, as_interface}
use regied.Config.Problem.{has_errors}
use regied.Config.Resolve.{when}
use regied.Config.Checks.Names.{
  check_link_name, check_link_names, link_names_of, named_after, max_link_name_length,
}
use regied.Config.Validate.{valid, validate, validator_of, config_of}
use regied.Config.Validate.Quiet.{Quiet, errors_parts}
use regied.Config.Validate.Passed.{validate-Passed}
use regied.Config.Validate.Links.{build_index-All, find_entry-All}
use regied.Render.Nftables.Names.{ifname_of, is_found, link_name}

abbrev IsShort : String → Type 0
IsShort name = Text.len name ≤ max_link_name_length

check_link_name-IsShort :
    (r : Resource) (field name because : String)
    → Quiet (check_link_name r field name because)
    → IsShort name
unfolding check_link_name has_errors
check_link_name-IsShort r field name because h = elim (Bool-cases (leb (Text.len name) 15)) [
  | inl t ↦ ground arith
  | inr f ↦ absurd (let no = rw f at h in ground arith)
]

-- The name of the link that a resource puts on the host is short.
abbrev NamesShort : Resource → Spec → Type 0
NamesShort r (an_interface s) = IsShort s.ifname
NamesShort r (a_session s) = IsShort r.name
NamesShort r (a_tunnel s) = IsShort r.name
NamesShort r _ = Unit {0}

link_names-NamesShort :
    (r : Resource) (s : Spec)
    → Quiet (when (is_link (kind_of s)) (link_names_of r (as_interface s)))
    → NamesShort r s
unfolding link_names_of as_interface is_link kind_of
link_names-NamesShort r (an_interface s) h =
    check_link_name-IsShort r "spec.ifname" s.ifname ""
      (errors_parts (check_link_name r "spec.ifname" s.ifname "").reports _ h).0
link_names-NamesShort r (a_session s) h =
    check_link_name-IsShort r "metadata.name" r.name named_after h
link_names-NamesShort r (a_tunnel s) h =
    check_link_name-IsShort r "metadata.name" r.name named_after h
link_names-NamesShort r _ h = tt

-- What the index says of each entry.
abbrev IsNamed : Entry → Type 0
IsNamed e =
    NamesShort e.resource e.resource.spec
    × (e.kind ≡ kind_of e.resource.spec)
    × (e.name ≡ e.resource.name)

check_link_names-IsNamed :
    (rs : List Resource)
    → Quiet (check_link_names rs)
    → All (λ r. IsNamed (record { kind = kind_of r.spec; name = r.name; resource = r })) rs
unfolding check_link_names
check_link_names-IsNamed [] h = tt
check_link_names-IsNamed (r ∷ rs) h =
    let parts =
      errors_parts (when (is_link (kind_of r.spec)) (link_names_of r (as_interface r.spec))).reports
        _ h in
    ((link_names-NamesShort r r.spec parts.0, refl, refl), check_link_names-IsNamed rs parts.1)

interface-IsShort :
    (r : Resource) (s : Spec) (i : InterfaceSpec)
    → as_interface s ≡ some i
    → NamesShort r s
    → IsShort i.ifname
unfolding as_interface
interface-IsShort r (an_interface j) i h q = let same : j ≡ i = cc in rw (← same) q
interface-IsShort r _ i h q = absurd (ground arith)

uplink-IsShort :
    (r : Resource) (s : Spec)
    → (same_kind (kind_of s) pppoe_session || same_kind (kind_of s) dslite_tunnel) ≡ true
    → NamesShort r s
    → IsShort r.name
unfolding kind_of kind_text
uplink-IsShort r (a_session s) h q = q
uplink-IsShort r (a_tunnel s) h q = q
uplink-IsShort r _ h q = absurd (ground arith)

module _ (index : List Entry) (named : All IsNamed index) where
  ifname-IsShort :
      (ref : String) (name : String)
      → ifname_of (find_entry interface ref index) ≡ some name
      → IsShort name
  ifname-IsShort ref name h = elim (Option-cases (find_entry interface ref index)) [
    | inl e ↦ absurd (let no = rw (e, ifname_of) at h in ground arith)
    | inr (r, e) ↦ elim (Option-cases (as_interface r.spec)) [
      | inl none_there ↦ absurd (let no = rw (e, ifname_of, none_there) at h in ground arith)
      | inr (i, there) ↦
          let same : some i.ifname ≡ some name = rw (e, ifname_of, there) at h in
          let found = find_entry-All IsNamed interface ref index named r e in
          let short : NamesShort r r.spec = rw (← found.same_resource) found.holds.0 in
          let is : i.ifname ≡ name = cc in rw (← is) (interface-IsShort r r.spec i there short)
    ]
  ]

  found-IsShort :
      (kind : Kind) (ref : String)
      → ((k : Kind)
          → same_kind k kind ≡ true
          → (same_kind k pppoe_session || same_kind k dslite_tunnel) ≡ true)
      → is_found (find_entry kind ref index) ≡ true
      → IsShort ref
  found-IsShort kind ref an_uplink h = elim (Option-cases (find_entry kind ref index)) [
    | inl e ↦ absurd (let no = rw e at h in ground arith)
    | inr (r, e) ↦
        let found = find_entry-All IsNamed kind ref index named r e in
        let of_kind : same_kind (kind_of found.entry.resource.spec) kind ≡ true =
          rw (← found.holds.1) found.under_kind in
        let short : IsShort found.entry.resource.name =
          uplink-IsShort found.entry.resource found.entry.resource.spec (an_uplink _ of_kind)
            found.holds.0 in
        let is : found.entry.resource.name ≡ ref = sym found.holds.2 ∙ found.under_name in
        rw (← is) short
  ]

or_right : (a b : Bool) → b ≡ true → (a || b) ≡ true
or_right true b h = refl
or_right false b h = h

or_first : (a b : Bool) → a ≡ true → (a || b) ≡ true
or_first true b h = refl
or_first false b h = absurd (ground arith)

link_name-IsShort :
    (c : Config)
    → All IsNamed c.index
    → (ref name : String) → link_name c ref ≡ some name
    → IsShort name
unfolding link_name lookup
link_name-IsShort c named ref name h =
    let session_short = found-IsShort c.index named pppoe_session ref (λ k. or_first _ _) in
    let tunnel_short = found-IsShort c.index named dslite_tunnel ref (λ k. or_right _ _) in
    elim (Option-cases (ifname_of (find_entry interface ref c.index))) [
      | inr (ifname, e) ↦
          let same : some ifname ≡ some name = rw (e, link_name) at h in
          ifname-IsShort c.index named ref name (e ∙ same)
      | inl e ↦ elim (Bool-cases (is_found (find_entry pppoe_session ref c.index))) [
        | inl t ↦
            let same : some ref ≡ some name = rw (e, t, link_name) at h in
            let is : ref ≡ name = cc in rw (← is) (session_short t)
        | inr f ↦ elim (Bool-cases (is_found (find_entry dslite_tunnel ref c.index))) [
          | inl t ↦
              let same : some ref ≡ some name = rw (e, f, t, link_name) at h in
              let is : ref ≡ name = cc in rw (← is) (tunnel_short t)
          | inr g ↦ absurd (let no = rw (e, f, g, link_name) at h in ground arith)
        ]
      ]
    ]

-- Every name of a link that a reference in a validated configuration stands for has at most fifteen
-- bytes.
pub link_name_bounded :
    (files : String → Option String) (d : NetworkConfig) {c : Config}
    → validate files d ≡ valid c
    → (ref name : String) → link_name c ref ≡ some name
    → Text.len name ≤ max_link_name_length
unfolding validator_of config_of
link_name_bounded files d {c} h ref name named_so =
    let (passed, is) = validate-Passed files d h in
    let named =
      build_index-All IsNamed [] d.resources tt
        (check_link_names-IsNamed d.resources passed.link_names) in
    link_name-IsShort c (rw (← is) named) ref name named_so
