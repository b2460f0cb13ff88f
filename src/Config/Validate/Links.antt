-- ===== src/Config/Validate/Links.antt =====
-- internal/config/validate.go, the index: what a reference that resolves gives to the renderers.
use regied.Prelude.{
  Bool, true, false, ◌&&◌, some, List, [], ◌∷◌, String, if-cases, Bool-cases, Option-cases, ◌≡◌,
  refl, inl, inr, arith, All, All-append, ◌=ˢ◌, eq_iff,
}
use regied.Prelude.Logged.{Logged}
use regied.Api.Link.{InterfaceSpec}
use regied.Api.Document.{
  Kind, Resource, Spec, kind_of, kind_text, same_kind, interface, an_interface, a_session, a_tunnel,
  a_route_policy, an_address_set, a_zone, a_policy, a_source_nat, a_forward, a_dhcp_server,
  a_forwarder, a_record_set,
}
use regied.Config.Model.{Entry, find_entry, as_interface}
use regied.Config.Problem.{Problem}
use regied.Config.Resolve.{add_entry, build_index, find_among, link_kinds, uplink_kinds}

-- An entry of the index that was found, with what holds for every entry.
pub record FoundEntry (Q : Entry → Type 0) (kind : Kind) (name : String) (r : Resource)
    : Type 0 where
  pub entry : Entry
  pub holds : Q entry
  pub same_resource : entry.resource ≡ r
  pub under_kind : same_kind entry.kind kind ≡ true
  pub under_name : entry.name ≡ name

and_parts : (a b : Bool) → (a && b) ≡ true → (a ≡ true) × (b ≡ true)
and_parts true b h = (refl, h)
and_parts false b h = absurd (ground arith)

module _ (Q : Entry → Type 0) where
  add_entry-All :
      (index : List Entry) (r : Resource)
      → Q (record { kind = kind_of r.spec; name = r.name; resource = r })
      → All Q index
      → All Q (add_entry index r).value
  unfolding add_entry
  add_entry-All index r q h =
      if-cases {A = Logged Problem (List Entry)} (λ m. All Q m.value) (r.name =ˢ "") _ _ (λ t. h)
        (λ f. elim (Option-cases (find_entry (kind_of r.spec) r.name index)) [
          | inl e ↦ rw e (All-append Q index _ h (q, tt))
          | inr (taken, e) ↦ rw e h
        ])

  -- What holds for the entry of every resource holds for every entry of the index.
  pub build_index-All :
      (index : List Entry) (rs : List Resource)
      → All Q index
      → All (λ r. Q (record { kind = kind_of r.spec; name = r.name; resource = r })) rs
      → All Q (build_index index rs).value
  unfolding build_index
  build_index-All index [] h q = h
  build_index-All index (r ∷ rs) h q =
      build_index-All (add_entry index r).value rs (add_entry-All index r q.0 h) q.1

  pub find_entry-All :
      (kind : Kind) (name : String) (index : List Entry)
      → All Q index
      → (r : Resource) → find_entry kind name index ≡ some r
      → FoundEntry Q kind name r
  unfolding find_entry
  find_entry-All kind name [] q r h = absurd (ground arith)
  find_entry-All kind name (e ∷ es) q r h =
      elim (Bool-cases (same_kind e.kind kind && (e.name =ˢ name))) [
        | inr f ↦ find_entry-All kind name es q.1 r (rw f at h)
        | inl t ↦
            let same : some e.resource ≡ some r = rw t at h in
            let both = and_parts _ _ t in
            record {
              entry = e;
              holds = q.0;
              same_resource = cc;
              under_kind = both.0;
              under_name = (eq_iff e.name name).0 both.1;
            }
      ]

-- An entry stands under its resource's own kind.
abbrev pub IsKinded : Entry → Type 0
IsKinded e = e.kind ≡ kind_of e.resource.spec

all-IsKinded :
    (rs : List Resource)
    → All (λ r. IsKinded (record { kind = kind_of r.spec; name = r.name; resource = r })) rs
all-IsKinded [] = tt
all-IsKinded (r ∷ rs) = (refl, all-IsKinded rs)

-- Every entry of the index of a document does.
pub build_index-IsKinded : (rs : List Resource) → All IsKinded (build_index [] rs).value
build_index-IsKinded rs = build_index-All IsKinded [] rs tt (all-IsKinded rs)

as_interface-kind :
    (s : Spec)
    → same_kind (kind_of s) interface ≡ true
    → (i : InterfaceSpec) × (as_interface s ≡ some i)
unfolding as_interface kind_of kind_text
as_interface-kind (an_interface i) h = (i, refl)
as_interface-kind (a_session s) h = absurd (ground arith)
as_interface-kind (a_tunnel s) h = absurd (ground arith)
as_interface-kind (a_route_policy s) h = absurd (ground arith)
as_interface-kind (an_address_set s) h = absurd (ground arith)
as_interface-kind (a_zone s) h = absurd (ground arith)
as_interface-kind (a_policy s) h = absurd (ground arith)
as_interface-kind (a_source_nat s) h = absurd (ground arith)
as_interface-kind (a_forward s) h = absurd (ground arith)
as_interface-kind (a_dhcp_server s) h = absurd (ground arith)
as_interface-kind (a_forwarder s) h = absurd (ground arith)
as_interface-kind (a_record_set s) h = absurd (ground arith)

-- What is found as an interface has an interface's spec.
pub find_entry-interface :
    (name : String) (index : List Entry)
    → All IsKinded index
    → (r : Resource) → find_entry interface name index ≡ some r
    → (i : InterfaceSpec) × (as_interface r.spec ≡ some i)
find_entry-interface name index k r h =
    let e = find_entry-All IsKinded interface name index k r h in
    let kind : same_kind (kind_of e.entry.resource.spec) interface ≡ true =
      rw (← e.holds) e.under_kind in
    rw (← e.same_resource) (as_interface-kind e.entry.resource.spec kind)

-- A name of an uplink is a name of a link.
pub find_among-uplink :
    (name : String) (index : List Entry) (r : Resource)
    → find_among uplink_kinds name index ≡ some r
    → (r' : Resource) × (find_among link_kinds name index ≡ some r')
unfolding find_among
find_among-uplink name index r h = elim (Option-cases (find_entry interface name index)) [
  | inr (i, e) ↦ (i, rw (e, find_among) refl)
  | inl e ↦ (r, rw (e, find_among) h)
]
