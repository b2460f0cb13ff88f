-- ===== src/Config/Validate/Ports.antt =====
-- internal/config/validate.go, checkPortForwardOverlaps: the packets that the forwards take.
use regied.Prelude.{
  ℕ, ◌≤◌, false, Option, none, some, List, [], ◌∷◌, ◌++◌, String, ◌≡◌, refl, inl, inr, arith, All,
  is_some, ◌⊎◌,
}
use regied.Api.Scalars.{PortSpec, family_of}
use regied.Api.Firewall.{PortForwardSpec, ForwardTarget, listening_ports}
use regied.Api.Document.{Spec, a_forward, Resource, NetworkConfig}
use regied.Config.Model.{Config, as_forward}
use regied.Config.Checks.Forwards.{same_presence, Listener, listener_at}
use regied.Config.Resolve.{Validator}
use regied.Config.Validate.Listening.{IsWhole, check_forward-IsWhole, listener_of-IsWhole}
use regied.Config.Validate.{
  check_spec, check_resource, check_resources, valid, validate, validator_of, config_of,
}
use regied.Config.Validate.Quiet.{Quiet, errors_parts}
use regied.Config.Validate.Passed.{validate-Passed}
use regied.Config.Validate.Overlaps.{
  Matches, Disjoint, EachDisjoint, with_listener, listeners, check_overlaps-EachDisjoint,
}

-- The forward takes the packets that arrive on the uplink, of the protocol and the family, at the port.
pub record Takes (s : PortForwardSpec) (uplink protocol family : String) (port : ℕ) : Type 0 where
  pub same_uplink : s.egress_ref ≡ uplink
  pub same_protocol : s.protocol.name ≡ protocol
  pub target : ForwardTarget
  pub is_target : s.target ≡ some target
  pub same_family : family_of target.address ≡ family
  pub at_port :
      (s.port ≡ some port)
      ⊎ ((range : PortSpec) × (s.port_range ≡ some range) × (range.from ≤ port) × (port ≤ range.to))

abbrev pub AreApart : PortForwardSpec → PortForwardSpec → Type 0
AreApart s t =
    (uplink protocol family : String) (port : ℕ)
    → Takes s uplink protocol family port
    → Takes t uplink protocol family port
    → ⊥

-- Any two of a list are apart.
abbrev pub EachApart : List PortForwardSpec → Type 0
EachApart [] = Unit {0}
EachApart (s ∷ ss) = All (AreApart s) ss × EachApart ss

abbrev pub forward_in : Spec → List PortForwardSpec
forward_in (a_forward s) = s ∷ []
forward_in _ = []

-- The port forwards of a document, in its order.
abbrev pub port_forwards : List Resource → List PortForwardSpec
port_forwards [] = []
port_forwards (r ∷ rs) = forward_in r.spec ++ port_forwards rs

listening_from_to :
    (s : PortForwardSpec) (port : ℕ) (p : Option ℕ) (q : Option PortSpec)
    → s.port ≡ p
    → s.port_range ≡ q
    → same_presence (is_some p) (is_some q) ≡ false
    → (p ≡ some port)
      ⊎ ((range : PortSpec) × (q ≡ some range) × (range.from ≤ port) × (port ≤ range.to))
    → ((listening_ports s).from ≤ port) × (port ≤ (listening_ports s).to)
unfolding listening_ports same_presence
listening_from_to s port (some n) q ep eq one (inl e) =
    let same : n ≡ port = cc in rw ep (omega arith, omega arith)
listening_from_to s port (some n) (some r) ep eq one (inr h) = absurd (ground arith)
listening_from_to s port (some n) none ep eq one (inr h) = absurd (ground (arith, h.1))
listening_from_to s port none q ep eq one (inl e) = absurd (ground arith)
listening_from_to s port none none ep eq one (inr h) = absurd (ground (arith, h.1))
listening_from_to s port none (some r) ep eq one (inr h) =
    let same : r ≡ h.0 = cc in rw (ep, eq, same) (h.2, h.3)

-- A whole forward is compared at all that it takes.
Takes-Matches :
    (r : Resource) (s : PortForwardSpec) (w : IsWhole s) (uplink protocol family : String)
    (port : ℕ)
    → Takes s uplink protocol family port
    → Matches
        (record { resource = r; spec = s; family = family_of w.target.address })
        uplink
        protocol
        family
        port
Takes-Matches r s w uplink protocol family port t =
    let ports = listening_from_to s port s.port s.port_range refl refl w.one_form t.at_port in
    let same : w.target ≡ t.target = cc in
    record {
      same_uplink = t.same_uplink;
      same_protocol = t.same_protocol;
      same_family = rw same t.same_family;
      from = ports.0;
      to = ports.1;
    }

-- A whole forward as it is compared.
abbrev listener_as : Resource → (s : PortForwardSpec) → IsWhole s → Listener
listener_as r s w = record { resource = r; spec = s; family = family_of w.target.address }

-- The listeners are those of the forwards, of each of them.
data AreCompared : List PortForwardSpec → List Listener → Type 0 where
  no_more : AreCompared [] []
  one_more :
      (r : Resource) (s : PortForwardSpec) (w : IsWhole s) {ss : List PortForwardSpec}
      {as' : List Listener}
      → AreCompared ss as'
      → AreCompared (s ∷ ss) (listener_as r s w ∷ as')

at_spec :
    (v : Validator) (before : List Resource) (r : Resource) (ss : List PortForwardSpec)
    (as' : List Listener) (sp : Spec)
    → Quiet (check_spec v before r sp)
    → AreCompared ss as'
    → AreCompared (forward_in sp ++ ss) (with_listener (listener_at r (as_forward sp)) as')
unfolding check_spec listener_at as_forward
at_spec v before r ss as' (a_forward s) h rest =
    let w = check_forward-IsWhole v r s h in rw (listener_of-IsWhole r s w) (one_more r s w rest)
at_spec v before r ss as' _ h rest = rest

resources-AreCompared :
    (v : Validator) (before rs : List Resource)
    → Quiet (check_resources v before rs)
    → AreCompared (port_forwards rs) (listeners rs)
unfolding check_resources check_resource
resources-AreCompared v before [] h = no_more
resources-AreCompared v before (r ∷ rs) h =
    let p = errors_parts (check_resource v before r).reports _ h in
    at_spec v before r (port_forwards rs) (listeners rs) r.spec p.0
      (resources-AreCompared v (before ++ r ∷ []) rs p.1)

apart_of :
    (r : Resource) (s : PortForwardSpec) (w : IsWhole s) {ss : List PortForwardSpec}
    {as' : List Listener}
    → AreCompared ss as'
    → All (Disjoint (listener_as r s w)) as'
    → All (AreApart s) ss
apart_of r s w no_more h = tt
apart_of r s w (one_more q t u rest) h = (
  λ uplink protocol family port ts tt'.
      h.0 uplink protocol family port (Takes-Matches r s w uplink protocol family port ts)
        (Takes-Matches q t u uplink protocol family port tt'),
  apart_of r s w rest h.1,
)

each_of :
    {ss : List PortForwardSpec} {as' : List Listener}
    → AreCompared ss as'
    → EachDisjoint as'
    → EachApart ss
each_of no_more h = tt
each_of (one_more r s w rest) h = (apart_of r s w rest h.0, each_of rest h.1)

-- In a validated configuration no two port forwards take the same packet: any two of the document
-- that are published on one uplink, with one protocol and targets of one family, have no port in
-- common, be it a single port or one of a range.
pub forwards_apart :
    (files : String → Option String) (d : NetworkConfig) {c : Config}
    → validate files d ≡ valid c
    → EachApart (port_forwards c.document.resources)
unfolding validator_of config_of
forwards_apart files d h =
    let (passed, is) = validate-Passed files d h in
    rw (← is) (
      each_of (resources-AreCompared (validator_of files d) [] d.resources passed.resources)
        (check_overlaps-EachDisjoint [] d.resources passed.overlaps).1)
