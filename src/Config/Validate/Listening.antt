-- ===== src/Config/Validate/Listening.antt =====
-- internal/config/validate.go, checkPortForward and checkPortForwardOverlaps: a forward that passes its
-- own checks is one that is compared with the others.
use regied.Prelude.{
  String, Bool, true, false, not, Option, none, some, [], ◌∷◌, ◌=ˢ◌, Bool-cases, ◌≡◌, refl, inl,
  inr, arith, is_some,
}
use regied.Api.Netip.{is_valid}
use regied.Api.Scalars.{Protocol, is_zero, family_of}
use regied.Api.Firewall.{PortForwardSpec, ForwardTarget}
use regied.Api.Document.{Resource}
use regied.Config.Problem.{has_errors}
use regied.Config.Resolve.{Validator, when, required, exactly_one}
use regied.Config.Checks.Forwards.{
  listener_to, same_presence, listener_of, check_published, check_forward_egress,
  check_forward_protocol, check_forward_target, check_forward,
}
use regied.Config.Validate.Quiet.{Quiet, split, errors_parts, required-Quiet}

-- What a forward with all that it needs has.
pub record IsWhole (s : PortForwardSpec) : Type 0 where
  pub named : (s.egress_ref =ˢ "") ≡ false
  pub of_protocol : is_zero s.protocol ≡ false
  pub one_form : same_presence (is_some s.port) (is_some s.port_range) ≡ false
  pub target : ForwardTarget
  pub is_target : s.target ≡ some target
  pub is_address : is_valid target.address ≡ true

required-not :
    (r : Resource) (field : String) (b : Bool) → Quiet (required r field (not b)) → b ≡ false
unfolding required
required-not r field b h = let e = required-Quiet r field (not b) h in ground arith

egress_named :
    (v : Validator) (r : Resource) (s : PortForwardSpec)
    → Quiet (check_forward_egress v r s)
    → (s.egress_ref =ˢ "") ≡ false
unfolding check_forward_egress
egress_named v r s h =
    let b = required r "spec.egressRef" (not (s.egress_ref =ˢ "")) in
    let p = split (b.reports ∷ (when b.value (check_published v r s.egress_ref)).reports ∷ []) h in
    required-not r "spec.egressRef" (s.egress_ref =ˢ "") p.0

protocol_given :
    (r : Resource) (p : Protocol) → Quiet (check_forward_protocol r p) → is_zero p ≡ false
unfolding check_forward_protocol
protocol_given r p h =
    let b = required r "spec.protocol" (not (is_zero p)) in
    required-not r "spec.protocol" (is_zero p) (errors_parts b.reports _ h).0

has_one_form :
    (r : Resource) (a b : Bool)
    → Quiet (exactly_one r "port" "portRange" a b)
    → same_presence a b ≡ false
unfolding exactly_one same_presence has_errors
has_one_form r true true h = absurd (ground arith)
has_one_form r true false h = refl
has_one_form r false true h = refl
has_one_form r false false h = absurd (ground arith)

has_target :
    (r : Resource) (s : PortForwardSpec) (listens : Bool) (o : Option ForwardTarget)
    → Quiet (check_forward_target r s listens o)
    → (t : ForwardTarget) × (o ≡ some t) × (is_valid t.address ≡ true)
unfolding check_forward_target has_errors
has_target r s listens none h = absurd (ground arith)
has_target r s listens (some t) h = elim (Bool-cases (is_valid t.address)) [
  | inl e ↦ (t, refl, e)
  | inr e ↦ absurd (let no = rw e at h in ground arith)
]

pub check_forward-IsWhole :
    (v : Validator) (r : Resource) (s : PortForwardSpec) → Quiet (check_forward v r s) → IsWhole s
unfolding check_forward
check_forward-IsWhole v r s h =
    let l = exactly_one r "port" "portRange" (is_some s.port) (is_some s.port_range) in
    let p =
      split
        ((check_forward_egress v r s).reports
          ∷ (check_forward_protocol r s.protocol).reports
          ∷ l.reports
          ∷ (check_forward_target r s l.value s.target).reports
          ∷ [])
        h in
    let t = has_target r s l.value s.target p.1.1.1.0 in
    record {
      named = egress_named v r s p.0;
      of_protocol = protocol_given r s.protocol p.1.0;
      one_form = has_one_form r (is_some s.port) (is_some s.port_range) p.1.1.0;
      target = t.0;
      is_target = t.1;
      is_address = t.2;
    }

-- It is compared with the others as what it is.
pub listener_of-IsWhole :
    (r : Resource) (s : PortForwardSpec) (w : IsWhole s)
    → listener_of r s
      ≡ some (record { resource = r; spec = s; family = family_of w.target.address })
unfolding listener_of listener_to
listener_of-IsWhole r s w = rw (w.named, w.of_protocol, w.one_form, w.is_target, w.is_address) refl
