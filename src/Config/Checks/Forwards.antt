-- ===== src/Config/Checks/Forwards.antt =====
-- internal/config/validate.go, the checks of port forwards, each by itself and against the earlier ones.
use regied.Prelude.{
  ℕ, String, Bool, true, false, not, ◌&&◌, ◌||◌, Option, none, some, List, [], ◌∷◌, ◌++◌,
  if◌then◌else◌, ◌==◌, ◌=ˢ◌, ◌⋅◌, quote, is_some, decimal, leb, min, max,
}
use regied.Prelude.Logged.{◌>>=◌, ◌>>◌}
use regied.Api.Netip.{is_valid}
use regied.Api.Scalars.{Protocol, PortSpec, family_of, is_zero, protocol_text, ports_text, width}
use regied.Api.Firewall.{PortForwardSpec, ForwardTarget, listening_ports, target_ports}
use regied.Api.Document.{Resource, ref_text}
use regied.Config.Model.{as_forward}
use regied.Config.Resolve.{
  Validator, Check, errorf, skip, when, required, exactly_one, exclusive, resolve_uplink,
}
use regied.Config.Checks.Firewall.{is_tunnel}

-- ports(n)
port_count : ℕ → String
unfolding decimal
port_count n = if n == 1 then "1 port" else decimal n ⋅ " ports"

unfoldable pub check_published : Validator → Resource → String → Check (Unit {0})
unfolding resolve_uplink is_tunnel
check_published v r egress_ref = do
  uplink ← resolve_uplink v r "spec.egressRef" egress_ref
  when (is_tunnel uplink) (
      errorf r "spec.egressRef" (
        "nothing can be published through the DSLiteTunnel "
        ⋅ quote egress_ref
        ⋅ ": it is translated at the far end"))

unfoldable pub check_forward_egress : Validator → Resource → PortForwardSpec → Check (Unit {0})
unfolding required check_published
check_forward_egress v r s = do
  named ← required r "spec.egressRef" (not (s.egress_ref =ˢ ""))
  when named (check_published v r s.egress_ref)

unfoldable pub check_forward_protocol : Resource → Protocol → Check (Unit {0})
unfolding required is_zero protocol_text
check_forward_protocol r p = do
  given ← required r "spec.protocol" (not (is_zero p))
  when (given && not (p.name =ˢ "tcp") && not (p.name =ˢ "udp"))
      (errorf r "spec.protocol" ("a port forward is tcp or udp, not " ⋅ protocol_text p))

check_widths : Resource → PortForwardSpec → ForwardTarget → Check (Unit {0})
unfolding width listening_ports target_ports ports_text port_count
check_widths r s t = when (not (width (listening_ports s) == width (target_ports s))) (
    errorf r (if is_some t.port_range then "spec.target.portRange" else "spec.target.port") (
      ports_text (target_ports s)
      ⋅ " covers "
      ⋅ port_count (width (target_ports s))
      ⋅ ", but the forward listens on "
      ⋅ ports_text (listening_ports s)
      ⋅ ", which covers "
      ⋅ decimal (width (listening_ports s))))

check_target : Resource → PortForwardSpec → Bool → ForwardTarget → Check (Unit {0})
unfolding exclusive check_widths
check_target r s listens t = do
  exclusive r "spec.target" "port" "portRange" (is_some t.port) (is_some t.port_range)
  when listens (check_widths r s t)

unfoldable pub check_forward_target :
    Resource → PortForwardSpec → Bool → Option ForwardTarget → Check (Unit {0})
unfolding check_target is_valid
check_forward_target r s listens none = errorf r "spec.target.address" "required"
check_forward_target r s listens (some t) =
    if is_valid t.address
    then check_target r s listens t
    else errorf r "spec.target.address" "required"

unfoldable pub check_forward : Validator → Resource → PortForwardSpec → Check (Unit {0})
unfolding check_forward_egress check_forward_protocol exactly_one check_forward_target
check_forward v r s = do
  check_forward_egress v r s
  check_forward_protocol r s.protocol
  listens ← exactly_one r "port" "portRange" (is_some s.port) (is_some s.port_range)
  check_forward_target r s listens s.target

-- a forward with all that it matches on
pub record Listener : Type 0 where
  pub resource : Resource
  pub spec : PortForwardSpec
  pub family : String

unfoldable pub listener_to : Resource → PortForwardSpec → Option ForwardTarget → Option Listener
unfolding is_valid family_of
listener_to r s none = none
listener_to r s (some t) =
    if is_valid t.address
    then some (record { resource = r; spec = s; family = family_of t.address })
    else none

-- either both are set or neither
unfoldable pub same_presence : Bool → Bool → Bool
same_presence true b = b
same_presence false b = not b

-- what the loop of checkPortForwardOverlaps goes on with; `none` for what it skips
unfoldable pub listener_of : Resource → PortForwardSpec → Option Listener
unfolding same_presence is_zero listener_to
listener_of r s =
    if (s.egress_ref =ˢ "")
      || is_zero s.protocol
      || same_presence (is_some s.port) (is_some s.port_range)
    then none
    else listener_to r s s.target

-- the ports that two listeners share, if they compete
unfoldable pub shared_ports : Listener → Listener → Option PortSpec
unfolding listening_ports
shared_ports a b =
    let from = max (listening_ports a.spec).from (listening_ports b.spec).from in
    let to = min (listening_ports a.spec).to (listening_ports b.spec).to in
    if (b.spec.egress_ref =ˢ a.spec.egress_ref)
      && (b.spec.protocol.name =ˢ a.spec.protocol.name)
      && (b.family =ˢ a.family)
      && leb from to
    then some (record { from = from; to = to })
    else none

unfoldable pub overlap : Listener → Listener → Option PortSpec → Check (Unit {0})
unfolding ports_text listening_ports ref_text
overlap a b none = skip
overlap a b (some shared) =
    errorf a.resource (if is_some a.spec.port_range then "spec.portRange" else "spec.port") (
      ports_text (listening_ports a.spec)
      ⋅ "/"
      ⋅ a.spec.protocol.name
      ⋅ " on "
      ⋅ a.spec.egress_ref
      ⋅ " overlaps "
      ⋅ ref_text b.resource
      ⋅ ", which listens on "
      ⋅ ports_text (listening_ports b.spec)
      ⋅ "/"
      ⋅ b.spec.protocol.name
      ⋅ "; they share "
      ⋅ ports_text shared
      ⋅ ", and which of the two a packet would reach is decided by rule order, which is written nowhere")

-- the loop over the earlier ones
unfoldable pub check_overlaps_with : Listener → List Listener → Check (Unit {0})
unfolding overlap shared_ports
check_overlaps_with a [] = skip
check_overlaps_with a (b ∷ bs) = do overlap a b (shared_ports a b); check_overlaps_with a bs

unfoldable pub listener_at : Resource → Option PortForwardSpec → Option Listener
unfolding listener_of
listener_at r none = none
listener_at r (some s) = listener_of r s

unfoldable pub check_overlaps : List Listener → List Resource → Check (Unit {0})
unfolding check_overlaps_with listener_at as_forward
check_overlaps seen [] = skip
check_overlaps seen (r ∷ rs) = elim (listener_at r (as_forward r.spec)) [
  | none ↦ check_overlaps seen rs
  | some a ↦ do check_overlaps_with a seen; check_overlaps (seen ++ a ∷ []) rs
]
