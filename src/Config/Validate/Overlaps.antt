-- ===== src/Config/Validate/Overlaps.antt =====
-- internal/config/validate.go, checkPortForwardOverlaps: the listeners that it goes through.
use regied.Prelude.{
  ℕ, ◌≤◌, true, Option, none, some, List, [], ◌∷◌, ◌++◌, String, Option-cases, ◌≡◌, inl, inr, arith,
  All, All-map, eq_refl, max, min, leb,
}
use regied.Api.Firewall.{listening_ports}
use regied.Api.Document.{Resource}
use regied.Config.Model.{as_forward}
use regied.Config.Problem.{has_errors}
use regied.Config.Checks.Forwards.{
  Listener, shared_ports, overlap, check_overlaps_with, listener_at, check_overlaps,
}
use regied.Config.Validate.Quiet.{Quiet, errors_parts}

-- What the comparison reads of a forward.
pub record Matches (a : Listener) (uplink protocol family : String) (port : ℕ) : Type 0 where
  pub same_uplink : a.spec.egress_ref ≡ uplink
  pub same_protocol : a.spec.protocol.name ≡ protocol
  pub same_family : a.family ≡ family
  pub from : (listening_ports a.spec).from ≤ port
  pub to : port ≤ (listening_ports a.spec).to

abbrev pub Disjoint : Listener → Listener → Type 0
Disjoint a b =
    (uplink protocol family : String) (port : ℕ)
    → Matches a uplink protocol family port
    → Matches b uplink protocol family port
    → ⊥

shares :
    (a b c d port : ℕ) → a ≤ port → port ≤ b → c ≤ port → port ≤ d → leb (max c a) (min d b) ≡ true
shares a b c d port h k l m = ground arith

shared_ports-Disjoint : (a b : Listener) → shared_ports b a ≡ none → Disjoint a b
unfolding shared_ports
shared_ports-Disjoint a b h uplink protocol family port ta tb =
    let overlapping = shares _ _ _ _ port ta.from ta.to tb.from tb.to in
    let no =
      rw
        (
          ta.same_uplink,
          tb.same_uplink,
          ta.same_protocol,
          tb.same_protocol,
          ta.same_family,
          tb.same_family,
          eq_refl uplink,
          eq_refl protocol,
          eq_refl family,
          overlapping,
        )
        at h in
    ground arith

-- One that starts to listen beside those seen, without a report.
check_overlaps_with-Disjoint :
    (a : Listener) (seen : List Listener)
    → Quiet (check_overlaps_with a seen)
    → All (λ b. Disjoint b a) seen
unfolding check_overlaps_with overlap has_errors
check_overlaps_with-Disjoint a [] h = tt
check_overlaps_with-Disjoint a (b ∷ bs) h = elim (Option-cases (shared_ports a b)) [
  | inr (shared, e) ↦ absurd (let no = rw e at h in ground arith)
  | inl e ↦ (
    shared_ports-Disjoint b a e,
    check_overlaps_with-Disjoint a bs (errors_parts (overlap a b (shared_ports a b)).reports _ h).1,
  )
]

abbrev pub with_listener : Option Listener → List Listener → List Listener
with_listener none as' = as'
with_listener (some a) as' = a ∷ as'

-- The forwards that listen, in the order of the document.
abbrev pub listeners : List Resource → List Listener
listeners [] = []
listeners (r ∷ rs) = with_listener (listener_at r (as_forward r.spec)) (listeners rs)

-- Any two of a list are apart.
abbrev pub EachDisjoint : List Listener → Type 0
EachDisjoint [] = Unit {0}
EachDisjoint (a ∷ as') = All (Disjoint a) as' × EachDisjoint as'

All-left : (P : Listener → Type 0) (xs ys : List Listener) → All P (xs ++ ys) → All P xs
All-left P [] ys h = tt
All-left P (x ∷ xs) ys h = (h.0, All-left P xs ys h.1)

All_last : (P : Listener → Type 0) (xs : List Listener) (y : Listener) → All P (xs ++ y ∷ []) → P y
All_last P [] y h = h.0
All_last P (x ∷ xs) y h = All_last P xs y h.1

pub check_overlaps-EachDisjoint :
    (seen : List Listener) (rs : List Resource)
    → Quiet (check_overlaps seen rs)
    → All (λ a. All (λ b. Disjoint b a) seen) (listeners rs) × EachDisjoint (listeners rs)
unfolding check_overlaps
check_overlaps-EachDisjoint seen [] h = (tt, tt)
check_overlaps-EachDisjoint seen (r ∷ rs) h =
    elim (Option-cases (listener_at r (as_forward r.spec))) [
      | inl e ↦
          rw (e, listeners) (check_overlaps-EachDisjoint seen rs (rw (e, check_overlaps) at h))
      | inr (a, e) ↦
          let parts =
            errors_parts (check_overlaps_with a seen).reports _ (rw (e, check_overlaps) at h) in
          let rest = check_overlaps-EachDisjoint (seen ++ a ∷ []) rs parts.1 in
          rw (e, listeners)
            (
              (
                check_overlaps_with-Disjoint a seen parts.0,
                All-map (λ b q. All-left _ seen (a ∷ []) q) (listeners rs) rest.0,
              ),
              (All-map (λ b q. All_last _ seen a q) (listeners rs) rest.0, rest.1),
            )
    ]
