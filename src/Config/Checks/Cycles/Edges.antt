-- ===== src/Config/Checks/Cycles/Edges.antt =====
-- internal/config/validate.go, derivationEdges: every edge leads to a resource of the document.
use regied.Prelude.{
  ℕ, ◌+◌, ◌<◌, true, Option, none, some, List, [], ◌∷◌, length, get_elem?, if-cases, Option-cases,
  ◌⋅◌, String, ◌≡◌, inl, inr, arith, All, All-append,
}
use regied.Api.Link.{InterfaceAddress, LocalAddressFrom}
use regied.Api.Document.{
  Resource, Spec, an_interface, a_session, a_tunnel, a_route_policy, an_address_set, a_zone,
  a_policy, a_source_nat, a_forward, a_dhcp_server, a_forwarder, a_record_set,
}
use regied.Config.Resolve.{at}
use regied.Config.Checks.Cycles.{
  Edge, mem_position, position_of, edge_to, address_edges, local_edges, edges_in, derivation_edges,
}

-- The edges of a resource all lead to resources of the list.
abbrev pub AllIn : List Edge → List ℕ → Type 0
AllIn [] done = Unit {0}
AllIn (e ∷ es) done = (mem_position e.to done ≡ true) × AllIn es done

-- Every resource of the list takes values only from those that stand behind it.
abbrev pub IsFinished : List Resource → List ℕ → Type 0
IsFinished order [] = Unit {0}
IsFinished order (n ∷ ns) = AllIn (derivation_edges order n) ns × IsFinished order ns

abbrev pub Grows : List ℕ → List ℕ → Type 0
Grows done done' = (m : ℕ) → mem_position m done ≡ true → mem_position m done' ≡ true

pub AllIn-Grows : (es : List Edge) (a b : List ℕ) → Grows a b → AllIn es a → AllIn es b
AllIn-Grows [] a b g h = tt
AllIn-Grows (e ∷ es) a b g h = (g e.to h.0, AllIn-Grows es a b g h.1)

abbrev pub IsBelow : ℕ → Edge → Type 0
IsBelow n e = e.to < n

position_of_below :
    (i : ℕ) (name : String) (rs : List Resource) {k : ℕ}
    → position_of i name rs ≡ some k
    → k < i + length rs
unfolding position_of
position_of_below i name [] h = absurd (ground arith)
position_of_below i name (r ∷ rs) {k} h =
    if-cases (λ o. o ≡ some k → k < i + length (r ∷ rs)) _ (some i) (position_of (i + 1) name rs)
      (λ t e. ground arith) (λ f e. let p = position_of_below (i + 1) name rs e in omega arith) h

edge_to-IsBelow :
    (rs : List Resource) (name field : String)
    → All (IsBelow (length rs)) (edge_to (position_of 0 name rs) field)
edge_to-IsBelow rs name field = elim (Option-cases (position_of 0 name rs)) [
  | inl e ↦ rw e tt
  | inr (k, e) ↦ rw e (let p = position_of_below 0 name rs e in omega arith, tt)
]

address_edges-IsBelow :
    (rs : List Resource) (i : ℕ) (as' : List InterfaceAddress)
    → All (IsBelow (length rs)) (address_edges rs i as')
unfolding address_edges
address_edges-IsBelow rs i [] = tt
address_edges-IsBelow rs i (a ∷ rest) =
    All-append _ _ _
      (elim a.from_delegated_prefix
        as (λ o. All (IsBelow (length rs)) (elim o [
          | none ↦ []
          | some d ↦
              edge_to (position_of 0 d.interface_ref rs)
                (at "spec.addresses" i ⋅ ".fromDelegatedPrefix.interfaceRef")
        ])) [ none ↦ tt | some d ↦ edge_to-IsBelow rs d.interface_ref _ ])
      (address_edges-IsBelow rs (i + 1) rest)

local_edges-IsBelow :
    (rs : List Resource) (o : Option LocalAddressFrom)
    → All (IsBelow (length rs)) (local_edges rs o)
unfolding local_edges
local_edges-IsBelow rs none = tt
local_edges-IsBelow rs (some f) = edge_to-IsBelow rs f.interface_ref _

edges_in-IsBelow : (rs : List Resource) (s : Spec) → All (IsBelow (length rs)) (edges_in rs s)
unfolding edges_in
edges_in-IsBelow rs (an_interface s) = address_edges-IsBelow rs 0 s.addresses
edges_in-IsBelow rs (a_tunnel s) = local_edges-IsBelow rs s.local_address_from
edges_in-IsBelow rs (a_session s) = tt
edges_in-IsBelow rs (a_route_policy s) = tt
edges_in-IsBelow rs (an_address_set s) = tt
edges_in-IsBelow rs (a_zone s) = tt
edges_in-IsBelow rs (a_policy s) = tt
edges_in-IsBelow rs (a_source_nat s) = tt
edges_in-IsBelow rs (a_forward s) = tt
edges_in-IsBelow rs (a_dhcp_server s) = tt
edges_in-IsBelow rs (a_forwarder s) = tt
edges_in-IsBelow rs (a_record_set s) = tt

-- Edges lead to resources of the document.
pub derivation_edges-IsBelow :
    (rs : List Resource) (n : ℕ) → All (IsBelow (length rs)) (derivation_edges rs n)
unfolding derivation_edges
derivation_edges-IsBelow rs n =
    elim (get_elem? rs n)
      as (λ o. All (IsBelow (length rs)) (elim o [ none ↦ [] | some r ↦ edges_in rs r.spec ])) [
        | none ↦ tt
        | some r ↦ edges_in-IsBelow rs r.spec
      ]
