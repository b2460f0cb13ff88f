-- ===== src/Config/Checks/Cycles.antt =====
-- internal/config/validate.go, the search for values that are derived from themselves. A resource is its
-- position in the document, which is what Go's pointer tells apart; the interface of a name is the
-- first one that has it, which is the one in the index.
pub mod Edges
pub mod Acyclic
pub mod Ends
pub mod Sources
pub mod Ranks
mod Examples
use regied.Prelude.{
  ℕ, zero, suc, ◌+◌, String, Bool, true, false, not, ◌&&◌, ◌||◌, Option, none, some, List, [], ◌∷◌,
  ◌++◌, length, get_elem?, if◌then◌else◌, ◌==◌, ◌=ˢ◌, ◌⋅◌, join,
}
use regied.Prelude.Logged.{Logged, ◌>>=◌, ◌>>◌, pure, log}
use regied.Api.Link.{InterfaceAddress, InterfaceSpec, DsliteTunnelSpec, LocalAddressFrom}
use regied.Api.Document.{
  Resource, Spec, an_interface, a_tunnel, interface, kind_of, same_kind, ref_text,
}
use regied.Config.Problem.{Problem}
use regied.Config.Resolve.{Check, errorf, at}

pub record Edge : Type 0 where
  pub to : ℕ
  pub field : String

unfoldable pub mem_position : ℕ → List ℕ → Bool
mem_position n [] = false
mem_position n (m ∷ ms) = let rest = mem_position n ms in if m == n then true else rest

position_of : ℕ → String → List Resource → Option ℕ
unfolding kind_of
position_of i name [] = none
position_of i name (r ∷ rs) =
    let rest = position_of (i + 1) name rs in
    if same_kind (kind_of r.spec) interface && (r.name =ˢ name) && not (name =ˢ "")
    then some i
    else rest

-- add
abbrev edge_to : Option ℕ → String → List Edge
edge_to none field = []
edge_to (some n) field = record { to = n; field = field } ∷ []

address_edges : List Resource → ℕ → List InterfaceAddress → List Edge
unfolding position_of
address_edges order i [] = []
address_edges order i (a ∷ rest) =
    (elim a.from_delegated_prefix [
      | none ↦ []
      | some d ↦
          edge_to (position_of 0 d.interface_ref order)
            (at "spec.addresses" i ⋅ ".fromDelegatedPrefix.interfaceRef")
    ])
    ++ address_edges order (i + 1) rest

local_edges : List Resource → Option LocalAddressFrom → List Edge
unfolding position_of
local_edges order none = []
local_edges order (some from) =
    edge_to (position_of 0 from.interface_ref order) "spec.localAddressFrom.interfaceRef"

edges_in : List Resource → Spec → List Edge
unfolding address_edges local_edges
edges_in order (an_interface s) = address_edges order 0 s.addresses
edges_in order (a_tunnel s) = local_edges order s.local_address_from
edges_in order _ = []

-- derivationEdges
unfoldable pub derivation_edges : List Resource → ℕ → List Edge
unfolding edges_in
derivation_edges order n = elim (get_elem? order n) [ none ↦ [] | some r ↦ edges_in order r.spec ]

refs_of : List Resource → List ℕ → List String
unfolding ref_text
refs_of order [] = []
refs_of order (n ∷ ns) = elim (get_elem? order n) [
  | none ↦ refs_of order ns
  | some r ↦ ref_text r ∷ refs_of order ns
]

-- the part of the stack from a resource on
from_position : ℕ → List ℕ → List ℕ
from_position n [] = []
from_position n (m ∷ ms) = let rest = from_position n ms in if m == n then m ∷ ms else rest

unfoldable pub cycle_path : List Resource → List ℕ → ℕ → String
unfolding refs_of from_position
cycle_path order stack back = join " -> " (refs_of order (from_position back stack ++ back ∷ []))

-- what a walk leaves: the resources that are done, whether it found a cycle, and whether its fuel ran
-- out
pub record Walk : Type 0 where
  pub done : List ℕ
  pub found : Bool
  pub starved : Bool

report_cycle : List Resource → ℕ → String → String → Check (Unit {0})
report_cycle order n field message = elim (get_elem? order n) [
  | none ↦ pure tt
  | some r ↦ errorf r field message
]

-- the loop over the edges of a resource, with the walk of another resource
unfoldable pub walk_edges :
    (List ℕ → ℕ → List ℕ → Check Walk)
    → List Resource
    → ℕ
    → List ℕ
    → List ℕ
    → List Edge
    → Check Walk
unfolding mem_position report_cycle cycle_path
walk_edges go order n stack done [] = pure (record { done = done; found = false; starved = false })
walk_edges go order n stack done (e ∷ es) =
    let closed : Check Walk = (do
      report_cycle order n e.field ("reference cycle: " ⋅ cycle_path order stack e.to)
      pure (record { done = done; found = true; starved = false })) in
    let open_ : Check Walk = (do
      w ← go stack e.to done
      (if w.found then pure w else (do
        rest ← walk_edges go order n stack w.done es
        pure (record rest { starved = w.starved || rest.starved })))) in
    if mem_position e.to stack then closed else open_

unfoldable pub walk : ℕ → List Resource → List ℕ → ℕ → List ℕ → Check Walk
unfolding walk_edges mem_position derivation_edges
walk zero order stack n done = pure (record { done = done; found = false; starved = true })
walk (suc fuel) order stack n done =
    let inner : Check Walk = (do
      w ← walk_edges (walk fuel order) order n (stack ++ n ∷ []) done (derivation_edges order n)
      pure (record w { done = n ∷ w.done })) in
    if mem_position n done
    then pure (record { done = done; found = false; starved = false })
    else inner

-- the loop over the resources, from a position on
unfoldable pub walk_from : List Resource → ℕ → ℕ → List ℕ → Check Walk
unfolding walk
walk_from order zero n done = pure (record { done = done; found = false; starved = false })
walk_from order (suc left) n done = do
  w ← walk (length order + 1) order [] n done
  rest ← walk_from order left (n + 1) w.done
  pure (record rest { starved = w.starved || rest.starved })

-- checkDerivationCycles
unfoldable pub check_derivation_cycles : List Resource → Check Walk
unfolding walk_from
check_derivation_cycles order = walk_from order (length order) 0 []
