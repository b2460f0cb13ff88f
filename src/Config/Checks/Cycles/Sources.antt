-- ===== src/Config/Checks/Cycles/Sources.antt =====
-- internal/config/validate.go, derivationEdges: what a resource takes of an interface is an edge.
use mathlib.Core.Path.{subst}
use regied.Prelude.{
  ℕ, zero, suc, ◌+◌, ◌<◌, false, some, List, [], ◌∷◌, ◌++◌, length, get_elem?, ◌=ˢ◌, String, ◌≡◌,
  ◌≢◌, refl, ◌∙◌, ap, ◌⊎◌, inl, inr, arith, All, Bool-cases, eq_iff, eq_refl,
}
use regied.Api.Link.{InterfaceAddress, InterfaceSpec, DsliteTunnelSpec, LocalAddressFrom}
use regied.Api.Scalars.{DelegatedPrefixAddr}
use regied.Api.Document.{
  Kind, interface, Resource, Spec, an_interface, a_tunnel, kind_of, kind_text, same_kind,
}
use regied.Config.Checks.Cycles.{
  Edge, position_of, address_edges, local_edges, edges_in, derivation_edges,
}

-- The first interface of the name stands at the position.
pub data FirstInterface (name : String) : List Resource → ℕ → Type 0 where
  here :
      {r : Resource} {rs : List Resource} {s : InterfaceSpec}
      → r.spec ≡ an_interface s
      → r.name ≡ name
      → FirstInterface name (r ∷ rs) zero
  there :
      {r : Resource} {rs : List Resource} {m : ℕ}
      → (kind_of r.spec ≢ interface) ⊎ (r.name ≢ name)
      → FirstInterface name rs m
      → FirstInterface name (r ∷ rs) (suc m)

-- The resource at `n` takes a value of the interface at `m`: it is an interface with an address out of
-- the prefix delegated on that one, or a tunnel whose local address is that one's.
pub data TakesFrom (order : List Resource) (n m : ℕ) : Type 0 where
  an_address :
      {r : Resource} {s : InterfaceSpec} (i : ℕ) {a : InterfaceAddress} {d : DelegatedPrefixAddr}
      → get_elem? order n ≡ some r
      → r.spec ≡ an_interface s
      → get_elem? s.addresses i ≡ some a
      → a.from_delegated_prefix ≡ some d
      → d.interface_ref ≢ ""
      → FirstInterface d.interface_ref order m
      → TakesFrom order n m
  a_local_address :
      {r : Resource} {s : DsliteTunnelSpec} {f : LocalAddressFrom}
      → get_elem? order n ≡ some r
      → r.spec ≡ a_tunnel s
      → s.local_address_from ≡ some f
      → f.interface_ref ≢ ""
      → FirstInterface f.interface_ref order m
      → TakesFrom order n m

other_kind : (k : Kind) → k ≢ interface → same_kind k interface ≡ false
unfolding kind_text
other_kind interface h = absurd (h refl)
other_kind _ h = refl

differs : (s t : String) → s ≢ t → (s =ˢ t) ≡ false
differs s t h = elim (Bool-cases (s =ˢ t)) [ inl e ↦ absurd (h ((eq_iff s t).0 e)) | inr e ↦ e ]

later : (i m : ℕ) → (i + 1) + m ≡ i + suc m
later i m = omega arith

position_of-FirstInterface :
    (name : String) {rs : List Resource} {m : ℕ} (i : ℕ)
    → name ≢ ""
    → FirstInterface name rs m
    → position_of i name rs ≡ some (i + m)
unfolding position_of kind_of kind_text
position_of-FirstInterface name i named (here is called) =
    let same : i ≡ i + 0 = omega arith in
    rw (is, called, eq_refl name, differs name "" named) (ap some same)
position_of-FirstInterface name i named (there {r} {rs} {m} (inl k) rest) =
    rw (other_kind (kind_of r.spec) k)
      (position_of-FirstInterface name (i + 1) named rest ∙ ap some (later i m))
position_of-FirstInterface name i named (there {r} {rs} {m} (inr k) rest) =
    let tail = position_of-FirstInterface name (i + 1) named rest ∙ ap some (later i m) in
    elim (Bool-cases (same_kind (kind_of r.spec) interface)) [
      | inl e ↦ rw (e, differs r.name name k) tail
      | inr e ↦ rw e tail
    ]

All-right : (P : Edge → Type 0) (es fs : List Edge) → All P (es ++ fs) → All P fs
All-right P [] fs h = h
All-right P (e ∷ es) fs h = All-right P es fs h.1

is_inside : (rs : List Resource) (n : ℕ) (r : Resource) → get_elem? rs n ≡ some r → n < length rs
is_inside [] n r h = absurd (ground arith)
is_inside (q ∷ rs) zero r h = omega arith
is_inside (q ∷ rs) (suc n) r h = let p = is_inside rs n r h in omega arith

edges_at :
    (order : List Resource) (n : ℕ) (r : Resource) (sp : Spec)
    → get_elem? order n ≡ some r
    → r.spec ≡ sp
    → derivation_edges order n ≡ edges_in order sp
unfolding derivation_edges
edges_at order n r sp at_n is = rw (at_n, derivation_edges) (ap (edges_in order) is)

-- A bound on what the edges lead to holds for every interface that a value is taken of.
module _ (order : List Resource) (bound_of : ℕ → ℕ) (k m : ℕ) where
  abbrev IsBelow : Edge → Type 0
  IsBelow e = bound_of e.to < k

  address-IsBelow :
      (i : ℕ) (as' : List InterfaceAddress) (j : ℕ) (a : InterfaceAddress) (d : DelegatedPrefixAddr)
      → get_elem? as' j ≡ some a
      → a.from_delegated_prefix ≡ some d
      → position_of 0 d.interface_ref order ≡ some m
      → All IsBelow (address_edges order i as')
      → bound_of m < k
  unfolding address_edges
  address-IsBelow i [] j a d at_j from at_m h = absurd (ground arith)
  address-IsBelow i (b ∷ rest) zero a d at_j from at_m h =
      let e : b.from_delegated_prefix ≡ some d = cc in (rw (e, at_m) at h).0
  address-IsBelow i (b ∷ rest) (suc j) a d at_j from at_m h =
      address-IsBelow (i + 1) rest j a d at_j from at_m (All-right IsBelow _ _ h)

  pub TakesFrom-IsBelow :
      (n : ℕ) → All IsBelow (derivation_edges order n) → TakesFrom order n m → bound_of m < k
  unfolding edges_in local_edges
  TakesFrom-IsBelow n h (an_address {r} {s} i {a} {d} at_n is at_i from named first) =
      address-IsBelow 0 s.addresses i a d at_i from
        (position_of-FirstInterface d.interface_ref 0 named first ∙ ap some (omega arith))
        (subst (All IsBelow) (edges_at order n r (an_interface s) at_n is) h)
  TakesFrom-IsBelow n h (a_local_address {r} {s} {f} at_n is from named first) =
      let at_m : position_of 0 f.interface_ref order ≡ some m =
        position_of-FirstInterface f.interface_ref 0 named first ∙ ap some (omega arith) in
      let q : All IsBelow (local_edges order s.local_address_from) =
        subst (All IsBelow) (edges_at order n r (a_tunnel s) at_n is) h in
      (rw (from, at_m) at q).0

-- Who takes a value stands in the document.
pub TakesFrom-lt : {order : List Resource} {n m : ℕ} → TakesFrom order n m → n < length order
TakesFrom-lt {order} {n} (an_address {r} i at_n is at_i from named first) = is_inside order n r at_n
TakesFrom-lt {order} {n} (a_local_address {r} at_n is from named first) = is_inside order n r at_n
