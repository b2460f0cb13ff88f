-- ===== src/Config/Validate/Routed.antt =====
-- internal/config/derive.go and validate.go: every policy gets a routing, and every uplink with a return
-- routing is one that a forward names.
use regied.Prelude.{
  true, Option, none, some, List, [], ◌∷◌, ◌++◌, String, if-cases, ◌≡◌, refl, ◌∙◌, ap, All,
  All-append, All-map, All-sort, ◌=ˢ◌, get, put, get-put, sort, is_some, eq_refl,
}
use regied.Config.Derive.{
  Allocator, next, not_reserved, any_number, Policy, PolicyRouting, PinState, AllocState, pin,
  pin_all, pin_start, pin_table, pin_mark, allocate, allocate_all, derive_policies,
  compare_policies, zero_routing,
}
use regied.Config.Derive.PinCases.{pin_table_frame, pin_mark_frame}
use regied.Config.Returns.{
  Forward, ReturnKey, Address, invalid, v4, v6, asked_key, of_target, of_address, has_key, add_key,
  keys_of, compare_keys, hand_out, derive_forward_returns, derive_routing,
}

-- A policy of this name has a routing.
abbrev pub IsRouted : List (String × PolicyRouting) → String → Type 0
IsRouted m name = is_some (get name m) ≡ true

put-IsRouted :
    (k name : String) (d : PolicyRouting) (m : List (String × PolicyRouting))
    → IsRouted m name
    → IsRouted (put k d m) name
put-IsRouted k name d m h =
    rw (get-put k name d m)
      (if-cases (λ o. is_some o ≡ true) (k =ˢ name) (some d) (get name m) (λ t. refl) (λ f. h))

put-IsRouted_self :
    (name : String) (d : PolicyRouting) (m : List (String × PolicyRouting))
    → IsRouted (put name d m) name
put-IsRouted_self name d m = rw (get-put name name d m, eq_refl name) refl

pin-routing :
    (s : PinState) (p : Policy) → (d : PolicyRouting) × ((pin s p).routing ≡ put p.name d s.routing)
unfolding pin
pin-routing s p =
    let r1 = pin_table p.name p.table s zero_routing in
    let r2 = pin_mark p.name p.mark r1.0 r1.1 in
    let same1 = (pin_table_frame p.name p.table s zero_routing).0.routing in
    let same2 = (pin_mark_frame p.name p.mark r1.0 r1.1).0.routing in
    (r2.1, ap (put p.name r2.1) (same2 ∙ same1))

pin-IsRouted :
    (s : PinState) (p : Policy) (name : String)
    → IsRouted s.routing name
    → IsRouted (pin s p).routing name
pin-IsRouted s p name h =
    let q = pin-routing s p in rw (q.1) (put-IsRouted p.name name q.0 s.routing h)

pin_all-kept :
    (s : PinState) (ps : List Policy) (name : String)
    → IsRouted s.routing name
    → IsRouted (pin_all s ps).routing name
unfolding pin_all
pin_all-kept s [] name h = h
pin_all-kept s (p ∷ ps) name h = pin_all-kept (pin s p) ps name (pin-IsRouted s p name h)

pin_all-IsRouted :
    (s : PinState) (ps : List Policy) → All (λ p. IsRouted (pin_all s ps).routing p.name) ps
unfolding pin_all
pin_all-IsRouted s [] = tt
pin_all-IsRouted s (p ∷ ps) =
    let q = pin-routing s p in
    (
      pin_all-kept (pin s p) ps p.name (rw (q.1) (put-IsRouted_self p.name q.0 s.routing)),
      pin_all-IsRouted (pin s p) ps,
    )

allocate_all-kept :
    (s : AllocState) (ps : List Policy) (name : String)
    → IsRouted s.routing name
    → IsRouted (allocate_all s ps).routing name
unfolding allocate_all allocate
allocate_all-kept s [] name h = h
allocate_all-kept s (p ∷ ps) name h =
    allocate_all-kept (allocate s p) ps name (put-IsRouted p.name name _ s.routing h)

-- Every policy of the declaration has a routing.
pub derive_routing-IsRouted :
    (ps : List Policy) (fs : List Forward) → All (λ p. IsRouted (derive_routing ps fs).0 p.name) ps
unfolding derive_routing derive_policies
derive_routing-IsRouted ps fs =
    let s = pin_all pin_start ps in
    let start : AllocState = record { routing = s.routing; tables = s.tables; marks = s.marks } in
    All-map (λ p h. allocate_all-kept start (sort compare_policies s.unpinned) p.name h) ps
      (pin_all-IsRouted pin_start ps)

module _ (Q : String → Type 0) where
  -- What a forward asks for is an uplink with the property.
  abbrev pub AsksOf : Option ReturnKey → Type 0
  AsksOf none = Unit {0}
  AsksOf (some k) = Q k.uplink

  abbrev KeysOf : List ReturnKey → Type 0
  KeysOf ks = All (λ k. Q k.uplink) ks

  add_key-KeysOf :
      (o : Option ReturnKey) (ks : List ReturnKey) → AsksOf o → KeysOf ks → KeysOf (add_key o ks)
  unfolding add_key
  add_key-KeysOf none ks q h = h
  add_key-KeysOf (some k) ks q h =
      if-cases KeysOf (has_key k ks) ks (ks ++ k ∷ []) (λ t. h)
        (λ f. All-append (λ k'. Q k'.uplink) ks (k ∷ []) h (q, tt))

  keys_of-KeysOf :
      (ks : List ReturnKey) (fs : List Forward)
      → All (λ f. AsksOf (asked_key f)) fs
      → KeysOf ks
      → KeysOf (keys_of ks fs)
  unfolding keys_of
  keys_of-KeysOf ks [] q h = h
  keys_of-KeysOf ks (f ∷ fs) q h =
      keys_of-KeysOf (add_key (asked_key f) ks) fs q.1 (add_key-KeysOf (asked_key f) ks q.0 h)

  hand_out-uplinks :
      (ks : List ReturnKey) (tables marks : Allocator)
      → KeysOf ks
      → All (λ r. Q r.uplink) (hand_out ks tables marks)
  unfolding hand_out
  hand_out-uplinks [] tables marks h = tt
  hand_out-uplinks (k ∷ ks) tables marks h =
      (h.0, hand_out-uplinks ks (next not_reserved tables).1 (next any_number marks).1 h.1)

  -- A property of all uplinks that forwards ask for is one of all with a return routing.
  pub derive_routing-uplinks :
      (ps : List Policy) (fs : List Forward)
      → All (λ f. AsksOf (asked_key f)) fs
      → All (λ r. Q r.uplink) (derive_routing ps fs).1
  unfolding derive_routing derive_forward_returns
  derive_routing-uplinks ps fs q = hand_out-uplinks _ _ _ (
      All-sort (λ (k : ReturnKey). Q k.uplink) compare_keys (keys_of [] fs)
        (keys_of-KeysOf [] fs q tt))

  target_asks : (uplink : String) (o : Option Address) → Q uplink → AsksOf (of_target uplink o)
  unfolding of_target of_address
  target_asks uplink none q = tt
  target_asks uplink (some invalid) q = tt
  target_asks uplink (some v4) q = q
  target_asks uplink (some v6) q = q

  -- A forward asks for its own uplink.
  pub asked_key-AsksOf : (f : Forward) → Q f.egress_ref → AsksOf (asked_key f)
  unfolding asked_key
  asked_key-AsksOf f q =
      if-cases AsksOf (f.egress_ref =ˢ "") none (of_target f.egress_ref f.target) (λ t. tt)
        (λ n. target_asks f.egress_ref f.target q)
