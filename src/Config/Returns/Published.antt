-- ===== src/Config/Returns/Published.antt =====
-- Which uplinks get a return routing.
use regied.Prelude.{
  ◌=ˢ◌, ◌≡◌, ◌≢◌, ◌↔◌, String, sym, eq_refl, refl, ◌∙◌, ap, Bool, true, false, ◌||◌, Option, none,
  some, List, [], ◌∷◌, ◌++◌, map, arith, if◌then◌else◌, sort, insert_sorted, Bool-cases, inl, inr,
  eq_iff,
}
use regied.Config.Derive.{Allocator, next, not_reserved, any_number, Policy}
use regied.Config.Returns.{
  Address, invalid, v4, v6, of_target, of_address, Forward, ReturnKey, ForwardReturn, asked_key,
  same_key, has_key, add_key, keys_of, compare_keys, hand_out, derive_forward_returns,
  derive_routing,
}

-- whether a forward asks for the key
abbrev pub asks : ReturnKey → Option ReturnKey → Bool
asks k none = false
asks k (some j) = same_key j k

abbrev pub asked_by : ReturnKey → List Forward → Bool
asked_by k [] = false
asked_by k (f ∷ fs) = let rest = asked_by k fs in asks k (asked_key f) || rest

abbrev pub key_of : ForwardReturn → ReturnKey
key_of x = record { uplink = x.uplink; family = x.family }

has_key-append :
    (k j : ReturnKey) (js : List ReturnKey)
    → has_key k (js ++ j ∷ []) ≡ (has_key k js || same_key j k)
unfolding has_key
has_key-append k j [] = ground arith
has_key-append k j (i ∷ js) = ground (arith, has_key-append k j js)

same_key_trans :
    (j k i : ReturnKey) → same_key i j ≡ true → same_key j k ≡ true → same_key i k ≡ true
unfolding same_key
same_key_trans j k i p q = ground (
  arith,
  eq_iff i.uplink j.uplink,
  eq_iff j.uplink k.uplink,
  eq_iff i.uplink k.uplink,
  eq_iff i.family j.family,
  eq_iff j.family k.family,
  eq_iff i.family k.family,
)

has_key-same :
    (j k : ReturnKey) (js : List ReturnKey)
    → has_key j js ≡ true
    → same_key j k ≡ true
    → has_key k js ≡ true
unfolding has_key
has_key-same j k [] h s = cc
has_key-same j k (i ∷ js) h s = ground (arith, same_key_trans j k i, has_key-same j k js)

has_key-add_key :
    (k : ReturnKey) (o : Option ReturnKey) (keys : List ReturnKey)
    → has_key k (add_key o keys) ≡ (has_key k keys || asks k o)
unfolding add_key
has_key-add_key k none keys = ground arith
has_key-add_key k (some j) keys = elim (Bool-cases (has_key j keys)) [
  | inl old ↦ rw old (ground (arith, has_key-same j k keys, old))
  | inr new ↦ rw new (has_key-append k j keys)
]

has_key-keys_of :
    (k : ReturnKey) (keys : List ReturnKey) (fs : List Forward)
    → has_key k (keys_of keys fs) ≡ (has_key k keys || asked_by k fs)
unfolding keys_of
has_key-keys_of k keys [] = ground arith
has_key-keys_of k keys (f ∷ fs) =
    ground (
      arith,
      has_key-keys_of k (add_key (asked_key f) keys) fs,
      has_key-add_key k (asked_key f) keys,
    )

has_key-insert_sorted :
    (k j : ReturnKey) (js : List ReturnKey)
    → has_key k (insert_sorted compare_keys j js) ≡ has_key k (j ∷ js)
unfolding insert_sorted has_key
has_key-insert_sorted k j [] = refl
has_key-insert_sorted k j (i ∷ js) = ground (arith, has_key-insert_sorted k j js)

has_key-sort :
    (k : ReturnKey) (js : List ReturnKey) → has_key k (sort compare_keys js) ≡ has_key k js
unfolding sort has_key
has_key-sort k [] = refl
has_key-sort k (j ∷ js) =
    ground (arith, has_key-insert_sorted k j (sort compare_keys js), has_key-sort k js)

has_key-hand_out :
    (k : ReturnKey) (js : List ReturnKey) (tables marks : Allocator)
    → has_key k (map key_of (hand_out js tables marks)) ≡ has_key k js
unfolding hand_out has_key
has_key-hand_out k [] tables marks = refl
has_key-hand_out k (j ∷ js) tables marks =
    ap (λ rest. if same_key j k then true else rest)
      (has_key-hand_out k js (next not_reserved tables).1 (next any_number marks).1)

has_key-routing :
    (policies : List Policy) (forwards : List Forward) (k : ReturnKey)
    → has_key k (map key_of (derive_routing policies forwards).1) ≡ asked_by k forwards
unfolding derive_routing derive_forward_returns
has_key-routing policies forwards k =
    has_key-hand_out k _ _ _ ∙ (has_key-sort k _ ∙ has_key-keys_of k [] forwards)

-- A forward is published on the uplink and has a target of the family.
pub data Publishes (uplink family : String) : List Forward → Type 0 where
  to_v4 :
      {f : Forward} {fs : List Forward}
      → f.egress_ref ≢ ""
      → f.egress_ref ≡ uplink
      → f.target ≡ some v4
      → family ≡ "ipv4"
      → Publishes uplink family (f ∷ fs)
  to_v6 :
      {f : Forward} {fs : List Forward}
      → f.egress_ref ≢ ""
      → f.egress_ref ≡ uplink
      → f.target ≡ some v6
      → family ≡ "ipv6"
      → Publishes uplink family (f ∷ fs)
  another :
      {f : Forward} {fs : List Forward}
      → Publishes uplink family fs
      → Publishes uplink family (f ∷ fs)

of_target-same_key :
    (k : ReturnKey) (f : Forward) (fs : List Forward) (t : Option Address)
    → f.egress_ref ≢ ""
    → f.target ≡ t
    → asks k (of_target f.egress_ref t) ≡ true
    → Publishes k.uplink k.family (f ∷ fs)
unfolding of_target of_address same_key
of_target-same_key k f fs none named e h = absurd (ground arith)
of_target-same_key k f fs (some invalid) named e h = absurd (ground arith)
of_target-same_key k f fs (some v4) named e h =
    to_v4 named (ground (arith, eq_iff f.egress_ref k.uplink)) e
      (sym (ground (arith, eq_iff "ipv4" k.family)))
of_target-same_key k f fs (some v6) named e h =
    to_v6 named (ground (arith, eq_iff f.egress_ref k.uplink)) e
      (sym (ground (arith, eq_iff "ipv6" k.family)))

asks-Publishes :
    (k : ReturnKey) (f : Forward) (fs : List Forward)
    → asks k (asked_key f) ≡ true
    → Publishes k.uplink k.family (f ∷ fs)
unfolding asked_key
asks-Publishes k f fs h = elim (Bool-cases (f.egress_ref =ˢ "")) [
  | inl e ↦ absurd (let no = rw e at h in cc)
  | inr e ↦
      of_target-same_key k f fs f.target (λ q. let p = (eq_iff f.egress_ref "").1 q in cc) refl
        (rw e at h)
]

asked_by-Publishes :
    (k : ReturnKey) (fs : List Forward) → asked_by k fs ≡ true → Publishes k.uplink k.family fs
asked_by-Publishes k [] h = absurd (ground arith)
asked_by-Publishes k (f ∷ fs) h = elim (Bool-cases (asks k (asked_key f))) [
  | inl e ↦ asks-Publishes k f fs e
  | inr e ↦ another (asked_by-Publishes k fs (rw e at h))
]

named_is : (s : String) → s ≢ "" → (s =ˢ "") ≡ false
named_is s named = elim (Bool-cases (s =ˢ "")) [
  | inl e ↦ absurd (named ((eq_iff s "").0 e))
  | inr e ↦ e
]

Publishes-asked_by :
    (k : ReturnKey) (fs : List Forward) → Publishes k.uplink k.family fs → asked_by k fs ≡ true
unfolding asked_key of_target of_address same_key
Publishes-asked_by k [] h = elim h [ ]
Publishes-asked_by k (f ∷ fs) (to_v4 named u t v) =
    rw (named_is f.egress_ref named, t, u, v, eq_refl k.uplink) refl
Publishes-asked_by k (f ∷ fs) (to_v6 named u t v) =
    rw (named_is f.egress_ref named, t, u, v, eq_refl k.uplink) refl
Publishes-asked_by k (f ∷ fs) (another h) = ground (arith, Publishes-asked_by k fs h)

-- An uplink gets a return routing for a family exactly if a forward is published on the uplink, which
-- has a name, and its target is a valid address of that family.
pub has_key-derive_routing :
    (policies : List Policy) (forwards : List Forward) (k : ReturnKey)
    → (has_key k (map key_of (derive_routing policies forwards).1) ≡ true)
      ↔ Publishes k.uplink k.family forwards
has_key-derive_routing policies forwards k =
    let e = has_key-routing policies forwards k in
    (λ h. asked_by-Publishes k forwards (sym e ∙ h), λ h. e ∙ Publishes-asked_by k forwards h)
