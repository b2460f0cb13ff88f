-- ===== src/Config/Returns/Examples.antt =====
-- Runs of the return routing, and the theorems at an input.
use regied.Prelude.{
  ◌≡◌, ◌↔◌, refl, true, false, none, some, List, [], ◌∷◌, arith, All, pos, map, get, put, sort,
}
use regied.Config.Derive.{Policy, derive_policies, owner_of}
use regied.Config.Returns.{Forward, v4, v6, invalid, has_key, derive_routing}
use regied.Config.Returns.Apart.{AreApart, IsOther, returns_apart, returns-IsOther}
use regied.Config.Returns.Published.{key_of, Publishes, has_key-derive_routing}

abbrev policies : List Policy
policies =
    record {
      name = "video";
      family = "";
      priority = some (pos 10);
      table = some (pos 100);
      mark = none;
    }
    ∷ []

abbrev forwards : List Forward
forwards =
    record { egress_ref = "wan"; target = some v6 }
    ∷ record { egress_ref = "wan"; target = some v4 }
    ∷ record { egress_ref = "wan"; target = some v4 }
    ∷ record { egress_ref = ""; target = some v4 }
    ∷ record { egress_ref = "lte"; target = some invalid }
    ∷ []

returns_run :
    (derive_routing policies forwards).1
    ≡ record { uplink = "wan"; family = "ipv4"; table = 101; mark = 257 }
      ∷ record { uplink = "wan"; family = "ipv6"; table = 102; mark = 258 }
      ∷ []
unfolding derive_routing sort owner_of get put
returns_run = refl

returns_apart_example : AreApart (derive_routing policies forwards).1
returns_apart_example = returns_apart policies forwards (omega arith) (omega arith)

returns-IsOther_example :
    All
      (IsOther (record { table = pos 100; mark = 256; table_pinned = true; mark_pinned = false }))
      (derive_routing policies forwards).1
unfolding derive_routing derive_policies get put sort owner_of
returns-IsOther_example =
    returns-IsOther policies forwards "video"
      (record { table = pos 100; mark = 256; table_pinned = true; mark_pinned = false })
      (omega arith) (omega arith) refl

has_key-derive_routing_example :
    (has_key
        (record { uplink = "wan"; family = "ipv6" })
        (map key_of (derive_routing policies forwards).1)
      ≡ true)
    ↔ Publishes "wan" "ipv6" forwards
has_key-derive_routing_example =
    has_key-derive_routing policies forwards (record { uplink = "wan"; family = "ipv6" })
