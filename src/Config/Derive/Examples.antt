-- ===== src/Config/Derive/Examples.antt =====
-- Runs of the derivation, and the theorems at an input.
use Prim.Native.Nat.{ℕ}
use text.Mathlib.TextEquality.{eq_iff}
use mathlib.Core.Bool.{false≢true}
use regied.Prelude.{
  String, ◌≡◌, ◌≢◌, refl, Bool, true, false, Option, none, some, List, [], ◌∷◌, arith, ℤ, pos,
  mem_ℤ, get, put, sort,
}
use regied.Config.Derive.{Policy, PolicyRouting, reserved_tables, owner_of, derive_policies}
use regied.Config.Derive.Distinct.{derive_policies_distinct, derive_policies_allowed}

abbrev policy : String → Option ℤ → Option ℕ → Policy
policy name table mark = record {
  name = name;
  family = "";
  priority = some (pos 100);
  table = table;
  mark = mark;
}

-- one pins the first table that would be handed out, and one asks for a table of the kernel's
abbrev policies : List Policy
policies =
    policy "video" none none
    ∷ policy "office" (some (pos 100)) none
    ∷ policy "guest" (some (pos 254)) (some 256)
    ∷ []

abbrev routed : ℤ → ℕ → Bool → Bool → PolicyRouting
routed table mark table_pinned mark_pinned = record {
  table = table;
  mark = mark;
  table_pinned = table_pinned;
  mark_pinned = mark_pinned;
}

derive_video :
    get "video" (derive_policies policies).routing ≡ some (routed (pos 102) 258 false false)
unfolding get put sort owner_of derive_policies
derive_video = refl

derive_guest :
    get "guest" (derive_policies policies).routing ≡ some (routed (pos 101) 256 false true)
unfolding get put sort owner_of derive_policies
derive_guest = refl

derive_policies_distinct_example : (pos 102 ≢ pos 101) × (◌≢◌ {A = ℕ} 258 256)
derive_policies_distinct_example =
    derive_policies_distinct policies "video" "guest" (routed (pos 102) 258 false false)
      (routed (pos 101) 256 false true) (omega arith)
      (λ p. false≢true ((eq_iff "video" "guest").1 p)) derive_video derive_guest

derive_policies_allowed_example : (mem_ℤ (pos 101) reserved_tables ≡ false) × (◌≢◌ {A = ℕ} 256 0)
derive_policies_allowed_example =
    derive_policies_allowed policies "guest" (routed (pos 101) 256 false true) (omega arith)
      derive_guest
