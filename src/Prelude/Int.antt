-- ===== src/Prelude/Int.antt =====
-- Go's `int` where a negative value can occur, and maps keyed by it.
use Prim.Native.Nat.{ℕ, compare, Ordering}
use mathlib.Core.Path.{◌≡◌}
use mathlib.Core.Logic.{◌↔◌}
use mathlib.Core.Bool.{Bool, true, false}
use mathlib.Core.List.{List, [], ◌∷◌}
use native.Mathlib.Omega.{arith}
use regied.Prelude.Tests.{◌==◌, if◌then◌else◌}

-- `negsuc n` is -(n + 1).
pub data ℤ : Type 0 where
  pos : ℕ → ℤ
  negsuc : ℕ → ℤ

infix 50 ◌=ℤ◌
abbrev pub ◌=ℤ◌ : ℤ → ℤ → Bool
◌=ℤ◌ (pos a) (pos b) = a == b
◌=ℤ◌ (negsuc a) (negsuc b) = a == b
◌=ℤ◌ _ _ = false

pub =ℤ_iff : (a b : ℤ) → ((a =ℤ b) ≡ true) ↔ (a ≡ b)
=ℤ_iff a b = ground arith

-- cmp.Compare
abbrev pub compare_ℤ : ℤ → ℤ → Ordering
compare_ℤ (pos a) (pos b) = compare a b
compare_ℤ (negsuc a) (negsuc b) = compare b a
compare_ℤ (pos _) (negsuc _) = Ordering.gt
compare_ℤ (negsuc _) (pos _) = Ordering.lt

-- a set of integers, as Go's map[int]bool
abbrev pub mem_ℤ : ℤ → List ℤ → Bool
mem_ℤ a [] = false
mem_ℤ a (x ∷ xs) = let rest = mem_ℤ a xs in if x =ℤ a then true else rest
