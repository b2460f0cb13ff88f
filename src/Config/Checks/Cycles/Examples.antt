-- ===== src/Config/Checks/Cycles/Examples.antt =====
-- The search for cycles at the worked example: its lan takes an address from the delegation of its wan,
-- and its tunnel one of an interface.
use regied.Prelude.{ℕ, ◌<◌, false, [], inr, eq_iff, ◌≡◌, refl}
use regied.Config.Checks.Cycles.{check_derivation_cycles}
use regied.Config.Checks.Cycles.Ends.{check_derivation_cycles_ends}
use regied.Config.Checks.Cycles.Sources.{TakesFrom, a_local_address, here, there}
use regied.Config.Checks.Cycles.Ranks.{derivations_acyclic}
use regied.Samples.Router.{router}

router_quiet : (check_derivation_cycles router.resources).reports ≡ []
unfolding check_derivation_cycles
router_quiet = refl

check_derivation_cycles_ends_example :
    (check_derivation_cycles router.resources).value.starved ≡ false
check_derivation_cycles_ends_example = check_derivation_cycles_ends router.resources

-- The tunnel takes its local address of lan, and lan an address out of what is delegated on wan.
tunnel-TakesFrom : TakesFrom router.resources 3 1
tunnel-TakesFrom =
    a_local_address refl refl refl (λ e. let no = (eq_iff "lan" "").1 e in cc)
      (there (inr (λ e. let no = (eq_iff "wan" "lan").1 e in cc)) (here refl refl))

derivations_acyclic_example :
    (rank_of : ℕ → ℕ) × ((n m : ℕ) → TakesFrom router.resources n m → rank_of m < rank_of n)
derivations_acyclic_example = derivations_acyclic router.resources router_quiet
