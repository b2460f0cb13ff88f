-- ===== src/Apply/Unattended/Forbidden.antt =====
-- unattendedForbidden of internal/apply/turn.go: which steps take something down.
use regied.Prelude.{
  ◌≡◌, refl, String, true, false, List, [], ◌∷◌, mem, arith, eq_iff, ◌=ˢ◌, ◌≢◌, ◌⊎◌, inl, inr,
  Bool-cases, if◌then◌else◌,
}
use regied.Apply.Types.{StepKind, Step}
use regied.Apply.Unattended.{first_is, is_remove, takes_down, is_forbidden}

-- The step takes nothing down: it removes no file, and is no systemctl call with a word that restarts
-- or disables.
abbrev pub TakesNothingDown : Step → Type 0
TakesNothingDown s =
    (s.kind ≢ StepKind.remove)
    × ((s.command.name ≢ "systemctl")
        ⊎ ((mem "restart" s.command.args ≡ false) × (mem "disable" s.command.args ≡ false)))

-- The step takes something down.
abbrev pub TakesDown : Step → Type 0
TakesDown s =
    (s.kind ≡ StepKind.remove)
    ⊎ ((s.command.name ≡ "systemctl")
        × ((mem "restart" s.command.args ≡ true) ⊎ (mem "disable" s.command.args ≡ true)))

first_is-mem : (w : String) (args : List String) → first_is w args ≡ true → mem w args ≡ true
first_is-mem w [] h = cc
first_is-mem w (a ∷ args) h = ground (arith, eq_iff a w, eq_iff w a)

takes_down-none :
    (args more : List String)
    → takes_down args more ≡ false
    → (mem "restart" more ≡ false) × (mem "disable" more ≡ false)
unfolding takes_down
takes_down-none args [] h = (refl, refl)
takes_down-none args (a ∷ more) h =
    let rest : (takes_down args more ≡ false)
        → (mem "restart" more ≡ false) × (mem "disable" more ≡ false) =
      takes_down-none args more in
    ground
      (arith, rest, eq_iff a "restart", eq_iff "restart" a, eq_iff a "disable", eq_iff "disable" a)

takes_down-some :
    (args more : List String)
    → takes_down args more ≡ true
    → (mem "restart" more ≡ true) ⊎ ((mem "disable" more ≡ true) ⊎ (mem "disable" args ≡ true))
unfolding takes_down
takes_down-some args [] h = cc
takes_down-some args (a ∷ more) h =
    let rest : (takes_down args more ≡ true)
        → (mem "restart" more ≡ true)
          ⊎ ((mem "disable" more ≡ true) ⊎ (mem "disable" args ≡ true)) =
      takes_down-some args more in
    ground (
      arith,
      rest,
      first_is-mem "disable" args,
      eq_iff a "restart",
      eq_iff "restart" a,
      eq_iff a "disable",
      eq_iff "disable" a,
    )

pub is_forbidden-false : (s : Step) → is_forbidden s ≡ false → TakesNothingDown s
unfolding is_forbidden
is_forbidden-false s h = (kind_is s.kind h, call_is h)
  where
    kind_is :
        (k : StepKind)
        → (if is_remove k
            then true
            else if s.command.name =ˢ "systemctl"
            then takes_down s.command.args s.command.args
            else false)
          ≡ false
        → k ≢ StepKind.remove
    kind_is k h e = let no = rw e at h in cc

    call_is :
        is_forbidden s ≡ false
        → (s.command.name ≢ "systemctl")
          ⊎ ((mem "restart" s.command.args ≡ false) × (mem "disable" s.command.args ≡ false))
    call_is h = elim (Bool-cases (is_remove s.kind)) [
      | inl e ↦ absurd (let no = rw e at h in cc)
      | inr e ↦ elim (Bool-cases (s.command.name =ˢ "systemctl")) [
        | inl n ↦ inr (takes_down-none s.command.args s.command.args (rw (e, n) at h))
        | inr n ↦ inl (λ m. let p = (eq_iff s.command.name "systemctl").1 m in cc)
      ]
    ]

pub is_forbidden-true : (s : Step) → is_forbidden s ≡ true → TakesDown s
unfolding is_forbidden
is_forbidden-true s h = elim (Bool-cases (is_remove s.kind)) [
  | inl e ↦ inl (is_remove-remove s.kind e)
  | inr e ↦ elim (Bool-cases (s.command.name =ˢ "systemctl")) [
    | inl n ↦ inr (
      (eq_iff s.command.name "systemctl").0 n,
      (elim (takes_down-some s.command.args s.command.args (rw (e, n) at h)) [
        | inl r ↦ inl r
        | inr (inl d) ↦ inr d
        | inr (inr d) ↦ inr d
      ]),
    )
    | inr n ↦ absurd (let no = rw (e, n) at h in cc)
  ]
]
  where
    is_remove-remove : (k : StepKind) → is_remove k ≡ true → k ≡ StepKind.remove
    is_remove-remove k h = ground arith
