-- ===== src/Apply/Firewall/Compared.antt =====
-- When the firewall is left alone, and what is written into a table that is replaced.
use mathlib.Core.Path.{subst}
use regied.Prelude.{
  ℕ, ◌≡◌, refl, sym, ◌∙◌, ap, String, true, false, not, ◌||◌, some, List, [], ◌∷◌, All, ◌=ˢ◌,
  eq_iff, if◌then◌else◌, get, put, get-put, mem, arith, Result, ok, err, ◌≢◌, Bool-cases, inl, inr,
}
use regied.Apply.Types.{TableState, absent, SetElements, FirewallChange}
use regied.Apply.Services.{Options}
use regied.Apply.Host.{FileAnswer, found, missing, unreadable, Host}
use regied.Apply.Turn.{ruleset_record}
use regied.Apply.Firewall.{
  texts_eq, sort_set, sets_to_write, empty_sets, with_sets, with_probe, is_absent, with_record,
  after_read, compare_firewall,
}

texts_eq-same : (xs : List String) → texts_eq xs xs ≡ true
unfolding texts_eq
texts_eq-same [] = refl
texts_eq-same (x ∷ xs) = ground (arith, eq_iff x x, texts_eq-same xs)

-- Every set holds in the kernel what it should.
abbrev pub AreHeld : List (String × List String) → List SetElements → Type 0
AreHeld held = All (λ s. get s.set held ≡ some s.elements)

sets_to_write-held :
    (held : List (String × List String)) (sets : List SetElements)
    → AreHeld held sets
    → sets_to_write sets held ≡ ([], [])
unfolding sets_to_write sort_set
sets_to_write-held held [] h = refl
sets_to_write-held held (s ∷ sets) h =
    rw (h.0, sets_to_write-held held sets h.1, texts_eq-same s.elements) refl

abbrev OnOk : (FirewallChange → Type 0) → Result FirewallChange → Type 0
OnOk P (ok c) = P c
OnOk P (err e) = Unit

-- The firewall is neither replaced nor written.
pub record IsLeftAlone (c : FirewallChange) : Type 0 where
  pub kept : c.apply ≡ false
  pub unwritten : c.elements ≡ []

with_record-IsLeftAlone :
    (rules : String) (desired : List SetElements) (table : TableState × String)
    (probed : List (String × List String) × String)
    → is_absent table.0 ≡ false
    → probed.1 ≡ ""
    → AreHeld probed.0 desired
    → IsLeftAlone (with_record rules desired table probed rules)
unfolding with_record with_probe with_sets
with_record-IsLeftAlone rules desired table probed there asked h =
    rw
      (
        there,
        (eq_iff rules rules).1 refl,
        (eq_iff probed.1 "").1 asked,
        sets_to_write-held probed.0 desired h,
      )
      (record { kept = refl; unwritten = refl })

-- the sets with something to hold
abbrev pub non_empty : List SetElements → List SetElements
non_empty [] = []
non_empty (s ∷ sets) = let rest = non_empty sets in elim s.elements [ [] ↦ rest | _ ∷ _ ↦ s ∷ rest ]

abbrev names : List SetElements → List String
names [] = []
names (s ∷ sets) = s.set ∷ names sets

get-empty_sets :
    (k : String) (held : List (String × List String)) (sets : List SetElements)
    → get k (empty_sets held sets) ≡ (if mem k (names sets) then some [] else get k held)
unfolding empty_sets
get-empty_sets k held [] = refl
get-empty_sets k held (s ∷ sets) =
    ground (arith, get-empty_sets k (put s.set [] held) sets, get-put s.set k [] held)

AllEmpty : List (String × List String) → List SetElements → Type 0
AllEmpty held = All (λ s. get s.set held ≡ some [])

mem_later : (k j : String) (ks : List String) → mem k ks ≡ true → mem k (j ∷ ks) ≡ true
mem_later k j ks h = ground arith

empty_sets-AllEmpty :
    (all sets : List SetElements)
    → ((k : String) → mem k (names sets) ≡ true → mem k (names all) ≡ true)
    → AllEmpty (empty_sets [] all) sets
unfolding AllEmpty
empty_sets-AllEmpty all [] h = tt
empty_sets-AllEmpty all (s ∷ sets) h = (
  get-empty_sets s.set [] all ∙ rw (h s.set (ground (arith, eq_iff s.set s.set))) refl,
  empty_sets-AllEmpty all sets (λ k m. h k (mem_later k s.set (names sets) m)),
)

sort_set-empty :
    (s : SetElements) (sets : List SetElements)
    → sort_set s (some []) (non_empty sets, []) ≡ (non_empty (s ∷ sets), [])
unfolding sort_set texts_eq
sort_set-empty s sets = by_elements s.elements refl
  where
    by_elements :
        (xs : List String)
        → s.elements ≡ xs
        → sort_set s (some []) (non_empty sets, []) ≡ (non_empty (s ∷ sets), [])
    by_elements [] e = rw e refl
    by_elements (x ∷ xs) e =
        rw e (ap (λ es. (record { set = s.set; elements = es } ∷ non_empty sets, [])) (sym e))

sets_to_write-empty :
    (held : List (String × List String)) (sets : List SetElements)
    → AllEmpty held sets
    → sets_to_write sets held ≡ (non_empty sets, [])
unfolding sets_to_write AllEmpty
sets_to_write-empty held [] h = refl
sets_to_write-empty held (s ∷ sets) h =
    rw (h.0, sets_to_write-empty held sets h.1) (sort_set-empty s sets)

-- The table is replaced, and every set with something to hold is written.
pub record IsReplaced (desired : List SetElements) (c : FirewallChange) : Type 0 where
  pub replaced : c.apply ≡ true
  pub written : c.elements ≡ non_empty desired

with_record-IsReplaced :
    (rules : String) (desired : List SetElements) (table : TableState × String)
    (probed : List (String × List String) × String) (before : String)
    → (is_absent table.0 || not (rules =ˢ before)) ≡ true
    → IsReplaced desired (with_record rules desired table probed before)
unfolding with_record with_sets
with_record-IsReplaced rules desired table probed before h =
    rw
      (
        h,
        sets_to_write-empty (empty_sets [] desired) desired
            (empty_sets-AllEmpty desired desired (λ k m. m)),
      )
      (record { replaced = refl; written = refl })

-- What calls for the ruleset to be installed: the kernel says that the table is absent, nothing was
-- recorded as installed, or another ruleset was.
pub data CallsFor (rules : String) (table : TableState) : FileAnswer → Type 0 where
  is_gone : {a : FileAnswer} → table ≡ absent → CallsFor rules table a
  is_first : rules ≢ "" → CallsFor rules table missing
  is_changed :
      {before : String} {mode : ℕ} → rules ≢ before → CallsFor rules table (found before mode)

differs :
    (t : TableState) (s before : String) → s ≢ before → (is_absent t || not (s =ˢ before)) ≡ true
differs t s before other = elim (Bool-cases (s =ˢ before)) [
  | inl e ↦ absurd (other ((eq_iff s before).0 e))
  | inr e ↦ ground arith
]

after_read-IsReplaced :
    (opts : Options) (rules : String) (desired : List SetElements) (table : TableState × String)
    (probed : List (String × List String) × String) (a : FileAnswer)
    → CallsFor rules table.0 a
    → OnOk (IsReplaced desired) (after_read opts rules desired table probed a)
unfolding after_read
after_read-IsReplaced opts rules desired table probed (unreadable e) h = tt
after_read-IsReplaced opts rules desired table probed missing (is_gone e) =
    with_record-IsReplaced rules desired table probed "" (rw e refl)
after_read-IsReplaced opts rules desired table probed missing (is_first n) =
    with_record-IsReplaced rules desired table probed "" (differs table.0 rules "" n)
after_read-IsReplaced opts rules desired table probed (found before mode) (is_gone e) =
    with_record-IsReplaced rules desired table probed before (rw e refl)
after_read-IsReplaced opts rules desired table probed (found before mode) (is_changed n) =
    with_record-IsReplaced rules desired table probed before (differs table.0 rules before n)

module _ {W : Type 0} (host : Host W) (opts : Options) (rules : String) (desired : List SetElements)
    (table : TableState × String) (probed : List (String × List String) × String) (w : W) where
  read_record :
      (P : FirewallChange → Type 0) (before : String) (mode : ℕ) (c : FirewallChange)
      → host.read_file (ruleset_record opts) w ≡ found before mode
      → P (with_record rules desired table probed before)
      → compare_firewall host opts rules desired table probed w ≡ ok c
      → P c
  unfolding compare_firewall after_read
  read_record P before mode c r h e =
      subst (OnOk P) (sym (ap (λ a. after_read opts rules desired table probed a) r) ∙ e) h

  -- A firewall is left alone if the ruleset is the recorded one, the kernel has the table or could
  -- not be asked for it, and holds in every set what it should: it is not replaced, and no set is
  -- written.
  pub compare_firewall-IsLeftAlone :
      (mode : ℕ) (c : FirewallChange)
      → host.read_file (ruleset_record opts) w ≡ found rules mode
      → is_absent table.0 ≡ false
      → probed.1 ≡ ""
      → AreHeld probed.0 desired
      → compare_firewall host opts rules desired table probed w ≡ ok c
      → IsLeftAlone c
  compare_firewall-IsLeftAlone mode c r there asked h e =
      read_record IsLeftAlone rules mode c r
        (with_record-IsLeftAlone rules desired table probed there asked h) e

  -- A firewall is replaced if the kernel says that the table is absent, if no ruleset is recorded and
  -- the declared one is not empty, or if another one is recorded; then every set with something to
  -- hold is written with it, and no other, whatever the probe of the sets would say.
  pub compare_firewall-IsReplaced :
      (c : FirewallChange)
      → CallsFor rules table.0 (host.read_file (ruleset_record opts) w)
      → compare_firewall host opts rules desired table probed w ≡ ok c
      → IsReplaced desired c
  unfolding compare_firewall
  compare_firewall-IsReplaced c h e =
      subst (OnOk (IsReplaced desired)) e
        (after_read-IsReplaced opts rules desired table probed _ h)
