-- ===== src/Apply/Firewall.antt =====
-- The comparison of the firewall in internal/apply/plan.go: whether the table is replaced, and which
-- sets are written. What the two probes of the kernel answer enters as their results.
pub mod Compared
mod Examples
use regied.Prelude.{
  String, Bool, true, false, not, ◌&&◌, ◌||◌, Option, none, some, List, [], ◌∷◌, ◌=ˢ◌, ◌⋅◌,
  if◌then◌else◌, get, put, trim_space, Result, ok, err,
}
use regied.Apply.Types.{TableState, absent, SetElements, FirewallChange, join}
use regied.Apply.Services.{Options}
use regied.Apply.Host.{FileAnswer, found, missing, unreadable, Host}
use regied.Apply.Turn.{ruleset_record}

-- slices.Equal
unfoldable pub texts_eq : List String → List String → Bool
texts_eq [] [] = true
texts_eq [] (y ∷ ys) = false
texts_eq (x ∷ xs) [] = false
texts_eq (x ∷ xs) (y ∷ ys) = let rest = texts_eq xs ys in (x =ˢ y) && rest

-- one round of setsToWrite, by what the kernel holds
sort_set :
    SetElements
    → Option (List String)
    → List SetElements × List String
    → List SetElements × List String
unfolding texts_eq
sort_set want none (sets, names) = (sets, want.set ∷ names)
sort_set want (some have) (sets, names) =
    if texts_eq want.elements have then (sets, names) else (want ∷ sets, names)

-- setsToWrite: what to write, and the sets that the kernel does not have
unfoldable pub sets_to_write :
    List SetElements → List (String × List String) → List SetElements × List String
unfolding sort_set get
sets_to_write [] held = ([], [])
sets_to_write (want ∷ sets) held = sort_set want (get want.set held) (sets_to_write sets held)

-- emptySets
unfoldable pub empty_sets :
    List (String × List String) → List SetElements → List (String × List String)
unfolding put
empty_sets held [] = held
empty_sets held (s ∷ ss) = empty_sets (put s.set [] held) ss

-- what is appended to a note
abbrev more : String → String → String
more note line = trim_space (note ⋅ "\n" ⋅ line)

missing_line : List String → String
unfolding join
missing_line names =
    "the table does not hold "
    ⋅ join ", " names
    ⋅ "; the set was removed outside regied and is put back when the ruleset next changes, so it was not written"

-- the change once the sets are known
with_sets : FirewallChange → List SetElements × List String → FirewallChange
unfolding trim_space missing_line
with_sets c (sets, []) = record c { elements = sets }
with_sets c (sets, n ∷ names) = record c {
  elements = sets;
  note = more c.note (missing_line (n ∷ names));
}

-- what the probe of the sets answered: what they hold, or why that is not known
with_probe :
    FirewallChange → List SetElements → List (String × List String) × String → FirewallChange
unfolding with_sets sets_to_write trim_space
with_probe c desired (held, note) =
    if note =ˢ ""
    then with_sets c (sets_to_write desired held)
    else record c { note = more c.note note }

abbrev pub is_absent : TableState → Bool
is_absent absent = true
is_absent _ = false

-- the change with the record of what was installed, which is "" where there is none
with_record :
    String
    → List SetElements
    → TableState × String
    → List (String × List String) × String
    → String
    → FirewallChange
unfolding with_sets sets_to_write empty_sets with_probe
with_record rules desired (table, note) probed before =
    let apply = is_absent table || not (rules =ˢ before) in
    let c : FirewallChange = record {
      rules = rules;
      elements = [];
      before = before;
      table = table;
      note = note;
      apply = apply;
    } in
    if apply
    then with_sets c (sets_to_write desired (empty_sets [] desired))
    else with_probe c desired probed

after_read :
    Options
    → String
    → List SetElements
    → TableState × String
    → List (String × List String) × String
    → FileAnswer
    → Result FirewallChange
unfolding with_record
after_read opts rules desired table probed missing = ok (with_record rules desired table probed "")
after_read opts rules desired table probed (unreadable e) =
    err ("cannot read " ⋅ ruleset_record opts ⋅ ": " ⋅ e)
after_read opts rules desired table probed (found before mode) =
    ok (with_record rules desired table probed before)

-- Engine.firewall
unfoldable pub compare_firewall :
    {W : Type 0}
    → Host W
    → Options
    → String
    → List SetElements
    → TableState × String
    → List (String × List String) × String
    → W
    → Result FirewallChange
unfolding after_read
compare_firewall host opts rules desired table probed w =
    after_read opts rules desired table probed (host.read_file (ruleset_record opts) w)
