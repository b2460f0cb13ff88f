-- ===== src/Apply/Firewall/Examples.antt =====
-- The theorems on the firewall, at an input.
use regied.Prelude.{eq_iff, refl, true, false, List, [], ◌∷◌, get}
use regied.Apply.Types.{present, SetElements, FirewallChange}
use regied.Apply.Disk.{Disk, disk}
use regied.Apply.Examples.{options}
use regied.Apply.Firewall.{texts_eq, sets_to_write, compare_firewall}
use regied.Apply.Firewall.Compared.{
  IsLeftAlone, IsReplaced, is_first, compare_firewall-IsLeftAlone, compare_firewall-IsReplaced,
}

abbrev installed : Disk
installed = record {
  files = ("/var/lib/regied/applied/ruleset.nft", ("table inet regied {}", 420)) ∷ [];
  commands = [];
}

abbrev uplinks : List SetElements
uplinks =
    record { set = "uplink_wan4"; elements = "192.0.2.1" ∷ [] }
    ∷ record { set = "uplink_wan6"; elements = [] }
    ∷ []

abbrev kept : FirewallChange
kept = record {
  rules = "table inet regied {}";
  elements = [];
  before = "table inet regied {}";
  table = present;
  note = "";
  apply = false;
}

abbrev blank : Disk
blank = record { files = []; commands = [] }

-- what a first turn makes of the firewall
abbrev first : FirewallChange
first = record kept {
  elements = record { set = "uplink_wan4"; elements = "192.0.2.1" ∷ [] } ∷ [];
  before = "";
  apply = true;
}

compare_firewall-IsLeftAlone_example : IsLeftAlone kept
unfolding compare_firewall disk sets_to_write texts_eq get
compare_firewall-IsLeftAlone_example =
    compare_firewall-IsLeftAlone disk options "table inet regied {}" uplinks (present, "")
      (("uplink_wan4", "192.0.2.1" ∷ []) ∷ ("uplink_wan6", []) ∷ [], "") installed 420 kept refl
      refl refl (refl, (refl, tt)) refl

compare_firewall-IsReplaced_example : IsReplaced uplinks first
unfolding compare_firewall disk sets_to_write texts_eq get
compare_firewall-IsReplaced_example =
    compare_firewall-IsReplaced disk options "table inet regied {}" uplinks (present, "") ([], "")
      blank first (is_first (λ h. let no = (eq_iff "table inet regied {}" "").1 h in cc)) refl
