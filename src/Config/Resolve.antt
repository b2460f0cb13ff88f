-- ===== src/Config/Resolve.antt =====
-- internal/config/validate.go, the index, the references and the small helpers. The validator is the
-- document, its index, and what the caller says of secret files; a check gives the problems that it
-- appends.
use Prim.Native.Char.{code}
use Prim.Native.String as Text
use regied.Prelude.{
  ℕ, ◌+◌, String, Bool, true, false, not, ◌&&◌, ◌||◌, Option, none, some, List, [], ◌∷◌, ◌++◌,
  if◌then◌else◌, ◌==◌, ◌=ˢ◌, ◌⋅◌, quote, decimal,
}
use regied.Prelude.Logged.{Logged, ◌>>=◌, ◌>>◌, pure, log}
use regied.Api.Firewall.{IpAddressSetSpec}
use regied.Api.Document.{
  Kind, kind_text, kinds, kind_of, Resource, NetworkConfig, ref_text, interface, pppoe_session,
  dslite_tunnel, firewall_zone, ip_address_set,
}
use regied.Config.Model.{Entry, find_entry, as_address_set}
use regied.Config.Problem.{Problem, Severity, an_error, a_warning}

-- `files` is CheckSecretFile: the error's text, or `none`.
pub record Validator : Type 0 where
  pub document : NetworkConfig
  pub files : String → Option String
  pub index : List Entry

-- what a check gives beside its result
abbrev pub Check : Type 0 → Type 0
Check A = Logged Problem A

-- report; the document itself has neither a resource nor a line
abbrev about : Severity → Option Resource → String → String → Problem
about severity none field message = record {
  severity = severity;
  resource = "";
  field = field;
  line = 0;
  message = message;
}
about severity (some r) field message = record {
  severity = severity;
  resource = ref_text r;
  field = field;
  line = r.line;
  message = message;
}

abbrev pub document_error : String → String → Check (Unit {0})
document_error field message = log (about an_error none field message)

abbrev pub errorf : Resource → String → String → Check (Unit {0})
errorf r field message = log (about an_error (some r) field message)

abbrev pub warnf : Resource → String → String → Check (Unit {0})
warnf r field message = log (about a_warning (some r) field message)

abbrev pub skip : Check (Unit {0})
skip = pure tt

-- `if test { … }`
abbrev pub when : Bool → Check (Unit {0}) → Check (Unit {0})
when true k = k
when false k = skip

unfoldable pub required : Resource → String → Bool → Check Bool
required r field present = do when (not present) (errorf r field "required"); pure present

abbrev pub required_ : Resource → String → Bool → Check (Unit {0})
required_ r field present = do required r field present; skip

-- a loop with the position of each element
unfoldable pub each_at : {A : Type 0} → (ℕ → A → Check (Unit {0})) → ℕ → List A → Check (Unit {0})
each_at f i [] = skip
each_at f i (x ∷ xs) = do f i x; each_at f (i + 1) xs

-- "%s[%d]"
abbrev pub at : String → ℕ → String
at field i = field ⋅ "[" ⋅ decimal i ⋅ "]"

unfoldable pub exactly_one : Resource → String → String → Bool → Bool → Check Bool
exactly_one r first second has_first has_second =
    if has_first && has_second
    then (do
      errorf r "spec" ("exactly one of " ⋅ first ⋅ " and " ⋅ second ⋅ " is required; both are set")
      pure false)
    else if not has_first && not has_second
    then (do
      errorf r "spec"
          ("exactly one of " ⋅ first ⋅ " and " ⋅ second ⋅ " is required; neither is set")
      pure false)
    else pure true

unfoldable pub exclusive : Resource → String → String → String → Bool → Bool → Check (Unit {0})
exclusive r field first second has_first has_second =
    when (has_first && has_second)
      (errorf r field (first ⋅ " and " ⋅ second ⋅ " cannot both be set"))

unfoldable pub check_file : Validator → Resource → String → String → Check (Unit {0})
check_file v r field path = elim (v.files path) [
  | none ↦ skip
  | some problem ↦ errorf r field (path ⋅ ": " ⋅ problem)
]

-- the first of the kinds that has the name
unfoldable pub find_among : List Kind → String → List Entry → Option Resource
unfolding find_entry
find_among [] name index = none
find_among (k ∷ ks) name index = elim (find_entry k name index) [
  | some r ↦ some r
  | none ↦ find_among ks name index
]

names_but_last : String → List Kind → String
unfolding kind_text
names_but_last text [] = text
names_but_last text (k ∷ []) = text ⋅ " or " ⋅ kind_text k
names_but_last text (k ∷ l ∷ ks) = names_but_last (text ⋅ ", " ⋅ kind_text k) (l ∷ ks)

join_kinds : List Kind → String
unfolding names_but_last kind_text
join_kinds [] = ""
join_kinds (k ∷ ks) = names_but_last (kind_text k) ks

article : String → String
article Text.[] = "a"
article (Text.◌∷◌ c s) =
    if code c == b'A' || code c == b'E' || code c == b'I' || code c == b'O' || code c == b'U'
    then "an"
    else "a"

-- why a name does not resolve: it is another kind's, or nobody's
unresolved : Option Resource → String → List Kind → String → String
unfolding article join_kinds kind_text kind_of
unresolved (some found) name allowed category =
    quote name
    ⋅ " is "
    ⋅ article (kind_text (kind_of found.spec))
    ⋅ " "
    ⋅ kind_text (kind_of found.spec)
    ⋅ ", not "
    ⋅ category
unresolved none name allowed category = "no " ⋅ join_kinds allowed ⋅ " named " ⋅ quote name

unfoldable pub resolve :
    Validator → Resource → String → String → List Kind → String → Check (Option Resource)
unfolding find_among unresolved
resolve v r field name allowed category = elim (find_among allowed name v.index) [
  | some found ↦ pure (some found)
  | none ↦ do
    errorf r field (unresolved (find_among kinds name v.index) name allowed category)
    pure none
]

abbrev pub link_kinds : List Kind
link_kinds = interface ∷ pppoe_session ∷ dslite_tunnel ∷ []

abbrev pub uplink_kinds : List Kind
uplink_kinds = pppoe_session ∷ dslite_tunnel ∷ []

unfoldable pub resolve_interface : Validator → Resource → String → String → Check (Option Resource)
unfolding resolve
resolve_interface v r field name = resolve v r field name (interface ∷ []) "an Interface"

unfoldable pub resolve_zone : Validator → Resource → String → String → Check (Option Resource)
unfolding resolve
resolve_zone v r field name = resolve v r field name (firewall_zone ∷ []) "a FirewallZone"

unfoldable pub resolve_uplink : Validator → Resource → String → String → Check (Option Resource)
unfolding resolve
resolve_uplink v r field name = resolve v r field name uplink_kinds "an uplink"

unfoldable pub resolve_link : Validator → Resource → String → String → Check (Option Resource)
unfolding resolve
resolve_link v r field name = resolve v r field name link_kinds "a link"

other_family : Resource → String → String → String → Option IpAddressSetSpec → Check (Unit {0})
other_family r field name family none = skip
other_family r field name family (some s) =
    when (not (s.family =ˢ "") && not (s.family =ˢ family)) (
      errorf r field
        ("the IPAddressSet " ⋅ quote name ⋅ " is " ⋅ s.family ⋅ ", but the rule is " ⋅ family))

unfoldable pub resolve_address_set :
    Validator → Resource → String → String → String → Check (Unit {0})
unfolding resolve other_family as_address_set
resolve_address_set v r field name family = do
  set ← resolve v r field name (ip_address_set ∷ []) "an IPAddressSet"
  elim set [
    | none ↦ skip
    | some found ↦
        if family =ˢ "" then skip else other_family r field name family (as_address_set found.spec)
  ]

-- one round of buildIndex: the first of a name keeps it
unfoldable pub add_entry : List Entry → Resource → Logged Problem (List Entry)
unfolding kind_of find_entry kind_text
add_entry index r =
    if r.name =ˢ ""
    then (do errorf r "metadata.name" "required"; pure index)
    else elim (find_entry (kind_of r.spec) r.name index) [
      | some taken ↦ do
        errorf r "metadata.name"
            ("another " ⋅ kind_text (kind_of r.spec) ⋅ " is already named " ⋅ quote r.name)
        pure index
      | none ↦ pure (index ++ record { kind = kind_of r.spec; name = r.name; resource = r } ∷ [])
    ]

unfoldable pub build_index : List Entry → List Resource → Logged Problem (List Entry)
unfolding add_entry
build_index index [] = pure index
build_index index (r ∷ rs) = do grown ← add_entry index r; build_index grown rs
