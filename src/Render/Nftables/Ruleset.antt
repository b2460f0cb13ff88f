-- ===== src/Render/Nftables/Ruleset.antt =====
-- internal/render/nftables/ruleset.go: the table that regied owns, and its text.
use regied.Prelude.{
  String, Option, none, some, List, [], ◌∷◌, ◌++◌, map, if◌then◌else◌, ◌=ˢ◌, ◌⋅◌, join, split_at,
}

abbrev pub table_family : String
table_family = "inet"

abbrev pub table_name : String
table_name = "regied"

-- Set
pub record NamedSet : Type 0 where
  pub name : String
  pub kind : String
  pub flags : List String
  pub elements : List String
  pub comment : String

pub record BaseChain : Type 0 where
  pub kind : String
  pub hook : String
  pub priority : String
  pub policy : String

pub record Rule : Type 0 where
  pub text : String
  pub comment : String

pub record Chain : Type 0 where
  pub name : String
  pub base : Option BaseChain
  pub rules : List Rule
  pub comment : String

pub record Ruleset : Type 0 where
  pub family : String
  pub table : String
  pub sets : List NamedSet
  pub chains : List Chain

abbrev ruleset_header : String
ruleset_header =
    "# regied's nftables ruleset. Generated on every apply; edits here do not survive one.\n"
    ⋅ "#\n"
    ⋅ "# regied owns this one table and nothing else in the ruleset, so the ruleset is never\n"
    ⋅ "# flushed and no rule anybody else installed is touched (ADR 0009). The two statements\n"
    ⋅ "# below add the table if it is not already there and then remove it, so that the one\n"
    ⋅ "# that follows goes in whether or not a previous apply left anything behind. nft runs\n"
    ⋅ "# the whole file as a single transaction, so the table is never half replaced.\n" ⋅ "#\n"
    ⋅ "# The uplink sets below are empty here on purpose. What a line is holding is runtime\n"
    ⋅ "# state, so it is never rendered: the apply seeds these sets from the kernel and pppd's\n"
    ⋅ "# hooks keep them, and the hairpin rules match on the set rather than on an address\n"
    ⋅ "# (ADR 0015).\n\n"

comment_lines : String → List String
comment_lines comment = if comment =ˢ "" then [] else split_at b'\n' comment

-- each comment line behind its indentation
comment_text : String → List String → String
comment_text indent [] = ""
comment_text indent (l ∷ ls) = indent ⋅ "# " ⋅ l ⋅ "\n" ⋅ comment_text indent ls

abbrev listed : String → String → String → List String → String
listed head sep tail [] = ""
listed head sep tail (x ∷ xs) = head ⋅ join sep (x ∷ xs) ⋅ tail

-- Set.String
set_text : NamedSet → String
unfolding comment_text comment_lines
set_text s =
    comment_text "\t" (comment_lines s.comment)
    ⋅ "\tset "
    ⋅ s.name
    ⋅ " {\n\t\ttype "
    ⋅ s.kind
    ⋅ "\n"
    ⋅ listed "\t\tflags " "," "\n" s.flags
    ⋅ listed "\t\telements = { " ", " " }\n" s.elements
    ⋅ "\t}\n"

abbrev base_text : Option BaseChain → String
base_text none = ""
base_text (some b) =
    "\t\ttype " ⋅ b.kind ⋅ " hook " ⋅ b.hook ⋅ " priority " ⋅ b.priority ⋅ "; policy " ⋅ b.policy
    ⋅ ";\n"

rule_text : Rule → String
unfolding comment_text comment_lines
rule_text r =
    comment_text "\t\t" (comment_lines r.comment)
    ⋅ (if r.text =ˢ "" then "" else "\t\t" ⋅ r.text ⋅ "\n")

rules_text : List Rule → String
unfolding rule_text
rules_text [] = ""
rules_text (r ∷ rs) = rule_text r ⋅ rules_text rs

-- Chain.String
chain_text : Chain → String
unfolding comment_text comment_lines rules_text
chain_text c =
    comment_text "\t" (comment_lines c.comment)
    ⋅ "\tchain "
    ⋅ c.name
    ⋅ " {\n"
    ⋅ base_text c.base
    ⋅ rules_text c.rules
    ⋅ "\t}\n"

-- Ruleset.String
unfoldable pub ruleset_text : Ruleset → String
unfolding set_text chain_text
ruleset_text r =
    ruleset_header
    ⋅ "table "
    ⋅ r.family
    ⋅ " "
    ⋅ r.table
    ⋅ "\ndelete table "
    ⋅ r.family
    ⋅ " "
    ⋅ r.table
    ⋅ "\n\ntable "
    ⋅ r.family
    ⋅ " "
    ⋅ r.table
    ⋅ " {\n"
    ⋅ join "\n" (map set_text r.sets ++ map chain_text r.chains)
    ⋅ "}\n"
