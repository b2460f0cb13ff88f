-- ===== src/Render/Nftables/Accepts.antt =====
-- internal/render/nftables/render.go: what Render reports of a configuration in which everything that it
-- looks up is there.
use regied.Prelude.{
  false, some, List, [], ◌∷◌, String, if-cases, Option-cases, ◌≡◌, refl, inl, inr, arith, All,
  All-append,
}
use regied.Prelude.Logged.{Logged, each}
use regied.Api.Document.{Resource, interface}
use regied.Config.Model.{Config, lookup, find_entry}
use regied.Config.Resolve.{find_among}
use regied.Config.Validate.Links.{IsKinded, find_entry-interface}
use regied.Config.Validate.Needs.{IsLink}
use regied.Render.Nftables.Matches.{is_identifier}
use regied.Render.Nftables.Names.{naming_problem, identifier, link_name, ifname_of}

-- A report that a name is none that nftables reads.
abbrev pub IsNaming : String → Type 0
IsNaming message =
    (kind : String) × (name : String) × (is_identifier name ≡ false)
    × (message ≡ naming_problem kind name)

-- What is reported is about names only.
abbrev pub NamesOnly : {A : Type 0} → Logged String A → Type 0
NamesOnly m = All IsNaming m.reports

pub identifier-NamesOnly : (prefix kind name : String) → NamesOnly (identifier prefix kind name)
unfolding identifier
identifier-NamesOnly prefix kind name =
    if-cases {A = Logged String String} NamesOnly (is_identifier name) _ _ (λ t. tt)
      (λ f. ((kind, name, f, refl), tt))

pub each-NamesOnly :
    {A B : Type 0} (Q : A → Type 0) (f : A → Logged String (List B))
    → ((x : A) → Q x → NamesOnly (f x))
    → (xs : List A) → All Q xs
    → NamesOnly (each f xs)
unfolding each
each-NamesOnly Q f h [] q = tt
each-NamesOnly Q f h (x ∷ xs) q =
    All-append IsNaming (f x).reports _ (h x q.0)
      (All-append IsNaming (each f xs).reports [] (each-NamesOnly Q f h xs q.1) tt)

module _ (c : Config) (kinded : All IsKinded c.index) where
  ifname_found :
      (ref : String) (r : Resource)
      → find_entry interface ref c.index ≡ some r
      → (name : String) × (ifname_of (lookup c interface ref) ≡ some name)
  unfolding lookup
  ifname_found ref r h =
      let s = find_entry-interface ref c.index kinded r h in
      (s.0.ifname, rw h (rw (s.1, ifname_of) refl))

  -- A link has a name.
  pub link_name-IsLink :
      (ref : String) → IsLink c.index ref → (name : String) × (link_name c ref ≡ some name)
  unfolding link_name lookup find_among
  link_name-IsLink ref h = elim (Option-cases (find_entry interface ref c.index)) [
    | inr (r, e) ↦ let n = ifname_found ref r e in (n.0, ground (arith, n.1))
    | inl e ↦ (ref, ground (arith, h.1))
  ]
