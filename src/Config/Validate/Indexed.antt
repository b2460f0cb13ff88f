-- ===== src/Config/Validate/Indexed.antt =====
-- internal/config/validate.go, buildIndex: a reference finds the resource that it names.
use regied.Prelude.{
  ◌&&◌, Option, none, some, List, [], ◌∷◌, ◌++◌, String, if-cases, Bool-cases, Option-cases, ◌≡◌,
  refl, inl, inr, arith, All, ◌=ˢ◌, eq_refl,
}
use regied.Prelude.Logged.{Logged}
use regied.Api.Document.{Kind, Resource, NetworkConfig, kind_of, kind_text, same_kind}
use regied.Config.Model.{Config, Entry, find_entry, lookup}
use regied.Config.Problem.{Problem, has_errors}
use regied.Config.Resolve.{add_entry, build_index}
use regied.Config.Validate.{valid, validate, validator_of, config_of}
use regied.Config.Validate.Quiet.{Quiet, errors_parts}
use regied.Config.Validate.Passed.{validate-Passed}

-- What was found is found in a longer index.
find_entry-append :
    (kind : Kind) (name : String) (es fs : List Entry) (r : Resource)
    → find_entry kind name es ≡ some r
    → find_entry kind name (es ++ fs) ≡ some r
unfolding find_entry
find_entry-append kind name [] fs r h = absurd (ground arith)
find_entry-append kind name (e ∷ es) fs r h =
    elim (Bool-cases (same_kind e.kind kind && (e.name =ˢ name))) [
      | inl t ↦ rw t (rw t at h)
      | inr f ↦ rw f (find_entry-append kind name es fs r (rw f at h))
    ]

-- What was not found is the new entry, if that is the last one.
find_entry_last :
    (r : Resource) (es : List Entry)
    → find_entry (kind_of r.spec) r.name es ≡ none
    → find_entry
        (kind_of r.spec)
        r.name
        (es ++ record { kind = kind_of r.spec; name = r.name; resource = r } ∷ [])
      ≡ some r
unfolding find_entry
find_entry_last r [] h = rw (eq_refl r.name, eq_refl (kind_text (kind_of r.spec))) refl
find_entry_last r (e ∷ es) h =
    elim (Bool-cases (same_kind e.kind (kind_of r.spec) && (e.name =ˢ r.name))) [
      | inl t ↦ absurd (let no = rw t at h in ground arith)
      | inr f ↦ rw f (find_entry_last r es (rw f at h))
    ]

-- One index finds whatever another one does.
abbrev Keeps : List Entry → List Entry → Type 0
Keeps es fs =
    (kind : Kind) (name : String) (r : Resource)
    → find_entry kind name es ≡ some r
    → find_entry kind name fs ≡ some r

add_entry-Keeps : (index : List Entry) (r : Resource) → Keeps index (add_entry index r).value
unfolding add_entry
add_entry-Keeps index r =
    if-cases {A = Logged Problem (List Entry)} (λ m. Keeps index m.value) (r.name =ˢ "") _ _
      (λ t kind name s h. h)
      (λ f. elim (Option-cases (find_entry (kind_of r.spec) r.name index)) [
        | inl e ↦ rw e (λ kind name s h. find_entry-append kind name index _ s h)
        | inr (taken, e) ↦ rw e (λ kind name s h. h)
      ])

build_index-Keeps :
    (index : List Entry) (rs : List Resource) → Keeps index (build_index index rs).value
unfolding build_index
build_index-Keeps index [] kind name s h = h
build_index-Keeps index (r ∷ rs) kind name s h =
    build_index-Keeps (add_entry index r).value rs kind name s
      (add_entry-Keeps index r kind name s h)

-- The resource is found by its kind and its name.
abbrev pub IsFound : List Entry → Resource → Type 0
IsFound index r = find_entry (kind_of r.spec) r.name index ≡ some r

add_entry-IsFound :
    (index : List Entry) (r : Resource)
    → Quiet (add_entry index r)
    → IsFound (add_entry index r).value r
unfolding add_entry has_errors
add_entry-IsFound index r =
    if-cases {A = Logged Problem (List Entry)} (λ m. Quiet m → IsFound m.value r) (r.name =ˢ "") _ _
      (λ t h. absurd (ground arith))
      (λ f. elim (Option-cases (find_entry (kind_of r.spec) r.name index)) [
        | inl e ↦ rw e (λ h. find_entry_last r index e)
        | inr (taken, e) ↦ rw e (λ h. absurd (ground arith))
      ])

build_index-IsFound :
    (index : List Entry) (rs : List Resource)
    → Quiet (build_index index rs)
    → All (IsFound (build_index index rs).value) rs
unfolding build_index
build_index-IsFound index [] h = tt
build_index-IsFound index (r ∷ rs) h =
    let parts = errors_parts (add_entry index r).reports _ h in
    let grown = (add_entry index r).value in
    (
      build_index-Keeps grown rs (kind_of r.spec) r.name r (add_entry-IsFound index r parts.0),
      build_index-IsFound grown rs parts.1,
    )

-- In a validated configuration, every resource of the document is what its kind and its name find.
pub lookup_complete :
    (files : String → Option String) (d : NetworkConfig) {c : Config}
    → validate files d ≡ valid c
    → All (λ r. lookup c (kind_of r.spec) r.name ≡ some r) d.resources
unfolding lookup validator_of config_of
lookup_complete files d h =
    let (passed, is) = validate-Passed files d h in
    rw (← is) (build_index-IsFound [] d.resources passed.index)
