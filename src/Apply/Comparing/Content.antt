-- ===== src/Apply/Comparing/Content.antt =====
-- The change that is made for a rendered file carries its content, hidden or not.
use regied.Prelude.{
  ◌≡◌, refl, false, not, ◌||◌, List, [], ◌∷◌, ◌=ˢ◌, eq_iff, get-put, Bool-cases, inl, inr, if-cases,
  path_dir, ok,
}
use regied.Apply.Types.{FileChange, Plan}
use regied.Apply.Services.{Options}
use regied.Apply.Staging.{secret_content, content_for}
use regied.Apply.Comparing.{
  Artifact, OwnedDir, policy_in, owned_dirs, bare, apply_policy, wanted, hide,
}

-- The change is for the artifact, with its content.
pub record IsFor (item : Artifact) (c : FileChange) : Type 0 where
  pub path : c.path ≡ item.path
  pub mode : c.mode ≡ item.mode
  pub content : c.content ≡ item.content
  pub withheld : c.withheld ≡ item.withheld

policy_in-IsFor :
    (item : Artifact) (ds : List OwnedDir) (c : FileChange)
    → IsFor item c
    → IsFor item (policy_in ds c)
unfolding policy_in
policy_in-IsFor item [] c f = f
policy_in-IsFor item (d ∷ ds) c f =
    if-cases (IsFor item) (path_dir c.path =ˢ d.path) _ (policy_in ds c)
      (λ here. record { path = f.path; mode = f.mode; content = f.content; withheld = f.withheld })
      (λ other. policy_in-IsFor item ds c f)

pub wanted-IsFor : (opts : Options) (item : Artifact) → IsFor item (wanted opts item)
unfolding wanted apply_policy
wanted-IsFor opts item =
    policy_in-IsFor item (owned_dirs opts) (bare item)
      (record { path = refl; mode = refl; content = refl; withheld = refl })

-- What is written for a change whose content may be in the plan's own store is the content.
pub content_for-hide :
    (c : FileChange) (plan : Plan)
    → c.withheld ≡ false
    → content_for (hide c plan).1 (hide c plan).0 ≡ ok c.content
unfolding content_for hide secret_content
content_for-hide c plan h = elim (Bool-cases c.secret) [
  | inl s ↦ rw (s, h, get-put, (eq_iff c.path c.path).1 refl) refl
  | inr s ↦ rw s refl
]

-- What the host is asked to do with a change does not depend on whether its content is hidden.
pub hide-same :
    (c : FileChange) (plan : Plan)
    → let h = (hide c plan).0 in
      (h.path ≡ c.path) × (h.mode ≡ c.mode) × (h.kind ≡ c.kind) × (h.withheld ≡ c.withheld)
unfolding hide
hide-same c plan =
    if-cases
      (λ (r : FileChange × Plan).
        (r.0.path ≡ c.path)
        × (r.0.mode ≡ c.mode)
        × (r.0.kind ≡ c.kind)
        × (r.0.withheld ≡ c.withheld))
      (not c.secret || c.withheld) (c, plan) _ (λ shown. (refl, refl, refl, refl))
      (λ hidden. (refl, refl, refl, refl))
