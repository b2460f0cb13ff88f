-- ===== src/Apply/Staging.antt =====
-- The staging stage of internal/apply/apply.go, and what plan.go says of the content of a file.
pub mod Effects
use regied.Prelude.{
  ℕ, String, Bool, Option, none, some, List, [], ◌∷◌, ◌==◌, ◌⋅◌, if◌then◌else◌, get, path_dir,
  Result, ok, err,
}
use regied.Apply.Types.{
  unchanged, create, update, reclaim, ChangeKind, FileChange, SecretContent, Plan,
}
use regied.Apply.Host.{Host}

-- fmt.Errorf("...: %w", err) of a call that may have failed
unfoldable pub wrap : String → Option String → Option String
wrap what none = none
wrap what (some e) = some (what ⋅ ": " ⋅ e)

-- if err := call; err != nil { return fmt.Errorf("...: %w", err) }, and then the rest
unfoldable pub attempt :
    {W : Type 0} → String → Option String → W → (W → Option String × W) → Option String × W
attempt what none w next = next w
attempt what (some e) w next = (some (what ⋅ ": " ⋅ e), w)

-- contentFor, of a plan
unfoldable pub secret_content : String → Option SecretContent → Result String
secret_content path none = err ("nothing was rendered for " ⋅ path)
secret_content path (some s) = ok s.content

unfoldable pub content_for : Plan → FileChange → Result String
unfolding secret_content get
content_for plan change =
    if change.secret
    then secret_content change.path (get change.path plan.secrets)
    else ok change.content

module _ {W : Type 0} (host : Host W) where
  -- the call of WriteFile and its error
  unfoldable pub write_file : FileChange → String → W → Option String × W
  unfolding wrap
  write_file change content w =
      let (e, w') = host.write_file change.path content change.mode w in
      (wrap ("cannot write " ⋅ change.path) e, w')

  unfoldable pub make_own_dir : FileChange → String → W → Option String × W
  unfolding path_dir attempt write_file
  make_own_dir change content w =
      let dir = path_dir change.path in
      let (e, w') = host.make_dir dir (if change.dir_mode == 0 then 493 else change.dir_mode) w in
      attempt ("cannot create " ⋅ dir) e w' (write_file change content)

  -- Engine.write
  unfoldable pub write_change : FileChange → String → W → Option String × W
  unfolding path_dir attempt make_own_dir
  write_change change content w =
      let above = path_dir (path_dir change.path) in
      let (e, w') = host.make_dir above 493 w in
      attempt ("cannot create " ⋅ above) e w' (make_own_dir change content)

  unfoldable pub write_content : FileChange → Result String → W → Option String × W
  unfolding write_change
  write_content change (err e) w = (some e, w)
  write_content change (ok content) w = write_change change content w

  unfoldable pub remove_change : FileChange → W → Option String × W
  unfolding wrap
  remove_change change w =
      let (e, w') = host.remove_file change.path w in (wrap ("cannot reclaim " ⋅ change.path) e, w')

  unfoldable pub stage_kind : Plan → FileChange → ChangeKind → W → Option String × W
  unfolding write_content content_for remove_change
  stage_kind plan change unchanged w = (none, w)
  stage_kind plan change create w = write_content change (content_for plan change) w
  stage_kind plan change update w = write_content change (content_for plan change) w
  stage_kind plan change reclaim w = if change.deferred then (none, w) else remove_change change w

  -- one round of the loop
  unfoldable pub stage_file : Plan → FileChange → W → Option String × W
  unfolding stage_kind
  stage_file plan change w =
      if change.withheld then (none, w) else stage_kind plan change change.kind w

  stage_files : Plan → List FileChange → W → Option String × W
  unfolding stage_file
  stage_files plan [] w = (none, w)
  stage_files plan (f ∷ fs) w =
      let (e, w') = stage_file plan f w in
      elim e [ some failure ↦ (some failure, w') | none ↦ stage_files plan fs w' ]

  -- Engine.stage
  unfoldable pub stage : Plan → W → Option String × W
  unfolding stage_files
  stage plan w = stage_files plan plan.files w
