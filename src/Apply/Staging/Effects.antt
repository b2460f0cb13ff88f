-- ===== src/Apply/Staging/Effects.antt =====
-- Staging makes no call but those on files.
use regied.Prelude.{
  String, Option, none, some, List, [], ◌∷◌, true, false, Bool, if◌then◌else◌, Result, ok, err, ◌≡◌,
  refl,
}
use regied.Apply.Types.{unchanged, create, update, reclaim, ChangeKind, FileChange, Plan}
use regied.Apply.Host.{Host, KeptByFiles}
use regied.Apply.Staging.{
  wrap, attempt, write_file, make_own_dir, write_change, write_content, remove_change, stage_kind,
  stage_file, stage_files, stage,
}

pub wrap-none : (what : String) (e : Option String) → wrap what e ≡ none → e ≡ none
unfolding wrap
wrap-none what none h = refl
wrap-none what (some e) h = cc

module _ {W : Type 0} (host : Host W) (P : W → Type 0) (keeps : KeptByFiles host P) where
  pub attempt-Kept :
      (what : String) (e : Option String) (w : W) (next : W → Option String × W)
      → P w
      → ((v : W) → P v → P (next v).1)
      → P (attempt what e w next).1
  unfolding attempt
  attempt-Kept what none w next p h = h w p
  attempt-Kept what (some e) w next p h = p

  pub if-Kept : (b : Bool) (x y : Option String × W) → P x.1 → P y.1 → P (if b then x else y).1
  if-Kept true x y p q = p
  if-Kept false x y p q = q

  write_file-Kept :
      (change : FileChange) (content : String) (w : W)
      → P w
      → P (write_file host change content w).1
  unfolding write_file
  write_file-Kept change content w p = keeps.written change.path content change.mode w p

  make_own_dir-Kept :
      (change : FileChange) (content : String) (w : W)
      → P w
      → P (make_own_dir host change content w).1
  unfolding make_own_dir
  make_own_dir-Kept change content w p =
      attempt-Kept _ _ _ (write_file host change content) (keeps.made _ _ w p)
        (write_file-Kept change content)

  pub write_change-Kept :
      (change : FileChange) (content : String) (w : W)
      → P w
      → P (write_change host change content w).1
  unfolding write_change
  write_change-Kept change content w p =
      attempt-Kept _ _ _ (make_own_dir host change content) (keeps.made _ _ w p)
        (make_own_dir-Kept change content)

  pub remove_change-Kept : (change : FileChange) (w : W) → P w → P (remove_change host change w).1
  unfolding remove_change
  remove_change-Kept change w p = keeps.removed _ w p

  write_content-Kept :
      (change : FileChange) (r : Result String) (w : W) → P w → P (write_content host change r w).1
  unfolding write_content
  write_content-Kept change (err e) w p = p
  write_content-Kept change (ok content) w p = write_change-Kept change content w p

  stage_kind-Kept :
      (plan : Plan) (change : FileChange) (k : ChangeKind) (w : W)
      → P w
      → P (stage_kind host plan change k w).1
  unfolding stage_kind
  stage_kind-Kept plan change unchanged w p = p
  stage_kind-Kept plan change create w p = write_content-Kept change _ w p
  stage_kind-Kept plan change update w p = write_content-Kept change _ w p
  stage_kind-Kept plan change reclaim w p =
      if-Kept change.deferred _ _ p (remove_change-Kept change w p)

  stage_file-Kept :
      (plan : Plan) (change : FileChange) (w : W) → P w → P (stage_file host plan change w).1
  unfolding stage_file
  stage_file-Kept plan change w p =
      if-Kept change.withheld _ _ p (stage_kind-Kept plan change change.kind w p)

  next_file-Kept :
      (rest : W → Option String × W) (r : Option String × W)
      → P r.1
      → ((v : W) → P v → P (rest v).1)
      → P (elim r.0 as (λ _. Option String × W) [ some e ↦ (some e, r.1) | none ↦ rest r.1 ]).1
  next_file-Kept rest (none, v) q h = h v q
  next_file-Kept rest (some e, v) q h = q

  stage_files-Kept :
      (plan : Plan) (fs : List FileChange) (w : W) → P w → P (stage_files host plan fs w).1
  unfolding stage_files
  stage_files-Kept plan [] w p = p
  stage_files-Kept plan (f ∷ fs) w p =
      next_file-Kept (stage_files host plan fs) (stage_file host plan f w)
        (stage_file-Kept plan f w p) (stage_files-Kept plan fs)

  -- Whatever its plan asks for, and whether or not it fails, the staging stage keeps every property
  -- of the host that writing a file, making a directory and removing a file keep.
  pub stage-Kept : (plan : Plan) (w : W) → P w → P (stage host plan w).1
  unfolding stage
  stage-Kept plan w p = stage_files-Kept plan plan.files w p
