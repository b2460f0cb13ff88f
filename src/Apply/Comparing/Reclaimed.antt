-- ===== src/Apply/Comparing/Reclaimed.antt =====
-- What is taken away of what an earlier apply left.
use regied.Prelude.{
  ◌≡◌, ◌⊎◌, String, true, false, Option, none, some, List, ◌∷◌, ◌⋅◌, All, mem, has_prefix, Result,
  ok, err,
}
use regied.Apply.Types.{reclaim, FileChange}
use regied.Apply.Services.{Options}
use regied.Apply.Host.{Host}
use regied.Apply.Comparing.{OwnedDir, has_marker}

-- The directory's rules say that the file is regied's: its name has the prefix, and it carries the
-- marker, each where the directory asks for it.
pub record IsOwn (dir : OwnedDir) (c : FileChange) : Type 0 where
  pub name : String
  pub in_dir : c.path ≡ dir.path ⋅ "/" ⋅ name
  pub prefixed : (dir.prefix ≡ "") ⊎ (has_prefix name dir.prefix ≡ true)
  pub marks : (dir.marked ≡ false) ⊎ (has_marker c.before ≡ true)
  pub removed : c.kind ≡ reclaim

-- It is regied's by one of the directories, and nothing asks for it.
pub data IsLeft (desired : List String) : List OwnedDir → FileChange → Type 0 where
  by_first :
      {d : OwnedDir} {ds : List OwnedDir} {c : FileChange}
      → IsOwn d c
      → mem c.path desired ≡ false
      → IsLeft desired (d ∷ ds) c
  by_later :
      {d : OwnedDir} {ds : List OwnedDir} {c : FileChange}
      → IsLeft desired ds c
      → IsLeft desired (d ∷ ds) c

abbrev Left : (FileChange → Type 0) → Result (List FileChange) → Type 0
Left P (err e) = Unit
Left P (ok cs) = All P cs

abbrev LeftOne : (FileChange → Type 0) → Result (Option FileChange) → Type 0
LeftOne P (err e) = Unit
LeftOne P (ok none) = Unit
LeftOne P (ok (some c)) = P c

module _ {W : Type 0} (host : Host W) (opts : Options) (desired : List String) (w : W) where
  abbrev IsOurs : OwnedDir → FileChange → Type 0
  IsOurs dir c = IsOwn dir c × (mem c.path desired ≡ false)
