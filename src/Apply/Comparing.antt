-- ===== src/Apply/Comparing.antt =====
-- The comparison of the files in internal/apply/plan.go: what the host holds against what was rendered,
-- and what an earlier apply left behind.
pub mod Content
pub mod Staged
pub mod Reclaimed
mod Examples
use Prim.Native.String as Text
use Prim.Native.String.{◌∷◌ as text_cons}
use Prim.Native.Char.{code}
use regied.Prelude.{
  ℕ, String, Bool, true, false, not, ◌&&◌, ◌||◌, Option, none, some, List, [], ◌∷◌, ◌++◌, ◌=ˢ◌,
  ◌==◌, ◌⋅◌, if◌then◌else◌, mem, put, has_prefix, path_dir, Result, ok, err,
}
use regied.Apply.Types.{
  unchanged, create, update, reclaim, FileChange, no_file, SecretContent, Plan,
}
use regied.Apply.Services.{Options, unit_prefix}
use regied.Apply.Host.{FileAnswer, found, missing, unreadable, Host}

-- artifact, of internal/apply/render.go
pub record Artifact : Type 0 where
  pub path : String
  pub mode : ℕ
  pub dir_mode : ℕ
  pub content : String
  pub secret : Bool
  pub withheld : Bool

pub record OwnedDir : Type 0 where
  pub path : String
  pub prefix : String
  pub marked : Bool
  pub deferred : Bool
  pub secret : Bool

abbrev blank_dir : OwnedDir
blank_dir = record { path = ""; prefix = ""; marked = false; deferred = false; secret = false }

-- ownedDirs
unfoldable pub owned_dirs : Options → List OwnedDir
owned_dirs opts =
    record blank_dir { path = opts.networkd_dir; prefix = "50-regied-" }
    ∷ record blank_dir { path = opts.root ⋅ "/ppp/peers"; marked = true }
    ∷ record blank_dir { path = opts.root ⋅ "/ppp/credentials"; marked = true; secret = true }
    ∷ record blank_dir { path = opts.root ⋅ "/dnsmasq"; marked = true }
    ∷ record blank_dir {
      path = opts.unit_dir;
      prefix = unit_prefix;
      marked = true;
      deferred = true;
    }
    ∷ record blank_dir { path = opts.ppp_dir ⋅ "/ip-up.d"; prefix = "regied-"; marked = true }
    ∷ record blank_dir { path = opts.ppp_dir ⋅ "/ip-down.d"; prefix = "regied-"; marked = true }
    ∷ []

-- applyPolicy, with the directories to look through
unfoldable pub policy_in : List OwnedDir → FileChange → FileChange
unfolding path_dir
policy_in [] change = change
policy_in (d ∷ ds) change =
    let rest = policy_in ds change in
    if path_dir change.path =ˢ d.path
    then record change { secret = change.secret || d.secret; deferred = d.deferred }
    else rest

unfoldable pub apply_policy : Options → FileChange → FileChange
unfolding policy_in owned_dirs
apply_policy opts change = policy_in (owned_dirs opts) change

abbrev pub marker : String
marker = "# Generated by regied. Do not edit: every apply rewrites this file."

-- the first line, and what follows it if there is a line break
cut_line : String → String × Option String
cut_line Text.[] = ("", none)
cut_line (text_cons c s) =
    let (line, rest) = cut_line s in if code c == 10 then ("", some s) else (text_cons c line, rest)

second_is_marker : Option String → Bool
unfolding cut_line
second_is_marker none = false
second_is_marker (some rest) = (cut_line rest).0 =ˢ marker

-- hasOwnershipMarker
unfoldable pub has_marker : String → Bool
unfolding cut_line second_is_marker has_prefix
has_marker content =
    let (first, rest) = cut_line content in
    if first =ˢ marker then true else has_prefix first "#!" && second_is_marker rest

abbrev pub bare : Artifact → FileChange
bare item = record no_file {
  path = item.path;
  mode = item.mode;
  dir_mode = item.dir_mode;
  content = item.content;
  secret = item.secret;
  withheld = item.withheld;
}

-- the change before the host is read
unfoldable pub wanted : Options → Artifact → FileChange
unfolding apply_policy
wanted opts item = apply_policy opts (bare item)

-- what the answer of the host makes of it
unfoldable pub compared : Artifact → FileChange → FileAnswer → Result FileChange
compared item change missing = ok (record change { kind = create })
compared item change (unreadable e) = err ("cannot read " ⋅ item.path ⋅ ": " ⋅ e)
compared item change (found before mode) = ok (record change {
  kind = if (before =ˢ item.content) && (mode == item.mode) then unchanged else update;
  before = before;
  had_before = true;
  before_mode = mode;
})

-- Engine.compare
unfoldable pub compare_file : {W : Type 0} → Host W → Options → Artifact → W → Result FileChange
unfolding wanted compared
compare_file host opts item w = compared item (wanted opts item) (host.read_file item.path w)

-- hide, of a plan: the change, and the plan with the content in its own store
unfoldable pub hide : FileChange → Plan → FileChange × Plan
unfolding put
hide change plan = if not change.secret || change.withheld then (change, plan) else (
  record change { content = ""; before = "" },
  record plan {
    secrets =
        put change.path
          (record {
            content = change.content;
            before = change.before;
            had_before = change.had_before;
          })
          plan.secrets;
  },
)

abbrev pub leftover : String → String → ℕ → FileChange
leftover file before mode = record no_file {
  path = file;
  kind = reclaim;
  before = before;
  had_before = true;
  before_mode = mode;
}

module _ {W : Type 0} (host : Host W) (opts : Options) where
  -- a file that is left behind, by what it holds; `none` where the loop goes on without it. Go prints the
  -- error that it read, which an answer of `missing` does not carry: the text here stands for it.
  left_file : OwnedDir → String → FileAnswer → Result (Option FileChange)
  unfolding has_marker apply_policy
  left_file dir file missing = err ("cannot read " ⋅ file ⋅ ": file does not exist")
  left_file dir file (unreadable e) = err ("cannot read " ⋅ file ⋅ ": " ⋅ e)
  left_file dir file (found before mode) =
      if dir.marked && not (has_marker before)
      then ok none
      else ok (some (apply_policy opts (leftover file before mode)))

  left_name : List String → OwnedDir → W → String → Result (Option FileChange)
  unfolding left_file has_prefix
  left_name desired dir w name =
      let file = dir.path ⋅ "/" ⋅ name in
      if mem file desired
      then ok none
      else if not (dir.prefix =ˢ "") && not (has_prefix name dir.prefix)
      then ok none
      else left_file dir file (host.read_file file w)

  -- one round's outcome before the others'
  before_rest : Result (Option FileChange) → Result (List FileChange) → Result (List FileChange)
  before_rest (err e) rest = err e
  before_rest (ok none) rest = rest
  before_rest (ok (some c)) (err e) = err e
  before_rest (ok (some c)) (ok cs) = ok (c ∷ cs)

  left_names : List String → OwnedDir → W → List String → Result (List FileChange)
  unfolding left_name before_rest
  left_names desired dir w [] = ok []
  left_names desired dir w (n ∷ ns) =
      before_rest (left_name desired dir w n) (left_names desired dir w ns)

  left_in : List String → OwnedDir → W → Result (List String) → Result (List FileChange)
  unfolding left_names
  left_in desired dir w (err e) = err ("cannot read " ⋅ dir.path ⋅ ": " ⋅ e)
  left_in desired dir w (ok names) = left_names desired dir w names

  joined : Result (List FileChange) → Result (List FileChange) → Result (List FileChange)
  joined (err e) rest = err e
  joined (ok cs) (err e) = err e
  joined (ok cs) (ok ds) = ok (cs ++ ds)

  left_dirs : List String → W → List OwnedDir → Result (List FileChange)
  unfolding left_in joined
  left_dirs desired w [] = ok []
  left_dirs desired w (d ∷ ds) =
      joined (left_in desired d w (host.list_dir d.path w)) (left_dirs desired w ds)

  -- Engine.reclaim; `desired` is the set of the paths that are asked for
  unfoldable pub reclaim_files : List String → W → Result (List FileChange)
  unfolding left_dirs owned_dirs
  reclaim_files desired w = left_dirs desired w (owned_dirs opts)
