-- ===== src/Apply/Settling.antt =====
-- settleOwed of internal/apply/owed.go: what a turn writes down as owed once it has run.
pub mod Readback
pub mod Effects
use Prim.Native.Nat.{Ordering, compare}
use Prim.Native.String as Text
use regied.Prelude.{
  String, Option, none, some, List, [], ◌∷◌, ◌=ˢ◌, ◌⋅◌, if◌then◌else◌, mem, sort, or_else, path_dir,
  Result, ok, err,
}
use regied.Apply.Types.{rank, OwedStep, Plan, join}
use regied.Apply.Services.{Options}
use regied.Apply.Host.{FileAnswer, found, missing, unreadable, Host}
use regied.Apply.Owed.{Codec, key_of, owed_file}
use regied.Apply.Staging.{wrap}

-- every owed step that did not run to success
unfoldable pub not_ran : List String → List OwedStep → List OwedStep
unfolding key_of
not_ran ran [] = []
not_ran ran (o ∷ os) = let rest = not_ran ran os in if mem (key_of o) ran then rest else o ∷ rest

unfoldable pub compare_owed : OwedStep → OwedStep → Ordering
unfolding join
compare_owed a b =
    or_else (compare (rank a.phase) (rank b.phase))
      (Text.compare (a.name ⋅ " " ⋅ join " " a.args) (b.name ⋅ " " ⋅ join " " b.args))

-- what is left owed, in the order of the file
unfoldable pub left_owed : Plan → List OwedStep
unfolding not_ran compare_owed sort
left_owed plan = sort compare_owed (not_ran plan.ran plan.owed)

module _ {W : Type 0} (host : Host W) (opts : Options) where
  -- nothing is owed
  take_away : FileAnswer → W → Option String × W
  unfolding wrap
  take_away (found content mode) w =
      let (e, w') = host.remove_file (owed_file opts) w in
      (wrap ("cannot take away " ⋅ owed_file opts ⋅ ", which says what is owed") e, w')
  take_away _ w = (none, w)

  after_dir : String → Option String → W → Option String × W
  unfolding path_dir wrap
  after_dir text (some e) w = (some ("cannot create " ⋅ path_dir (owed_file opts) ⋅ ": " ⋅ e), w)
  after_dir text none w =
      let (e, w') = host.write_file (owed_file opts) text 420 w in
      (wrap ("cannot write down what this turn leaves owed in " ⋅ owed_file opts) e, w')

  make_and_write : String → W → Option String × W
  unfolding path_dir after_dir
  make_and_write text w =
      let (e, w') = host.make_dir (path_dir (owed_file opts)) 493 w in after_dir text e w'

  -- the text to write, against what the file holds
  write_down : Result String → FileAnswer → W → Option String × W
  unfolding make_and_write
  write_down (err e) current w = (some ("cannot write down what this turn leaves owed: " ⋅ e), w)
  write_down (ok text) (found content mode) w =
      if content =ˢ text then (none, w) else make_and_write text w
  write_down (ok text) _ w = make_and_write text w

  settle : Codec → List OwedStep → FileAnswer → W → Option String × W
  unfolding take_away write_down
  settle codec [] current w = take_away current w
  settle codec (o ∷ os) current w = write_down (codec.encode (o ∷ os)) current w

  -- settleOwed
  unfoldable pub settle_owed : Codec → Plan → W → Option String × W
  unfolding settle left_owed
  settle_owed codec plan w = settle codec (left_owed plan) (host.read_file (owed_file opts) w) w
