-- ===== src/Apply/Settling/Readback.antt =====
-- internal/apply/owed.go, settleOwed and readOwed: what the next turn reads of what a turn settles.
use mathlib.Core.Path.{subst}
use mathlib.Core.List.{Perm}
use regied.Prelude.{
  sym, mem, true, false, Perm-sort, ℕ, String, ◌≡◌, refl, Option, none, some, List, [], ◌∷◌, eq_iff,
  ◌=ˢ◌, Result, ok, err, Bool-cases, inl, inr,
}
use regied.Apply.Types.{OwedStep, Plan}
use regied.Apply.Services.{Options}
use regied.Apply.Host.{FileAnswer, found, missing, unreadable, Host, FileLaws}
use regied.Apply.Owed.{Codec, key_of, owed_file, read_owed, read_answer, decoded}
use regied.Apply.Staging.Effects.{wrap-none}
use regied.Apply.Settling.{
  not_ran, compare_owed, left_owed, take_away, after_dir, make_and_write, write_down, settle,
  settle_owed,
}

-- What YAML writes it reads back.
pub record CodecLaws (codec : Codec) : Type 0 where
  pub decode-encode :
      (owed : List OwedStep) (text : String)
      → codec.encode owed ≡ ok text
      → codec.decode text ≡ ok owed

-- The owed steps without those whose command is among what ran, in the same order.
pub data Without (ran : List String) : List OwedStep → List OwedStep → Type 0 where
  none_owed : Without ran [] []
  did_not_run :
      (o : OwedStep) {os rest : List OwedStep}
      → mem (key_of o) ran ≡ false
      → Without ran os rest
      → Without ran (o ∷ os) (o ∷ rest)
  did_run :
      (o : OwedStep) {os rest : List OwedStep}
      → mem (key_of o) ran ≡ true
      → Without ran os rest
      → Without ran (o ∷ os) rest

not_ran-Without : (ran : List String) (os : List OwedStep) → Without ran os (not_ran ran os)
unfolding not_ran
not_ran-Without ran [] = none_owed
not_ran-Without ran (o ∷ os) = elim (Bool-cases (mem (key_of o) ran)) [
  | inl e ↦ rw e (did_run o e (not_ran-Without ran os))
  | inr e ↦ rw e (did_not_run o e (not_ran-Without ran os))
]

-- What is read is what is owed of the plan and did not run, in some order.
pub record IsWhatIsLeft (plan : Plan) (read : List OwedStep) : Type 0 where
  pub rest : List OwedStep
  pub without : Without plan.ran plan.owed rest
  pub reordered : Perm rest read

left_owed-IsWhatIsLeft : (plan : Plan) → IsWhatIsLeft plan (left_owed plan)
unfolding left_owed
left_owed-IsWhatIsLeft plan = record {
  rest = not_ran plan.ran plan.owed;
  without = not_ran-Without plan.ran plan.owed;
  reordered = Perm-sort compare_owed (not_ran plan.ran plan.owed);
}

module _ {W : Type 0} (host : Host W) (laws : FileLaws host) (opts : Options) (codec : Codec)
    (yaml : CodecLaws codec) where
  read_of_content :
      (w : W) (content : String) (mode : ℕ) (owed : List OwedStep)
      → host.read_file (owed_file opts) w ≡ found content mode
      → codec.decode content ≡ ok owed
      → (read_owed codec host opts w).0 ≡ owed
  unfolding read_owed read_answer decoded
  read_of_content w content mode owed p q = rw (p, q)

  take_away_read :
      (w : W) (a : FileAnswer)
      → host.read_file (owed_file opts) w ≡ a
      → (take_away host opts a w).0 ≡ none
      → (read_owed codec host opts (take_away host opts a w).1).0 ≡ []
  unfolding take_away read_owed read_answer
  take_away_read w (found content mode) p done =
      rw (laws.read_removed (owed_file opts) w (wrap-none _ _ done))
  take_away_read w missing p done = rw p
  take_away_read w (unreadable e) p done = rw p

  after_dir_read :
      (w : W) (text : String) (made : Option String) (owed : List OwedStep)
      → codec.encode owed ≡ ok text
      → (after_dir host opts text made w).0 ≡ none
      → (read_owed codec host opts (after_dir host opts text made w).1).0 ≡ owed
  unfolding after_dir
  after_dir_read w text none owed e done =
      read_of_content _ text 420 owed
        (laws.read_written (owed_file opts) text 420 w (wrap-none _ _ done))
        (yaml.decode-encode owed text e)
  after_dir_read w text (some f) owed e done = cc

  make_and_write_read :
      (w : W) (text : String) (owed : List OwedStep)
      → codec.encode owed ≡ ok text
      → (make_and_write host opts text w).0 ≡ none
      → (read_owed codec host opts (make_and_write host opts text w).1).0 ≡ owed
  unfolding make_and_write
  make_and_write_read w text owed e done = after_dir_read _ text _ owed e done

  write_down_read :
      (w : W) (a : FileAnswer) (r : Result String) (owed : List OwedStep)
      → host.read_file (owed_file opts) w ≡ a
      → codec.encode owed ≡ r
      → (write_down host opts r a w).0 ≡ none
      → (read_owed codec host opts (write_down host opts r a w).1).0 ≡ owed
  unfolding write_down
  write_down_read w a (err f) owed p e done = cc
  write_down_read w missing (ok text) owed p e done = make_and_write_read w text owed e done
  write_down_read w (unreadable f) (ok text) owed p e done = make_and_write_read w text owed e done
  write_down_read w (found content mode) (ok text) owed p e done =
      elim (Bool-cases (content =ˢ text)) [
        | inl same ↦ rw same (
            read_of_content w content mode owed p
              (rw ((eq_iff content text).0 same) (yaml.decode-encode owed text e)))
        | inr other ↦ rw other (make_and_write_read w text owed e (rw other at done))
      ]

  settle_read :
      (w : W) (owed : List OwedStep)
      → (settle host opts codec owed (host.read_file (owed_file opts) w) w).0 ≡ none
      → (read_owed codec host opts
          (settle host opts codec owed (host.read_file (owed_file opts) w) w).1).0
        ≡ owed
  unfolding settle
  settle_read w [] done = take_away_read w _ refl done
  settle_read w (o ∷ os) done = write_down_read w _ _ (o ∷ os) refl refl done

  pub read_left_owed :
      (plan : Plan) (w : W)
      → (settle_owed host opts codec plan w).0 ≡ none
      → (read_owed codec host opts (settle_owed host opts codec plan w).1).0 ≡ left_owed plan
  unfolding settle_owed
  read_left_owed plan w done = settle_read w (left_owed plan) done

  -- When the settling reports no error, the next turn reads exactly the owed steps of this turn's
  -- plan that did not run to success, each as often as it was owed, whatever the file held before:
  -- none is lost, none that ran comes back, and an unreadable file does not hide them.
  pub read_owed-settle_owed :
      (plan : Plan) (w : W)
      → (settle_owed host opts codec plan w).0 ≡ none
      → IsWhatIsLeft plan (read_owed codec host opts (settle_owed host opts codec plan w).1).0
  read_owed-settle_owed plan w done =
      subst (IsWhatIsLeft plan) (sym (read_left_owed plan w done)) (left_owed-IsWhatIsLeft plan)
