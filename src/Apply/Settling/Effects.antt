-- ===== src/Apply/Settling/Effects.antt =====
-- Settling what is owed makes no call but those on files.
use regied.Prelude.{String, Option, none, some, List, [], ◌∷◌, ◌=ˢ◌, Result, ok, err}
use regied.Apply.Types.{OwedStep, Plan}
use regied.Apply.Services.{Options}
use regied.Apply.Host.{FileAnswer, found, missing, unreadable, Host, KeptByFiles}
use regied.Apply.Owed.{Codec}
use regied.Apply.Staging.Effects.{if-Kept}
use regied.Apply.Settling.{take_away, after_dir, make_and_write, write_down, settle, settle_owed}

module _ {W : Type 0} (host : Host W) (opts : Options) (P : W → Type 0)
    (keeps : KeptByFiles host P) where
  take_away-Kept : (a : FileAnswer) (w : W) → P w → P (take_away host opts a w).1
  unfolding take_away
  take_away-Kept (found content mode) w p = keeps.removed _ w p
  take_away-Kept missing w p = p
  take_away-Kept (unreadable e) w p = p

  after_dir-Kept :
      (text : String) (e : Option String) (w : W) → P w → P (after_dir host opts text e w).1
  unfolding after_dir
  after_dir-Kept text none w p = keeps.written _ text _ w p
  after_dir-Kept text (some e) w p = p

  make_and_write-Kept : (text : String) (w : W) → P w → P (make_and_write host opts text w).1
  unfolding make_and_write
  make_and_write-Kept text w p = after_dir-Kept text _ _ (keeps.made _ _ w p)

  write_down-Kept :
      (r : Result String) (a : FileAnswer) (w : W) → P w → P (write_down host opts r a w).1
  unfolding write_down
  write_down-Kept (err e) a w p = p
  write_down-Kept (ok text) missing w p = make_and_write-Kept text w p
  write_down-Kept (ok text) (unreadable e) w p = make_and_write-Kept text w p
  write_down-Kept (ok text) (found content mode) w p =
      if-Kept host P keeps (content =ˢ text) _ _ p (make_and_write-Kept text w p)

  settle-Kept :
      (codec : Codec) (owed : List OwedStep) (a : FileAnswer) (w : W)
      → P w
      → P (settle host opts codec owed a w).1
  unfolding settle
  settle-Kept codec [] a w p = take_away-Kept a w p
  settle-Kept codec (o ∷ os) a w p = write_down-Kept (codec.encode (o ∷ os)) a w p

  pub settle_owed-Kept :
      (codec : Codec) (plan : Plan) (w : W) → P w → P (settle_owed host opts codec plan w).1
  unfolding settle_owed
  settle_owed-Kept codec plan w p = settle-Kept codec _ _ w p
