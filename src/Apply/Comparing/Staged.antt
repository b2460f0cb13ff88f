-- ===== src/Apply/Comparing/Staged.antt =====
-- A file that was staged compares as unchanged.
use mathlib.Core.Path.{subst}
use regied.Prelude.{
  ℕ, ◌≡◌, ◌≢◌, refl, sym, ◌∙◌, ap, String, Bool, true, false, ◌&&◌, Option, none, some, ◌=ˢ◌, ◌==◌,
  if◌then◌else◌, arith, eq_iff, if-cases, Result, ok, err,
}
use regied.Apply.Types.{unchanged, create, update, reclaim, ChangeKind, FileChange, Plan}
use regied.Apply.Services.{Options}
use regied.Apply.Host.{FileAnswer, found, missing, unreadable, Host, FileLaws}
use regied.Apply.Staging.{
  attempt, content_for, write_file, make_own_dir, write_change, write_content, stage_kind,
  stage_file,
}
use regied.Apply.Staging.Effects.{wrap-none}
use regied.Apply.Comparing.{Artifact, wanted, compared, compare_file, hide}
use regied.Apply.Comparing.Content.{IsFor, wanted-IsFor, content_for-hide, hide-same}

module _ {W : Type 0} (host : Host W) (laws : FileLaws host) (opts : Options) where
  attempt-reads :
      (what path : String) (a : FileAnswer) (e : Option String) (w : W)
      (next : W → Option String × W)
      → (attempt what e w next).0 ≡ none
      → ((v : W) → (next v).0 ≡ none → host.read_file path (next v).1 ≡ a)
      → host.read_file path (attempt what e w next).1 ≡ a
  unfolding attempt
  attempt-reads what path a none w next done h = h w done
  attempt-reads what path a (some e) w next done h = cc

  write_file-reads :
      (c : FileChange) (content : String) (w : W)
      → (write_file host c content w).0 ≡ none
      → host.read_file c.path (write_file host c content w).1 ≡ found content c.mode
  unfolding write_file
  write_file-reads c content w done = laws.read_written c.path content c.mode w (wrap-none _ _ done)

  make_own_dir-reads :
      (c : FileChange) (content : String) (w : W)
      → (make_own_dir host c content w).0 ≡ none
      → host.read_file c.path (make_own_dir host c content w).1 ≡ found content c.mode
  unfolding make_own_dir
  make_own_dir-reads c content w done =
      attempt-reads _ c.path (found content c.mode) _ _ (write_file host c content) done
        (write_file-reads c content)

  write_change-reads :
      (c : FileChange) (content : String) (w : W)
      → (write_change host c content w).0 ≡ none
      → host.read_file c.path (write_change host c content w).1 ≡ found content c.mode
  unfolding write_change
  write_change-reads c content w done =
      attempt-reads _ c.path (found content c.mode) _ _ (make_own_dir host c content) done
        (make_own_dir-reads c content)

  write_content-reads :
      (c : FileChange) (r : Result String) (content : String) (w : W)
      → r ≡ ok content
      → (write_content host c r w).0 ≡ none
      → host.read_file c.path (write_content host c r w).1 ≡ found content c.mode
  unfolding write_content
  write_content-reads c (ok text) content w e done =
      write_change-reads c text w done ∙ ap (λ r. text_in r) e
    where
      text_in : Result String → FileAnswer
      text_in (ok x) = found x c.mode
      text_in (err x) = missing
  write_content-reads c (err text) content w e done = cc

  -- The comparison finds nothing to do.
  pub data IsUnchanged : Result FileChange → Type 0 where
    as_it_should_be : {c : FileChange} → c.kind ≡ unchanged → IsUnchanged (ok c)

  same_text : (x : String) (n : ℕ) → ((x =ˢ x) && (n == n)) ≡ true
  same_text x n = ground (arith, eq_iff x x)

  compared_again :
      (item : Artifact) (w : W)
      → host.read_file item.path w ≡ found item.content item.mode
      → IsUnchanged (compare_file host opts item w)
  unfolding compare_file compared
  compared_again item w e =
      subst (λ a. IsUnchanged (compared item (wanted opts item) a)) (sym e)
        (as_it_should_be (rw (same_text item.content item.mode) refl))

  staged :
      (item : Artifact) (c : FileChange) (plan : Plan) (w : W)
      → IsFor item c
      → item.withheld ≡ false
      → (write_content host (hide c plan).0 (content_for (hide c plan).1 (hide c plan).0) w).0
        ≡ none
      → host.read_file item.path
          (write_content host (hide c plan).0 (content_for (hide c plan).1 (hide c plan).0) w).1
        ≡ found item.content item.mode
  staged item c plan w f shown done =
      let h = (hide c plan).0 in
      let same = hide-same c plan in
      let read =
        write_content-reads h (content_for (hide c plan).1 h) c.content w
          (content_for-hide c plan (f.withheld ∙ shown)) done in
      ap (λ p. host.read_file p (write_content host h (content_for (hide c plan).1 h) w).1)
        (sym (same.0 ∙ f.path))
      ∙ (read
          ∙ (ap (λ x. found x h.mode) f.content ∙ ap (λ m. found item.content m) (same.1 ∙ f.mode)))

  -- The file of a change is staged.
  stage_kind-IsUnchanged :
      (item : Artifact) (c : FileChange) (plan : Plan) (k : ChangeKind) (w : W)
      → IsFor item c
      → item.withheld ≡ false
      → (k ≡ unchanged → host.read_file item.path w ≡ found item.content item.mode)
      → k ≢ reclaim
      → (stage_kind host (hide c plan).1 (hide c plan).0 k w).0 ≡ none
      → IsUnchanged
          (compare_file host opts item (stage_kind host (hide c plan).1 (hide c plan).0 k w).1)
  unfolding stage_kind
  stage_kind-IsUnchanged item c plan unchanged w f shown held keeps done =
      compared_again item w (held refl)
  stage_kind-IsUnchanged item c plan create w f shown held keeps done =
      compared_again item _ (staged item c plan w f shown done)
  stage_kind-IsUnchanged item c plan update w f shown held keeps done =
      compared_again item _ (staged item c plan w f shown done)
  stage_kind-IsUnchanged item c plan reclaim w f shown held keeps done = absurd (keeps refl)

  -- What the comparison answers for an artifact.
  record Answered (item : Artifact) (w : W) (c : FileChange) : Type 0 where
    for_item : IsFor item c
    held : c.kind ≡ unchanged → host.read_file item.path w ≡ found item.content item.mode
    kept : c.kind ≢ reclaim

  abbrev Answer : Artifact → W → Result FileChange → Type 0
  Answer item w (err e) = Unit
  Answer item w (ok c) = Answered item w c

  kind_if : Bool → ChangeKind
  kind_if b = if b then unchanged else update

  kind_if_held :
      (item : Artifact) (before : String) (mode : ℕ)
      → kind_if ((before =ˢ item.content) && (mode == item.mode)) ≡ unchanged
      → found before mode ≡ found item.content item.mode
  unfolding kind_if
  kind_if_held item before mode h = ground (arith, eq_iff before item.content, h)

  compared-Answer :
      (item : Artifact) (w : W) (a : FileAnswer)
      → host.read_file item.path w ≡ a
      → Answer item w (compared item (wanted opts item) a)
  unfolding compared kind_if
  compared-Answer item w missing e =
      let f = wanted-IsFor opts item in
      record {
        for_item = record {
          path = f.path;
          mode = f.mode;
          content = f.content;
          withheld = f.withheld;
        };
        held = λ q. cc;
        kept = λ q. cc;
      }
  compared-Answer item w (unreadable x) e = tt
  compared-Answer item w (found before mode) e =
      let f = wanted-IsFor opts item in
      record {
        for_item = record {
          path = f.path;
          mode = f.mode;
          content = f.content;
          withheld = f.withheld;
        };
        held = λ q. e ∙ kind_if_held item before mode q;
        kept = kind_if-kept ((before =ˢ item.content) && (mode == item.mode));
      }
    where
      kind_if-kept : (b : Bool) → (if b then unchanged else update) ≢ reclaim
      kind_if-kept true q = cc
      kind_if-kept false q = cc

  compare_file-Answer : (item : Artifact) (w : W) → Answer item w (compare_file host opts item w)
  unfolding compare_file
  compare_file-Answer item w = compared-Answer item w _ refl

  stage_file-shown :
      (c : FileChange) (plan : Plan) (w : W)
      → c.withheld ≡ false
      → stage_file host plan c w ≡ stage_kind host plan c c.kind w
  unfolding stage_file
  stage_file-shown c plan w h =
      if-cases (λ (r : Option String × W). r ≡ stage_kind host plan c c.kind w) c.withheld (none, w)
        _ (λ t. cc) (λ f. refl)

  -- When the comparison of a rendered file with the host went through, and the file was staged
  -- without an error, a comparison with the host as it is then finds nothing to do, for a file with
  -- a secret content too. The content of the file is known.
  pub compare_file-IsUnchanged :
      (item : Artifact) (c : FileChange) (plan : Plan) (w : W)
      → item.withheld ≡ false
      → compare_file host opts item w ≡ ok c
      → (stage_file host (hide c plan).1 (hide c plan).0 w).0 ≡ none
      → IsUnchanged
          (compare_file host opts item (stage_file host (hide c plan).1 (hide c plan).0 w).1)
  compare_file-IsUnchanged item c plan w shown e done =
      let h = (hide c plan).0 in
      let same = hide-same c plan in
      let a = answer e in
      let go = stage_file-shown h (hide c plan).1 w (same.3 ∙ (a.for_item.withheld ∙ shown)) in
      subst (λ (r : Option String × W). IsUnchanged (compare_file host opts item r.1)) (sym go)
        (stage_kind-IsUnchanged item c plan h.kind w a.for_item shown (λ q. a.held (sym same.2 ∙ q))
          (λ q. a.kept (sym same.2 ∙ q)) (ap (λ (r : Option String × W). r.0) (sym go) ∙ done))
    where
      answer : compare_file host opts item w ≡ ok c → Answered item w c
      answer e = subst (Answer item w) e (compare_file-Answer item w)
