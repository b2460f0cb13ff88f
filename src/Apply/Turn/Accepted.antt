-- ===== src/Apply/Turn/Accepted.antt =====
-- The record of the accepted declaration.
use regied.Prelude.{
  ℕ, String, ◌≡◌, refl, ◌∙◌, ap, Bool-cases, inl, inr, Option, none, some, ◌=ˢ◌, eq_iff,
}
use regied.Apply.Services.{Options}
use regied.Apply.Host.{FileAnswer, found, missing, unreadable, Host, FileLaws}
use regied.Apply.Staging.{attempt}
use regied.Apply.Staging.Effects.{wrap-none}
use regied.Apply.Turn.{accepted_file, write_accepted, record_accepted, after_read, accept}

-- The file at the path has the content.
pub record HasContent {W : Type 0} (host : Host W) (path content : String) (w : W) : Type 0 where
  pub mode : ℕ
  pub reads : host.read_file path w ≡ found content mode

module _ {W : Type 0} (host : Host W) (laws : FileLaws host) (opts : Options) where
  write_accepted-HasContent :
      (declaration : String) (w : W)
      → (write_accepted host opts declaration w).0 ≡ none
      → HasContent host
          (accepted_file host opts)
          declaration
          (write_accepted host opts declaration w).1
  unfolding write_accepted
  write_accepted-HasContent declaration w done = record {
    mode = 420;
    reads = laws.read_written _ declaration 420 w (wrap-none _ _ done);
  }

  attempt-HasContent :
      (what declaration : String) (e : Option String) (w : W)
      → (attempt what e w (write_accepted host opts declaration)).0 ≡ none
      → HasContent host
          (accepted_file host opts)
          declaration
          (attempt what e w (write_accepted host opts declaration)).1
  unfolding attempt
  attempt-HasContent what declaration none w done = write_accepted-HasContent declaration w done
  attempt-HasContent what declaration (some e) w done = cc

  record_accepted-HasContent :
      (declaration : String) (w : W)
      → (record_accepted host opts declaration w).0 ≡ none
      → HasContent host
          (accepted_file host opts)
          declaration
          (record_accepted host opts declaration w).1
  unfolding record_accepted
  record_accepted-HasContent declaration w done = attempt-HasContent _ declaration _ _ done

  after_read-HasContent :
      (declaration : String) (a : FileAnswer) (w : W)
      → host.read_file (accepted_file host opts) w ≡ a
      → (after_read host opts declaration a w).0 ≡ none
      → HasContent host
          (accepted_file host opts)
          declaration
          (after_read host opts declaration a w).1
  unfolding after_read
  after_read-HasContent declaration missing w p done = record_accepted-HasContent declaration w done
  after_read-HasContent declaration (unreadable e) w p done =
      record_accepted-HasContent declaration w done
  after_read-HasContent declaration (found content mode) w p done =
      elim (Bool-cases (content =ˢ declaration)) [
        | inl same ↦ rw same (record {
          mode = mode;
          reads = p ∙ ap (λ c. found c mode) ((eq_iff content declaration).0 same);
        })
        | inr other ↦ rw other (record_accepted-HasContent declaration w (rw other at done))
      ]

  -- A declaration that was accepted without an error is what the record holds.
  pub accept-HasContent :
      (declaration : String) (w : W)
      → (accept host opts declaration w).0 ≡ none
      → HasContent host (accepted_file host opts) declaration (accept host opts declaration w).1
  unfolding accept
  accept-HasContent declaration w done =
      after_read-HasContent declaration (host.read_file (accepted_file host opts) w) w refl done

  accept_held :
      (declaration : String) (w : W)
      → HasContent host (accepted_file host opts) declaration w
      → accept host opts declaration w ≡ (none, w)
  unfolding accept after_read
  accept_held declaration w h = rw (h.reads, (eq_iff declaration declaration).1 refl)

  -- Accepting a declaration once more, after it was accepted without an error, makes no call that
  -- changes the host and gives no error.
  pub accept_again :
      (declaration : String) (w : W)
      → (accept host opts declaration w).0 ≡ none
      → accept host opts declaration (accept host opts declaration w).1
        ≡ (none, (accept host opts declaration w).1)
  accept_again declaration w done = accept_held declaration _ (accept-HasContent declaration w done)
