-- ===== src/Ddns/Memory.antt =====
-- What the writer remembers after a write, successful or not.
use mathlib.Core.Path.{subst}
use regied.Prelude.{
  put, String, ◌≡◌, refl, ◌↔◌, Bool, true, false, Option, none, some, List, [], ◌∷◌, arith, eq_iff,
  if◌then◌else◌, get, Result, ok, err,
}
use regied.Ddns.{
  Record, Key, key_of, key_eq, bool_eq, record_eq, find, store, forget, Provider, Writer, holds,
  after_update, after_create, after_lookup, with_zone, after_zone, write_known, write,
}

key_eq_iff : (a b : Key) → (key_eq a b ≡ true) ↔ (a ≡ b)
unfolding key_eq
key_eq_iff a b = ground (arith, eq_iff a.zone b.zone, eq_iff a.name b.name, eq_iff a.kind b.kind)

bool_eq_iff : (a b : Bool) → (bool_eq a b ≡ true) ↔ (a ≡ b)
bool_eq_iff a b = ground arith

pub record_eq_iff : (a b : Record) → (record_eq a b ≡ true) ↔ (a ≡ b)
unfolding record_eq
record_eq_iff a b = ground (
  arith,
  eq_iff a.zone b.zone,
  eq_iff a.name b.name,
  eq_iff a.kind b.kind,
  eq_iff a.content b.content,
  bool_eq_iff a.proxied b.proxied,
)

module _ {ℓ} {V : Type ℓ} where
  find-store :
      (k j : Key) (v : V) (m : List (Key × V))
      → find j (store k v m) ≡ (if key_eq k j then some v else find j m)
  unfolding find store
  find-store k j v [] = refl
  find-store k j v ((i, w) ∷ m) =
      ground (arith, key_eq_iff k j, key_eq_iff i k, key_eq_iff i j, find-store k j v m)

  find-forget :
      (k j : Key) (m : List (Key × V))
      → find j (forget k m) ≡ (if key_eq k j then none else find j m)
  unfolding find forget
  find-forget k j [] = ground arith
  find-forget k j ((i, w) ∷ m) =
      ground (arith, key_eq_iff k j, key_eq_iff i k, key_eq_iff i j, find-forget k j m)

-- `w'` has written what `old` says, and `r` beside it.
record Wrote (r : Record) (old : List (Key × Record)) (w' : Writer) : Type 0 where
  now : find (key_of r) w'.written ≡ some r
  others : (k : Key) → key_eq (key_of r) k ≡ false → find k w'.written ≡ find k old

abbrev Remembers : Record → List (Key × Record) → Option String → Writer → Type 0
Remembers r old none w' = Wrote r old w'
Remembers r old (some e) w' = w'.written ≡ old

key_eq_refl : (r : Record) → key_eq (key_of r) (key_of r) ≡ true
key_eq_refl r = (key_eq_iff (key_of r) (key_of r)).1 refl

store-Wrote :
    (r : Record) (old : List (Key × Record)) (w' : Writer)
    → w'.written ≡ store (key_of r) r old
    → Wrote r old w'
store-Wrote r old w' e = record {
  now = rw (e, find-store, key_eq_refl r);
  others = λ k ne. rw (e, find-store, ne);
}

after_update-Remembers :
    {W : Type 0} (r : Record) (w : Writer) (a : Option String) (s : W)
    → Remembers r w.written (after_update r w a s).0 (after_update r w a s).1
unfolding after_update
after_update-Remembers r w none s = store-Wrote r w.written _ refl
after_update-Remembers r w (some e) s = refl

after_create-Remembers :
    {W : Type 0} (r : Record) (w : Writer) (a : Result String) (s : W)
    → Remembers r w.written (after_create r w a s).0 (after_create r w a s).1
unfolding after_create
after_create-Remembers r w (ok id) s = store-Wrote r w.written _ refl
after_create-Remembers r w (err e) s = refl

module _ {W : Type 0} (provider : Provider W) (token : String) where
  after_lookup-Remembers :
      (zone_id : String) (r : Record) (w : Writer) (a : Result (Option String)) (s : W)
      → let t = after_lookup provider token zone_id r w a s in Remembers r w.written t.0 t.1
  unfolding after_lookup
  after_lookup-Remembers zone_id r w (err e) s = refl
  after_lookup-Remembers zone_id r w (ok none) s = after_create-Remembers r w _ _
  after_lookup-Remembers zone_id r w (ok (some id)) s =
      after_update-Remembers r (record w { records = store (key_of r) id w.records }) _ _

  with_zone-Remembers :
      (zone_id : String) (r : Record) (w : Writer) (o : Option String) (s : W)
      → let t = with_zone provider token zone_id r w o s in Remembers r w.written t.0 t.1
  unfolding with_zone
  with_zone-Remembers zone_id r w (some id) s = after_update-Remembers r w _ _
  with_zone-Remembers zone_id r w none s = after_lookup-Remembers zone_id r w _ _

  after_zone-Remembers :
      (r : Record) (w : Writer) (a : Result String) (s : W)
      → let t = after_zone provider token r w a s in Remembers r w.written t.0 t.1
  unfolding after_zone
  after_zone-Remembers r w (err e) s = refl
  after_zone-Remembers r w (ok id) s =
      with_zone-Remembers id r (record w { zones = put r.zone id w.zones }) _ s

  write_known-Remembers :
      (r : Record) (w : Writer) (o : Option String) (s : W)
      → let t = write_known provider token r w o s in Remembers r w.written t.0 t.1
  unfolding write_known
  write_known-Remembers r w (some id) s = with_zone-Remembers id r w _ s
  write_known-Remembers r w none s = after_zone-Remembers r w _ _

  write-Remembers :
      (r : Record) (w : Writer) (s : W)
      → let t = write provider token r w s in Remembers r w.written t.0 t.1
  unfolding write
  write-Remembers r w s = write_known-Remembers r w (get r.zone w.zones) s

  write-Wrote :
      (r : Record) (w : Writer) (s : W)
      → (write provider token r w s).0 ≡ none
      → Wrote r w.written (write provider token r w s).1
  write-Wrote r w s done =
      subst (λ o. Remembers r w.written o (write provider token r w s).1) done
        (write-Remembers r w s)

  -- After a write that succeeded the writer holds the record.
  pub holds-write :
      (r : Record) (w : Writer) (s : W)
      → (write provider token r w s).0 ≡ none
      → holds (write provider token r w s).1 r ≡ true
  unfolding holds
  holds-write r w s done = rw ((write-Wrote r w s done).now, holds) ((record_eq_iff r r).1 refl)

  -- A write that succeeded changes nothing of what the writer holds for a record under another
  -- zone, name or type.
  pub holds-write_other :
      (r q : Record) (w : Writer) (s : W)
      → (write provider token r w s).0 ≡ none
      → key_eq (key_of r) (key_of q) ≡ false
      → holds (write provider token r w s).1 q ≡ holds w q
  unfolding holds
  holds-write_other r q w s done ne = rw ((write-Wrote r w s done).others (key_of q) ne, holds)

  -- A write that failed, wherever it failed, is not remembered: the writer holds exactly the
  -- records that it held before.
  pub holds-write_error :
      (r q : Record) (w : Writer) (s : W) {e : String}
      → (write provider token r w s).0 ≡ some e
      → holds (write provider token r w s).1 q ≡ holds w q
  unfolding holds
  holds-write_error r q w s failed =
      let t = write provider token r w s in
      let h : t.1.written ≡ w.written =
        subst (λ o. Remembers r w.written o t.1) failed (write-Remembers r w s) in
      rw (h, holds)
