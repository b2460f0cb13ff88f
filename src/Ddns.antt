-- ===== src/Ddns.antt =====
-- internal/ddns/writer.go: what one process put at the DNS provider, and the write of one record.
-- The provider (internal/ddns/cloudflare.go in the program) is the interface that the file declares;
-- its calls act on a world of their own.
pub mod Memory
mod Examples
use regied.Prelude.{
  ℕ, String, Bool, true, false, ◌&&◌, ◌||◌, not, Option, none, some, List, [], ◌∷◌, ◌=ˢ◌, ◌==◌,
  if◌then◌else◌, get, put, Result, ok, err, ◌⋅◌,
}

-- `kind` is the field Type; the TTL is in nanoseconds
pub record Record : Type 0 where
  pub zone : String
  pub name : String
  pub kind : String
  pub content : String
  pub proxied : Bool
  pub ttl : ℕ

pub record Key : Type 0 where
  pub zone : String
  pub name : String
  pub kind : String

abbrev pub key_of : Record → Key
key_of r = record { zone = r.zone; name = r.name; kind = r.kind }

unfoldable pub key_eq : Key → Key → Bool
key_eq a b = (a.zone =ˢ b.zone) && ((a.name =ˢ b.name) && (a.kind =ˢ b.kind))

abbrev pub bool_eq : Bool → Bool → Bool
bool_eq true b = b
bool_eq false b = not b

unfoldable pub record_eq : Record → Record → Bool
record_eq a b =
    (a.zone =ˢ b.zone)
    && ((a.name =ˢ b.name)
        && ((a.kind =ˢ b.kind)
            && ((a.content =ˢ b.content) && (bool_eq a.proxied b.proxied && (a.ttl == b.ttl)))))

-- maps keyed by `Key`
module _ {ℓ} {V : Type ℓ} where
  unfoldable pub find : Key → List (Key × V) → Option V
  find k [] = none
  find k ((j, v) ∷ m) = if key_eq j k then some v else find k m

  unfoldable pub store : Key → V → List (Key × V) → List (Key × V)
  store k v [] = (k, v) ∷ []
  store k v ((j, w) ∷ m) = if key_eq j k then (k, v) ∷ m else (j, w) ∷ store k v m

  unfoldable pub forget : Key → List (Key × V) → List (Key × V)
  forget k [] = []
  forget k ((j, v) ∷ m) = let rest = forget k m in if key_eq j k then rest else (j, v) ∷ rest

pub record Provider (W : Type 0) : Type 0 where
  pub zone_id : String → String → W → Result String × W
  pub record_id : String → String → String → String → W → Result (Option String) × W
  pub create : String → String → Record → W → Result String × W
  pub update : String → String → String → Record → W → Option String × W

pub record Writer : Type 0 where
  pub zones : List (String × String)
  pub records : List (Key × String)
  pub written : List (Key × Record)

unfoldable pub new_writer : Writer
new_writer = record { zones = []; records = []; written = [] }

unfoldable pub last : Writer → Record → Option Record
unfolding find
last w r = find (key_of r) w.written

unfoldable pub holds : Writer → Record → Bool
unfolding last record_eq
holds w r = elim (last w r) [ none ↦ false | some written ↦ record_eq written r ]

-- what Write does with the provider's answer to an update
after_update : {W : Type 0} → Record → Writer → Option String → W → Option String × Writer × W
unfolding store forget
after_update r w none s = (none, record w { written = store (key_of r) r w.written }, s)
after_update r w (some e) s = (
  some ("cannot update the " ⋅ r.kind ⋅ " record for " ⋅ r.name ⋅ ": " ⋅ e),
  record w { records = forget (key_of r) w.records },
  s,
)

-- and to a creation
after_create : {W : Type 0} → Record → Writer → Result String → W → Option String × Writer × W
unfolding store
after_create r w (err e) s =
    (some ("cannot create the " ⋅ r.kind ⋅ " record for " ⋅ r.name ⋅ ": " ⋅ e), w, s)
after_create r w (ok id) s = (
  none,
  record w { records = store (key_of r) id w.records; written = store (key_of r) r w.written },
  s,
)

module _ {W : Type 0} (provider : Provider W) (token : String) where
  update_record : String → String → Record → Writer → W → Option String × Writer × W
  unfolding after_update
  update_record zone_id record_id r w s =
      let (answer, s') = provider.update token zone_id record_id r s in after_update r w answer s'

  create_record : String → Record → Writer → W → Option String × Writer × W
  unfolding after_create
  create_record zone_id r w s =
      let (answer, s') = provider.create token zone_id r s in after_create r w answer s'

  -- what Write does with the provider's answer to a lookup
  after_lookup : String → Record → Writer → Result (Option String) → W → Option String × Writer × W
  unfolding store update_record create_record
  after_lookup zone_id r w (err e) s =
      (some ("cannot look up the " ⋅ r.kind ⋅ " record for " ⋅ r.name ⋅ ": " ⋅ e), w, s)
  after_lookup zone_id r w (ok none) s = create_record zone_id r w s
  after_lookup zone_id r w (ok (some id)) s =
      update_record zone_id id r (record w { records = store (key_of r) id w.records }) s

  -- Write with the zone's identifier in hand, by what is known of the record's
  with_zone : String → Record → Writer → Option String → W → Option String × Writer × W
  unfolding update_record after_lookup
  with_zone zone_id r w (some id) s = update_record zone_id id r w s
  with_zone zone_id r w none s =
      let (answer, s') = provider.record_id token zone_id r.name r.kind s in
      after_lookup zone_id r w answer s'

  -- what Write does with the provider's answer to the zone's name
  after_zone : Record → Writer → Result String → W → Option String × Writer × W
  unfolding put find with_zone
  after_zone r w (err e) s =
      (some ("cannot find the zone " ⋅ r.zone ⋅ " at the provider: " ⋅ e), w, s)
  after_zone r w (ok id) s =
      with_zone id r (record w { zones = put r.zone id w.zones }) (find (key_of r) w.records) s

  write_known : Record → Writer → Option String → W → Option String × Writer × W
  unfolding find with_zone after_zone
  write_known r w (some id) s = with_zone id r w (find (key_of r) w.records) s
  write_known r w none s =
      let (answer, s') = provider.zone_id token r.zone s in after_zone r w answer s'

  unfoldable pub write : Record → Writer → W → Option String × Writer × W
  unfolding get write_known
  write r w s = write_known r w (get r.zone w.zones) s
