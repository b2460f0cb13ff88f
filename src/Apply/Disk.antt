-- ===== src/Apply/Disk.antt =====
-- A host in memory, as the fakes of internal/apply/engine_test.go are: files by path, and the commands
-- that were run. It shows that the laws asked of a host hold of one.
use regied.Prelude.{
  ◌⋅◌, ◌++◌, has_char, cut_prefix, ℕ, String, ◌≡◌, refl, Bool, true, false, Option, none, some,
  List, [], ◌∷◌, ◌=ˢ◌, if◌then◌else◌, get, put, remove, get-put, get-remove, eq_iff, arith, Result,
  ok, err,
}
use Prim.Native.String as Text
use Prim.Native.String.{◌∷◌ as text_cons}
use regied.Ddns.{Provider}
use regied.Apply.Types.{Phase, networkd, Command, OwedStep}
use regied.Apply.Host.{FileAnswer, found, missing, Host, FileLaws, KeptByFiles}
use regied.Apply.Owed.{Codec}
use regied.Apply.Settling.Readback.{CodecLaws}

pub record Disk : Type 0 where
  pub files : List (String × (String × ℕ))
  pub commands : List Command

unfoldable pub file_answer : Option (String × ℕ) → FileAnswer
file_answer none = missing
file_answer (some f) = found f.0 f.1

unfoldable pub disk_provider : Provider Disk
disk_provider = record {
  zone_id = λ token name d. (ok "zone", d);
  record_id = λ token zone name kind d. (ok none, d);
  create = λ token zone r d. if token =ˢ "bad" then (err "forbidden", d) else (ok "record", d);
  update = λ token zone id r d. (none, d);
}

-- systemctl is not there
abbrev run_on_disk : Command → Disk → Option String × Disk
run_on_disk c d =
    if c.name =ˢ "systemctl"
    then (some "command not found", d)
    else (none, record d { commands = c ∷ d.commands })

-- the names of the files directly in a directory
name_in : String → Option String → List String
unfolding has_char
name_in path none = []
name_in path (some name) = if has_char b'/' name then [] else name ∷ []

names_of : String → List (String × (String × ℕ)) → List String
unfolding name_in cut_prefix
names_of path [] = []
names_of path ((file, _) ∷ files) =
    let rest = names_of path files in name_in path (cut_prefix file (path ⋅ "/")) ++ rest

unfoldable pub disk : Host Disk
unfolding names_of file_answer disk_provider get put remove
disk = record {
  list_dir = λ path d. ok (names_of path d.files);
  read_file = λ path d. file_answer (get path d.files);
  write_file = λ path content mode d. (none, record d { files = put path (content, mode) d.files });
  make_dir = λ path mode d. (none, d);
  remove_file = λ path d. (none, record d { files = remove path d.files });
  set_sysctl = λ key value d. (none, d);
  run_command = run_on_disk;
  provider = disk_provider;
}

same_key : (k : String) → (k =ˢ k) ≡ true
same_key k = (eq_iff k k).1 refl

pub disk-FileLaws : FileLaws disk
unfolding disk file_answer
disk-FileLaws = record {
  read_written = λ path content mode d e. rw (get-put, same_key path) refl;
  read_removed = λ path d e. rw (get-remove, same_key path) refl;
}

-- No command was run but those in the list.
unfoldable pub HasRun : List Command → Disk → Type 0
HasRun cs d = d.commands ≡ cs

pub disk-KeptByFiles : (cs : List Command) → KeptByFiles disk (HasRun cs)
unfolding disk HasRun
disk-KeptByFiles cs = record {
  written = λ path content mode d h. h;
  made = λ path mode d h. h;
  removed = λ path d h. h;
}

-- A codec of lists with one step of networkd's phase, without a reason and arguments
is_networkd : Phase → Bool
is_networkd networkd = true
is_networkd _ = false

encode_fields : Bool → String → String → List String → Result String
encode_fields true Text.[] name [] = ok name
encode_fields _ _ _ _ = err "not one"

encode_one : List OwedStep → Result String
unfolding is_networkd encode_fields
encode_one [] = err "none"
encode_one (o ∷ []) = encode_fields (is_networkd o.phase) o.reason o.name o.args
encode_one (o ∷ p ∷ os) = err "many"

abbrev decoded_one : String → Result (List OwedStep)
decoded_one text = ok (record { phase = networkd; reason = ""; name = text; args = [] } ∷ [])

unfoldable pub one_codec : Codec
unfolding encode_one
one_codec = record { encode = encode_one; decode = decoded_one }

only_networkd : (p : Phase) → is_networkd p ≡ true → networkd ≡ p
unfolding is_networkd
only_networkd p h = ground arith

decode_fields :
    (p : Phase) (b : Bool) (reason name : String) (args : List String) (text : String)
    → is_networkd p ≡ b
    → encode_fields b reason name args ≡ ok text
    → decoded_one text ≡ ok (record { phase = p; reason = reason; name = name; args = args } ∷ [])
unfolding encode_fields
decode_fields p true Text.[] name [] text h e = let q = only_networkd p h in cc
decode_fields p true Text.[] name (a ∷ args) text h e = cc
decode_fields p true (text_cons c reason) name args text h e = cc
decode_fields p false reason name args text h e = cc

decode_one :
    (owed : List OwedStep) (text : String) → encode_one owed ≡ ok text → decoded_one text ≡ ok owed
unfolding encode_one
decode_one [] text e = cc
decode_one (o ∷ []) text e =
    decode_fields o.phase (is_networkd o.phase) o.reason o.name o.args text refl e
decode_one (o ∷ p ∷ os) text e = cc

pub one_codec-CodecLaws : CodecLaws one_codec
unfolding one_codec
one_codec-CodecLaws = record { decode-encode = decode_one }
