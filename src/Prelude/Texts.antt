-- ===== src/Prelude/Texts.antt =====
-- Go's functions on texts and paths, by recursion on the characters.
use Prim.Native.Nat.{ℕ, zero, suc, ◌/◌, ◌%◌}
use Prim.Native.Char.{code}
use Prim.Native.String.{String, [], ◌∷◌}
use mathlib.Core.Path.{◌≡◌, refl}
use mathlib.Core.Bool.{Bool, true, false, ◌||◌, ◌&&◌}
use mathlib.Core.Option.{Option, none, some}
use text.Mathlib.Text.{◌==◌ as ◌=ˢ◌}
use text.Mathlib.TextLemmas.{nil-append, cons-append}
use Prim.Native.String as Text
use regied.Prelude.Tests.{==_iff, leb, ltb, ◌==◌, if◌then◌else◌}

-- %d
digit_text : ℕ → String
digit_text d =
    if d == 0
    then "0"
    else if d == 1
    then "1"
    else if d == 2
    then "2"
    else if d == 3
    then "3"
    else if d == 4
    then "4"
    else if d == 5
    then "5"
    else if d == 6
    then "6"
    else if d == 7
    then "7"
    else if d == 8
    then "8"
    else "9"

-- A number has no more digits than it is large, so that the fuel of `decimal` is enough.
decimal_of : ℕ → ℕ → String
unfolding digit_text
decimal_of zero n = digit_text (n % 10)
decimal_of (suc fuel) n =
    let front = decimal_of fuel (n / 10) in
    if ltb n 10 then digit_text n else Text.◌++◌ front (digit_text (n % 10))

unfoldable pub decimal : ℕ → String
unfolding decimal_of
decimal n = decimal_of n n

-- strings.CutPrefix; `none` where the text does not begin so
unfoldable pub cut_prefix : String → String → Option String
cut_prefix s [] = some s
cut_prefix [] (p ∷ prefix) = none
cut_prefix (c ∷ s) (p ∷ prefix) =
    let rest = cut_prefix s prefix in if code c == code p then rest else none

abbrev pub is_some {ℓ} : {A : Type ℓ} → Option A → Bool
is_some none = false
is_some (some a) = true

-- strings.HasPrefix
unfoldable pub has_prefix : String → String → Bool
unfolding cut_prefix
has_prefix s prefix = is_some (cut_prefix s prefix)

-- strings.TrimPrefix
unfoldable pub trim_prefix : String → String → String
unfolding cut_prefix
trim_prefix s prefix = elim (cut_prefix s prefix) [ none ↦ s | some rest ↦ rest ]

-- strings.TrimSuffix
unfoldable pub trim_suffix : String → String → String
trim_suffix [] suffix = []
trim_suffix (c ∷ s) suffix =
    let rest = trim_suffix s suffix in if (c ∷ s) =ˢ suffix then [] else c ∷ rest

-- strings.Contains, of one character
unfoldable pub has_char : ℕ → String → Bool
has_char k [] = false
has_char k (c ∷ s) = let rest = has_char k s in if code c == k then true else rest

-- what stands before the last slash
before_last_slash : String → Option String
before_last_slash [] = none
before_last_slash (c ∷ s) =
    let rest = before_last_slash s in
    elim rest [ some d ↦ some (c ∷ d) | none ↦ if code c == b'/' then some [] else none ]

-- path.Dir of a path that is clean
unfoldable pub path_dir : String → String
unfolding before_last_slash
path_dir s = elim (before_last_slash s) [ none ↦ "." | some d ↦ if d =ˢ "" then "/" else d ]

-- path.Ext: from the last dot on, if no slash follows it
unfoldable pub path_ext : String → String
unfolding has_char
path_ext [] = []
path_ext (c ∷ s) =
    let rest = path_ext s in
    if rest =ˢ ""
    then (if code c == b'.' then (if has_char b'/' s then [] else c ∷ s) else [])
    else rest

texts_run :
    (path_dir "/etc/systemd/network/10-regied-lan.link" ≡ "/etc/systemd/network")
    × (path_ext "/etc/systemd/network/10-regied-lan.link" ≡ ".link")
    × (path_ext "/etc/a.d/b" ≡ "")
    × (trim_suffix "pppoe0.conf" ".conf" ≡ "pppoe0")
unfolding path_dir path_ext trim_suffix
texts_run = (refl, refl, refl, refl)

-- unicode.IsSpace
abbrev is_space : ℕ → Bool
is_space c =
    c == 9
    || c == 10
    || c == 11
    || c == 12
    || c == 13
    || c == 32
    || c == 133
    || c == 160
    || c == 5760
    || (leb 8192 c && leb c 8202)
    || c == 8232
    || c == 8233
    || c == 8239
    || c == 8287
    || c == 12288

trim_left : String → String
trim_left [] = []
trim_left (c ∷ s) = let rest = trim_left s in if is_space (code c) then rest else c ∷ s

-- a character is dropped if nothing but space follows it
trim_right : String → String
trim_right [] = []
trim_right (c ∷ s) =
    let rest = trim_right s in
    if rest =ˢ "" then (if is_space (code c) then [] else c ∷ []) else c ∷ rest

-- strings.TrimSpace
unfoldable pub trim_space : String → String
unfolding trim_left trim_right
trim_space s = trim_right (trim_left s)

trim_space_run : trim_space " a token\n" ≡ "a token"
unfolding trim_space
trim_space_run = refl

-- What both texts begin with does not matter.
pub cut_prefix-cancel :
    (p s q : String) → cut_prefix (Text.◌++◌ p s) (Text.◌++◌ p q) ≡ cut_prefix s q
unfolding cut_prefix
cut_prefix-cancel [] s q = rw (nil-append s, nil-append q) refl
cut_prefix-cancel (c ∷ p) s q =
    rw (cons-append c p s, cons-append c p q, (==_iff (code c) (code c)).1 refl)
      (cut_prefix-cancel p s q)

pub cut_prefix-append : (p s : String) → cut_prefix (Text.◌++◌ p s) p ≡ some s
unfolding cut_prefix
cut_prefix-append [] s = rw (nil-append s) refl
cut_prefix-append (c ∷ p) s =
    rw (cons-append c p s, (==_iff (code c) (code c)).1 refl) (cut_prefix-append p s)
