-- ===== src/Prelude/Format.antt =====
-- Go's fmt and strings, as far as the renderers and the problems use them. A character outside
-- ASCII is quoted as it is, which Go does for those that it counts as printable.
use Prim.Native.Nat.{ℕ, zero, suc, ◌/◌, ◌%◌}
use Prim.Native.Char.{code}
use Prim.Native.String.{String, [], ◌∷◌}
use mathlib.Core.Path.{◌≡◌, refl}
use mathlib.Core.Bool.{◌||◌}
use mathlib.Core.List as List
use regied.Prelude.Tests.{ltb, ◌==◌, if◌then◌else◌}
use regied.Prelude.Texts.{decimal}
use regied.Prelude.Results.{◌⋅◌}

hex_digit : ℕ → String
unfolding decimal
hex_digit d =
    if ltb d 10
    then decimal d
    else if d == 10
    then "a"
    else if d == 11
    then "b"
    else if d == 12
    then "c"
    else if d == 13
    then "d"
    else if d == 14
    then "e"
    else "f"

-- A number has no more digits than it is large, so that the fuel of `hexadecimal` is enough.
hexadecimal_of : ℕ → ℕ → String
unfolding hex_digit
hexadecimal_of zero n = hex_digit (n % 16)
hexadecimal_of (suc fuel) n =
    let front = hexadecimal_of fuel (n / 16) in
    if ltb n 16 then hex_digit n else front ⋅ hex_digit (n % 16)

-- %x
unfoldable pub hexadecimal : ℕ → String
unfolding hexadecimal_of
hexadecimal n = hexadecimal_of n n

-- strings.Join
unfoldable pub join : String → List.List String → String
join sep List.[] = ""
join sep (List.◌∷◌ x List.[]) = x
join sep (List.◌∷◌ x (List.◌∷◌ y ys)) = x ⋅ sep ⋅ join sep (List.◌∷◌ y ys)

-- one character as strconv.Quote writes it between the quotes
quoted_char : ℕ → String → String
unfolding hex_digit
quoted_char k c =
    if k == 34
    then "\\\""
    else if k == 92
    then "\\\\"
    else if k == 7
    then "\\a"
    else if k == 8
    then "\\b"
    else if k == 9
    then "\\t"
    else if k == 10
    then "\\n"
    else if k == 11
    then "\\v"
    else if k == 12
    then "\\f"
    else if k == 13
    then "\\r"
    else if ltb k 32 || k == 127
    then "\\x" ⋅ hex_digit (k / 16) ⋅ hex_digit (k % 16)
    else c

quoted : String → String
unfolding quoted_char
quoted [] = []
quoted (c ∷ s) = quoted_char (code c) (c ∷ []) ⋅ quoted s

-- strconv.Quote and %q
unfoldable pub quote : String → String
unfolding quoted
quote s = "\"" ⋅ quoted s ⋅ "\""

-- a character before the first of the pieces
grow : String → List.List String → List.List String
grow c List.[] = List.◌∷◌ c List.[]
grow c (List.◌∷◌ x xs) = List.◌∷◌ (c ⋅ x) xs

-- strings.Split at one character
unfoldable pub split_at : ℕ → String → List.List String
unfolding grow
split_at k [] = List.◌∷◌ [] List.[]
split_at k (c ∷ s) =
    let rest = split_at k s in if code c == k then List.◌∷◌ [] rest else grow (c ∷ []) rest

format_run :
    (quote "a\"b\n" ≡ "\"a\\\"b\\n\"")
    × (hexadecimal 258 ≡ "102")
    × (split_at b',' "a,,b" ≡ List.◌∷◌ "a" (List.◌∷◌ "" (List.◌∷◌ "b" List.[])))
unfolding quote hexadecimal split_at
format_run = (refl, refl, refl)
