-- ===== src/Prelude/Letters.antt =====
-- Go's strings.ToLower on ASCII letters, and strings.HasSuffix.
use Prim.Native.Nat.{ℕ, ◌+◌}
use Prim.Native.Char.{code}
use Prim.Native.String.{String, [], ◌∷◌}
use mathlib.Core.Path.{◌≡◌, refl}
use mathlib.Core.Bool.{Bool, true, false, ◌&&◌, ◌||◌}
use text.Mathlib.Text.{◌==◌ as ◌=ˢ◌}
use regied.Prelude.Tests.{leb, ◌==◌, if◌then◌else◌}
use regied.Prelude.Results.{◌⋅◌}

-- the letter at a position of the alphabet
letter : ℕ → String → String
letter k [] = []
letter k (c ∷ s) = if code c == k then c ∷ [] else letter k s

lower_char : ℕ → String → String
unfolding letter
lower_char k c =
    if leb b'A' k && leb k b'Z' then letter (k + 32) "abcdefghijklmnopqrstuvwxyz" else c

unfoldable pub to_lower : String → String
unfolding lower_char
to_lower [] = []
to_lower (c ∷ s) = lower_char (code c) (c ∷ []) ⋅ to_lower s

unfoldable pub has_suffix : String → String → Bool
has_suffix [] suffix = suffix =ˢ ""
has_suffix (c ∷ s) suffix = ((c ∷ s) =ˢ suffix) || has_suffix s suffix

letters_run :
    (to_lower "Host.Example.COM" ≡ "host.example.com")
    × (has_suffix "host.example.com" ".example.com" ≡ true)
    × (has_suffix "notexample.com" ".example.com" ≡ false)
unfolding to_lower has_suffix
letters_run = (refl, refl, refl)
