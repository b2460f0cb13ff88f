-- ===== src/Prelude/Results.antt =====
-- A Go result beside an error: the value, or the error's text.
use Prim.Native.String.{String}
use Prim.Native.String as Text

pub data Result {ℓ} (A : Type ℓ) : Type ℓ where
  ok : A → Result A
  err : String → Result A

infixr 60 ◌⋅◌
-- fmt.Sprintf and + on texts
abbrev pub ◌⋅◌ : String → String → String
s ⋅ t = Text.◌++◌ s t
