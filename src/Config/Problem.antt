-- ===== src/Config/Problem.antt =====
-- internal/config/problem.go: what is wrong with a declaration, and its text.
use regied.Prelude.{
  ℕ, String, Bool, true, false, ◌||◌, List, [], ◌∷◌, map, if◌then◌else◌, ltb, ◌=ˢ◌, ◌⋅◌, decimal,
  join,
}

pub data Severity : Type 0 where
  an_error a_warning : Severity

pub record Problem : Type 0 where
  pub severity : Severity
  pub resource : String
  pub field : String
  pub line : ℕ
  pub message : String

abbrev severity_text : Severity → String
severity_text an_error = ""
severity_text a_warning = "warning: "

-- Problem.String
unfoldable pub problem_text : Problem → String
unfolding decimal
problem_text p =
    severity_text p.severity
    ⋅ (if p.resource =ˢ ""
        then ""
        else p.resource ⋅ (if ltb 0 p.line then " (line " ⋅ decimal p.line ⋅ ")" else "") ⋅ ": ")
    ⋅ (if p.field =ˢ "" then "" else p.field ⋅ ": ")
    ⋅ p.message

-- Problems.String
unfoldable pub problems_text : List Problem → String
unfolding problem_text join
problems_text ps = join "\n" (map (λ p. "  " ⋅ problem_text p) ps)

abbrev pub is_error : Severity → Bool
is_error an_error = true
is_error a_warning = false

-- HasErrors
unfoldable pub has_errors : List Problem → Bool
has_errors [] = false
has_errors (p ∷ ps) = is_error p.severity || has_errors ps

-- Warnings
unfoldable pub warnings : List Problem → List Problem
warnings [] = []
warnings (p ∷ ps) = let rest = warnings ps in if is_error p.severity then rest else p ∷ rest

-- ValidationError.Error
unfoldable pub validation_error_text : String → List Problem → String
unfolding problems_text
validation_error_text path ps =
    (if path =ˢ "" then "invalid configuration" else "invalid configuration in " ⋅ path)
    ⋅ ":\n"
    ⋅ problems_text ps
