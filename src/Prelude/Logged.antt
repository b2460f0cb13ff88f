-- ===== src/Prelude/Logged.antt =====
-- A value beside what was reported on the way to it, in the order of the reports: what a Go method
-- returns that appends to a list of its receiver.
use mathlib.Core.List.{List, [], ◌∷◌, ◌++◌}

pub record Logged (E : Type 0) (A : Type 0) : Type 0 where
  pub value : A
  pub reports : List E

infixl 5 ◌>>=◌ ◌>>◌
abbrev pub ◌>>=◌ : {E A B : Type 0} → Logged E A → (A → Logged E B) → Logged E B
m >>= f = record { value = (f m.value).value; reports = m.reports ++ (f m.value).reports }

abbrev pub ◌>>◌ : {E A B : Type 0} → Logged E A → Logged E B → Logged E B
m >> k = record { value = k.value; reports = m.reports ++ k.reports }

abbrev pub pure : {E A : Type 0} → A → Logged E A
pure a = record { value = a; reports = [] }

abbrev pub log : {E : Type 0} → E → Logged E (Unit {0})
log e = record { value = tt; reports = e ∷ [] }

-- a loop that appends what each element gives
unfoldable pub each : {E A B : Type 0} → (A → Logged E (List B)) → List A → Logged E (List B)
each f [] = pure []
each f (x ∷ xs) = do ys ← f x; rest ← each f xs; pure (ys ++ rest)
