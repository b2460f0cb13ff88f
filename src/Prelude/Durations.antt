-- ===== src/Prelude/Durations.antt =====
-- Go's text of a time.Duration that is not negative, given in nanoseconds.
use regied.Prelude.{
  ℕ, zero, suc, ◌/◌, ◌%◌, ◌^◌, String, if◌then◌else◌, ltb, ◌==◌, ◌=ˢ◌, ◌⋅◌, decimal, ◌≡◌, refl,
}

-- the digits of a fraction, without the zeros it ends in
digits : ℕ → ℕ → String → String
unfolding decimal
digits zero v text = text
digits (suc places) v text =
    digits places (v / 10)
      (if (v % 10 == 0) then (if text =ˢ "" then "" else "0" ⋅ text) else decimal (v % 10) ⋅ text)

-- fmtFrac: a point and the digits, or nothing
fraction : ℕ → ℕ → String
unfolding digits
fraction places v =
    let text = digits places (v % 10 ^ places) "" in if text =ˢ "" then "" else "." ⋅ text

clock : ℕ → String
unfolding decimal
clock seconds =
    if ltb seconds 60
    then decimal seconds
    else if ltb seconds 3600
    then decimal (seconds / 60) ⋅ "m" ⋅ decimal (seconds % 60)
    else decimal (seconds / 3600) ⋅ "h" ⋅ decimal (seconds / 60 % 60) ⋅ "m" ⋅ decimal (seconds % 60)

-- Duration.String
unfoldable pub duration_text : ℕ → String
unfolding decimal fraction clock
duration_text d =
    if d == 0
    then "0s"
    else if ltb d 1000
    then decimal d ⋅ "ns"
    else if ltb d 1000000
    then decimal (d / 1000) ⋅ fraction 3 d ⋅ "µs"
    else if ltb d 1000000000
    then decimal (d / 1000000) ⋅ fraction 6 d ⋅ "ms"
    else clock (d / 1000000000) ⋅ fraction 9 d ⋅ "s"

durations_run :
    (duration_text 60000000000 ≡ "1m0s")
    × (duration_text 86400000000000 ≡ "24h0m0s")
    × (duration_text 1500000 ≡ "1.5ms")
    × (duration_text 90050000000 ≡ "1m30.05s")
unfolding duration_text
durations_run = (refl, refl, refl, refl)
