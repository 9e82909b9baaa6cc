-- ===== src/Activity/RetryAfter.antt =====
-- internal/activityhelpers/http.go: `ParseRetryAfter`, over the code points of the header. HTTP
-- dates, http.ParseTime and Time.Sub, are parameters.
use temporal_mistakes.Base.{
  ℕ, ◌+◌, ◌-◌, ◌*◌, ◌^◌, Option, none, some, Bool, true, false, ◌&&◌, ◌||◌, List, [], ◌∷◌, ℤ, pos,
  ltb_ℤ, leb, ◌==◌, mul64, if◌then◌else◌,
}
use temporal_mistakes.Sdk.{second}

-- unicode.IsSpace
unfoldable pub is_space : ℕ → Bool
is_space c =
    (leb 9 c && leb c 13)
    || (c == 32 || c == 0x85 || c == 0xa0 || c == 0x1680)
    || ((leb 0x2000 c && leb c 0x200a)
        || (c == 0x2028 || c == 0x2029 || c == 0x202f || c == 0x205f || c == 0x3000))

-- strings.TrimSpace
unfoldable pub trim_left : List ℕ → List ℕ
trim_left [] = []
trim_left (c ∷ s) = let rest = trim_left s in if is_space c then rest else c ∷ s

abbrev is_empty : List ℕ → Bool
is_empty [] = true
is_empty (_ ∷ _) = false

unfoldable pub trim_right : List ℕ → List ℕ
trim_right [] = []
trim_right (c ∷ s) = let rest = trim_right s in if is_space c && is_empty rest then [] else c ∷ rest

unfoldable pub trim_space : List ℕ → List ℕ
trim_space s = trim_right (trim_left s)

abbrev pub max_uint32 : ℕ
max_uint32 = 2 ^ 32 - 1

unfoldable pub is_digit : ℕ → Bool
is_digit c = leb b'0' c && leb c b'9'

-- strconv.ParseUint(s, 10, 32): `none` is an error, of syntax or of range.
unfoldable pub parse_digits : ℕ → List ℕ → Option ℕ
parse_digits n [] = some n
parse_digits n (c ∷ s) =
    let rest = parse_digits (n * 10 + (c - b'0')) s in
    if is_digit c && leb (n * 10 + (c - b'0')) max_uint32 then rest else none

unfoldable pub parse_uint : List ℕ → Option ℕ
parse_uint [] = none
parse_uint (c ∷ s) = parse_digits 0 (c ∷ s)

module _ {Time : Type 0} (parse_time : List ℕ → Option Time) (sub : Time → Time → ℤ) where
  unfoldable pub parse_date : List ℕ → Time → ℤ
  parse_date value now = elim (parse_time value) [
    | none ↦ pos 0
    | some t ↦ if ltb_ℤ (pos 0) (sub t now) then sub t now else pos 0
  ]

  abbrev pub seconds_or : Option ℕ → ℤ → ℤ
  seconds_or (some secs) date = mul64 (pos secs) second
  seconds_or none date = date

  -- After the trim.
  unfoldable pub parse_trimmed : List ℕ → Time → ℤ
  parse_trimmed [] now = pos 0
  parse_trimmed (c ∷ s) now = seconds_or (parse_uint (c ∷ s)) (parse_date (c ∷ s) now)

  unfoldable pub parse_retry_after : List ℕ → Time → ℤ
  parse_retry_after value now = parse_trimmed (trim_space value) now
