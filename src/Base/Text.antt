-- ===== src/Base/Text.antt =====
-- Texts: concatenation and Go's strings.Join.
use Prim.Native.Char.{code}
use Prim.Native.String
use Prim.Native.String.{String}
use text.Mathlib.Text.{◌==◌ as str_eq}
use text.Mathlib.TextEquality.{eq_iff}
use mathlib.Core.Path.{◌≡◌, refl}
use mathlib.Core.Logic.{◌≢◌, inl, inr}
use mathlib.Core.Bool.{true, false}
use mathlib.Core.List.{List, [], ◌∷◌}
use temporal_mistakes.Base.Tests.{Bool-cases, ◌==◌, if◌then◌else◌}

pub concat : List String → String
concat [] = ""
concat (s ∷ ss) = String.◌++◌ s (concat ss)

pub join : String → List String → String
join sep [] = ""
join sep (s ∷ []) = s
join sep (s ∷ t ∷ ss) = String.◌++◌ s (String.◌++◌ sep (join sep (t ∷ ss)))

-- strings.ReplaceAll(s, " ", "")
pub remove_spaces : String → String
remove_spaces String.[] = ""
remove_spaces (String.◌∷◌ c s) =
    if code c == b' ' then remove_spaces s else String.◌∷◌ c (remove_spaces s)

pub str_eq-other : (a b : String) → a ≢ b → str_eq a b ≡ false
str_eq-other a b n = elim (Bool-cases (str_eq a b)) [
  | inl e ↦ absurd (n ((eq_iff a b).0 e))
  | inr e ↦ e
]

pub str_eq-same : (a : String) → str_eq a a ≡ true
str_eq-same a = (eq_iff a a).1 refl
