-- ===== src/Prelude/Texts.antt =====
-- Texts put together from a prefix, and how to tell two of them apart.
use Prim.Native.Char.{code}
use Prim.Native.Nat.{ℕ, zero, suc}
use Prim.Native.String.{String}
use mathlib.Core.Bool.{Bool, true, false, ◌&&◌}
use mathlib.Core.List.{List, [], ◌∷◌}
use mathlib.Core.Logic.{◌≢◌}
use mathlib.Core.Option.{Option, none, some}
use mathlib.Core.Path.{◌≡◌, ap}
use native.Mathlib.Omega.{arith}
use open_profile_be.Prelude.Tests.{if◌then◌else◌, leb, nat_eq}
use text.Mathlib.Text.{◌==◌}
use text.Mathlib.TextEquality.{eq_iff}

-- A template literal `${prefix}${rest}`.
abbrev pub key : String → String → String
key String.[] rest = rest
key (String.◌∷◌ c prefix) rest = String.◌∷◌ c (key prefix rest)

-- `text.slice(n)`, by characters
abbrev pub drop_chars : ℕ → String → String
drop_chars zero s = s
drop_chars (suc n) String.[] = String.[]
drop_chars (suc n) (String.◌∷◌ c s) = drop_chars n s

-- An absent text and an empty text are falsy.
abbrev pub truthy : Option String → Option String
truthy none = none
truthy (some s) = if s == "" then none else some s

abbrev pub code_at : ℕ → String → ℕ
code_at i String.[] = 0
code_at zero (String.◌∷◌ c s) = code c
code_at (suc i) (String.◌∷◌ c s) = code_at i s

-- Two texts that differ at one place.
pub text_ne : (i : ℕ) (s t : String) → code_at i s ≢ code_at i t → (s == t) ≡ false
text_ne i s t h = ground (arith, eq_iff s t, λ (e : s ≡ t). h (ap (code_at i) e))

-- The characters of a text, by their codes.
abbrev pub codes : String → List ℕ
codes String.[] = []
codes (String.◌∷◌ c s) = code c ∷ codes s

abbrev pub is_between : ℕ → ℕ → ℕ → Bool
is_between low high n = leb low n && leb n high

abbrev pub starts_with : List ℕ → List ℕ → Bool
starts_with [] cs = true
starts_with (p ∷ prefix) [] = false
starts_with (p ∷ prefix) (c ∷ cs) = nat_eq p c && starts_with prefix cs
