-- ===== src/Prelude/Strings.antt =====
-- Texts compared and put together, as `String` and `Option<String>` are.
use Prim.Native.String.{String, ◌++◌}
use text.Mathlib.Text.{◌==◌}
use text.Mathlib.TextEquality.{eq_iff}
use text.Mathlib.TextPositions.{eq_refl}
use mathlib.Core.Path.{◌≡◌, refl}
use mathlib.Core.Logic.{◌↔◌}
use mathlib.Core.Bool.{Bool, true, false}
use mathlib.Core.Option.{Option, none, some}
use native.Mathlib.Omega.{arith}

-- `String::push_str`.
abbrev pub push_str : String → String → String
push_str s t = s ++ t

-- `String == String`.
abbrev pub string_eq : String → String → Bool
string_eq s t = s == t

pub string_eq_iff : (s t : String) → (string_eq s t ≡ true) ↔ (s ≡ t)
string_eq_iff s t = eq_iff s t

pub string_eq_refl : (s : String) → string_eq s s ≡ true
string_eq_refl s = eq_refl s

-- `Option<String> == Option<String>`.
abbrev pub option_string_eq : Option String → Option String → Bool
option_string_eq none none = true
option_string_eq none (some t) = false
option_string_eq (some s) none = false
option_string_eq (some s) (some t) = s == t

pub option_string_eq_iff : (s t : Option String) → (option_string_eq s t ≡ true) ↔ (s ≡ t)
option_string_eq_iff none none = ((λ _. refl), (λ _. refl))
option_string_eq_iff none (some t) = ((λ h. cc), (λ h. cc))
option_string_eq_iff (some s) none = ((λ h. cc), (λ h. cc))
option_string_eq_iff (some s) (some t) = ground (arith, eq_iff s t)
