-- ===== src/Base/Names.antt =====
-- The conversion of a string into a type of constants.
use text.Mathlib.Text.{◌==◌ as str_eq}
use crypto_market_advisor.Base.Tests.{if◌then◌else◌}
use Prim.Native.String.{String}
use mathlib.Core.List.{List, [], ◌∷◌}

-- The value that a table gives to a name, or else `d`.
abbrev pub named {ℓ} : {A : Type ℓ} → String → List (String × A) → A → A
named s [] d = d
named s ((n, v) ∷ rest) d = let later = named s rest d in if str_eq n s then v else later
