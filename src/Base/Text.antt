-- ===== src/Base/Text.antt =====
-- JavaScript's `split`, `startsWith` and `includes` on strings, by the codes of their characters.
use Prim.Native.Nat.{ℕ, ◌+◌, ◌-◌, ◌/◌, ◌%◌}
use Prim.Native.Char.{Char, code}
use Prim.Native.String
use Prim.Native.String.{String}
use mathlib.Core.Path.{◌≡◌, refl, ap, ◌∙◌}
use mathlib.Core.Bool.{Bool, true, false, ◌||◌}
use mathlib.Core.Option.{Option, none, some}
use mathlib.Core.List.{List, [], ◌∷◌, ◌++◌}
use native.Mathlib.Omega.{arith}
use text.Mathlib.TextLemmas.{nil-append, cons-append}
use knowtfolio.Base.Tests.{eqb, ltb, if◌then◌else◌}

-- The code units of UTF-16, which JavaScript's `length` and `slice` count.
abbrev pub units : ℕ → List ℕ
units c =
    if ltb c 0x10000
    then c ∷ []
    else (0xD800 + (c - 0x10000) / 0x400) ∷ (0xDC00 + (c - 0x10000) % 0x400) ∷ []

unfoldable pub utf16 : String → List ℕ
utf16 String.[] = []
utf16 (String.◌∷◌ c s) = units (code c) ++ utf16 s

-- The pieces of a text, of which there is at least one.
pub record Pieces : Type 0 where
  pub first : String
  pub rest : List String

-- `text.split(at)` for a separator of one character.
unfoldable pub split : ℕ → String → Pieces
split at String.[] = record { first = ""; rest = [] }
split at (String.◌∷◌ c s) =
    let p = split at s in
    if eqb (code c) at
    then record { first = ""; rest = p.first ∷ p.rest }
    else record { first = String.◌∷◌ c p.first; rest = p.rest }

-- `pop()`.
abbrev pub last_of : String → List String → String
last_of s [] = s
last_of s (t ∷ ts) = last_of t ts

-- The text without the prefix, if it begins so.
abbrev pub strip : String → String → Option String
strip String.[] s = some s
strip (String.◌∷◌ c p) String.[] = none
strip (String.◌∷◌ c p) (String.◌∷◌ d s) =
    let rest = strip p s in if eqb (code c) (code d) then rest else none

abbrev pub starts_with : String → String → Bool
starts_with p s = elim (strip p s) [ none ↦ false | some _ ↦ true ]

-- The test holds of the text from one of its positions on.
unfoldable pub anywhere : (String → Bool) → String → Bool
anywhere test String.[] = test ""
anywhere test (String.◌∷◌ c s) = let rest = anywhere test s in test (String.◌∷◌ c s) || rest

abbrev pub includes : String → String → Bool
includes p s = anywhere (starts_with p) s

-- The character is not in the text.
abbrev pub has_no : ℕ → String → Bool
has_no at String.[] = true
has_no at (String.◌∷◌ c s) = let rest = has_no at s in if eqb (code c) at then false else rest

-- `prefix + text`, one character at a time.
abbrev pub spell : String → String → String
spell String.[] s = s
spell (String.◌∷◌ c p) s = String.◌∷◌ c (spell p s)

pub append-eq-spell : (p s : String) → String.◌++◌ p s ≡ spell p s
append-eq-spell String.[] s = nil-append s
append-eq-spell (String.◌∷◌ c p) s =
    cons-append c p s ∙ ap (λ t. String.◌∷◌ c t) (append-eq-spell p s)

-- A text that the character is not in is its only piece.
pub split_one :
    (at : ℕ) (s : String) → has_no at s ≡ true → split at s ≡ record { first = s; rest = [] }
unfolding split
split_one at String.[] h = refl
split_one at (String.◌∷◌ c s) h = ground (arith, split_one at s)

-- A test that fails wherever the character does not come next fails in a text without it.
pub not-anywhere :
    (at : ℕ) (test : String → Bool)
    → test "" ≡ false
    → ((c : Char) (s : String) → eqb (code c) at ≡ false → test (String.◌∷◌ c s) ≡ false)
    → (s : String) → has_no at s ≡ true
    → anywhere test s ≡ false
unfolding anywhere
not-anywhere at test none' other String.[] h = none'
not-anywhere at test none' other (String.◌∷◌ c s) h =
    ground (arith, other c s, not-anywhere at test none' other s)

-- A text that the character is not in does not begin with a text that it is in.
pub strip-has_no :
    (at : ℕ) (p s : String) → has_no at s ≡ true → has_no at p ≡ false → strip p s ≡ none
strip-has_no at String.[] s h k = ground arith
strip-has_no at (String.◌∷◌ c p) String.[] h k = refl
strip-has_no at (String.◌∷◌ c p) (String.◌∷◌ d s) h k = ground (arith, strip-has_no at p s)
