-- ===== src/Pages/Article/Escaped.antt =====
-- The escaping of a text in HTML, by which a browser writes the text of an element in its
-- `innerHTML`, as ArticlePage/index.tsx reads it.
use Prim.Native.Char.{Char, code}
use knowtfolio.Base.{
  ℕ, ◌+◌, ◌≤◌, String, Bool, true, false, eqb, ◌≡◌, ◌↔◌, refl, ap, arith, if◌then◌else◌,
}
use knowtfolio.Base.Text.{spell}

-- The characters that have an entity in a text, and the others.
pub data Kind : Type 0 where
  ampersand no_break_space less_than greater_than : Kind
  plain : Kind

unfoldable pub kind : Char → Kind
kind c =
    if eqb (code c) 0x26
    then ampersand
    else if eqb (code c) 0xA0
    then no_break_space
    else if eqb (code c) 0x3C
    then less_than
    else if eqb (code c) 0x3E
    then greater_than
    else plain

-- The character, or its entity, before the rest of the text.
abbrev pub write : Kind → Char → String → String
write ampersand c s = spell "&amp;" s
write no_break_space c s = spell "&nbsp;" s
write less_than c s = spell "&lt;" s
write greater_than c s = spell "&gt;" s
write plain c s = String.◌∷◌ c s

unfoldable pub escape : String → String
unfolding kind
escape String.[] = String.[]
escape (String.◌∷◌ c s) = write (kind c) c (escape s)

abbrev pub and_plain : Kind → Bool → Bool
and_plain plain b = b
and_plain _ b = false

-- No character of the text has an entity.
unfoldable pub all_plain : String → Bool
unfolding kind
all_plain String.[] = true
all_plain (String.◌∷◌ c s) = and_plain (kind c) (all_plain s)

-- The number of characters.
unfoldable count : String → ℕ
count String.[] = 0
count (String.◌∷◌ c s) = 1 + count s

plain-write :
    (k : Kind) (b : Bool) (c : Char) (s t : String)
    → and_plain k b ≡ true
    → (b ≡ true → t ≡ s)
    → write k c t ≡ String.◌∷◌ c s
plain-write plain b c s t h e = ap (λ t'. String.◌∷◌ c t') (e h)
plain-write ampersand b c s t h e = ground arith
plain-write no_break_space b c s t h e = ground arith
plain-write less_than b c s t h e = ground arith
plain-write greater_than b c s t h e = ground arith

escape-plain : (s : String) → all_plain s ≡ true → escape s ≡ s
unfolding all_plain escape
escape-plain String.[] h = refl
escape-plain (String.◌∷◌ c s) h =
    plain-write (kind c) (all_plain s) c s (escape s) h (escape-plain s)

count-write : (k : Kind) (c : Char) (s : String) → 1 + count s ≤ count (write k c s)
unfolding count
count-write ampersand c s = omega arith
count-write no_break_space c s = omega arith
count-write less_than c s = omega arith
count-write greater_than c s = omega arith
count-write plain c s = omega arith

count-escape : (s : String) → count s ≤ count (escape s)
unfolding escape count
count-escape String.[] = omega arith
count-escape (String.◌∷◌ c s) =
    let h = count-escape s in let k = count-write (kind c) c (escape s) in omega arith

-- Only a plain character takes one character.
write_one :
    (k : Kind) (b : Bool) (c : Char) (s : String)
    → count (write k c s) ≤ 1 + count s
    → b ≡ true
    → and_plain k b ≡ true
unfolding count
write_one plain b c s h e = e
write_one ampersand b c s h e = absurd (omega arith)
write_one no_break_space b c s h e = absurd (omega arith)
write_one less_than b c s h e = absurd (omega arith)
write_one greater_than b c s h e = absurd (omega arith)

no_longer : (s : String) → count (escape s) ≤ count s → all_plain s ≡ true
unfolding escape count all_plain
no_longer String.[] h = refl
no_longer (String.◌∷◌ c s) h =
    let k = count-write (kind c) c (escape s) in
    let l = count-escape s in
    write_one (kind c) (all_plain s) c (escape s) (omega arith) (no_longer s (omega arith))

-- A text is its own escaped form exactly when none of its characters has an entity.
pub escape_fixed_iff : (s : String) → (escape s ≡ s) ↔ (all_plain s ≡ true)
escape_fixed_iff s = (
  λ e. no_longer s (let same : count (escape s) ≡ count s = ap count e in omega arith),
  escape-plain s,
)
