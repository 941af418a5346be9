-- ===== src/Apis/Decimal.antt =====
-- `Number(text)` and `toString()` for the numbers in a page's address.
use Prim.Native.Char.{Char, code}
use knowtfolio.Base.{
  ℕ, zero, suc, ◌+◌, ◌-◌, ◌*◌, ◌/◌, ◌%◌, ◌^◌, ◌<◌, String, Bool, ◌&&◌, Option, none, some, ◌≡◌,
  refl, arith, ltb, leb, if◌then◌else◌, Bool-cases, inl, inr, ◌∙◌, ap, true, ltb→lt, lt→ltb,
}
use knowtfolio.Apis.Number.{Number, nat}

-- From here on the numbers of JavaScript are not exact.
abbrev pub max_exact : ℕ
max_exact = 2 ^ 53

abbrev digit_char : ℕ → Char
digit_char zero = "0"
digit_char (suc zero) = "1"
digit_char (suc (suc zero)) = "2"
digit_char (suc (suc (suc zero))) = "3"
digit_char (suc (suc (suc (suc zero)))) = "4"
digit_char (suc (suc (suc (suc (suc zero))))) = "5"
digit_char (suc (suc (suc (suc (suc (suc zero)))))) = "6"
digit_char (suc (suc (suc (suc (suc (suc (suc zero))))))) = "7"
digit_char (suc (suc (suc (suc (suc (suc (suc (suc zero)))))))) = "8"
digit_char _ = "9"

code-digit_char : (d : ℕ) → d < 10 → code (digit_char d) ≡ 48 + d
code-digit_char zero h = refl
code-digit_char (suc zero) h = refl
code-digit_char (suc (suc zero)) h = refl
code-digit_char (suc (suc (suc zero))) h = refl
code-digit_char (suc (suc (suc (suc zero)))) h = refl
code-digit_char (suc (suc (suc (suc (suc zero))))) h = refl
code-digit_char (suc (suc (suc (suc (suc (suc zero)))))) h = refl
code-digit_char (suc (suc (suc (suc (suc (suc (suc zero))))))) h = refl
code-digit_char (suc (suc (suc (suc (suc (suc (suc (suc zero)))))))) h = refl
code-digit_char (suc (suc (suc (suc (suc (suc (suc (suc (suc zero))))))))) h = refl
code-digit_char (suc (suc (suc (suc (suc (suc (suc (suc (suc (suc n)))))))))) h =
    absurd (omega arith)

print_from : ℕ → ℕ → String → String
print_from zero n acc = acc
print_from (suc fuel) n acc =
    let rest = print_from fuel (n / 10) (String.◌∷◌ (digit_char (n % 10)) acc) in
    if ltb n 10 then String.◌∷◌ (digit_char n) acc else rest

-- `n.toString()` below 10 ^ 21.
unfoldable pub to_string : ℕ → String
unfolding print_from
to_string n = print_from (suc n) n ""

abbrev is_digit : ℕ → Bool
is_digit c = leb 48 c && leb c 57

unfoldable pub parse_from : ℕ → String → Option ℕ
parse_from n String.[] = some n
parse_from n (String.◌∷◌ c s) =
    let rest = parse_from (n * 10 + (code c - 48)) s in if is_digit (code c) then rest else none

-- `Number(text)`, where null counts as 0, and so does the empty text. What is not an exact decimal
-- is read as the argument says.
unfoldable pub number : (String → Number) → Option String → Number
unfolding parse_from
number other none = nat 0
number other (some s) = elim (parse_from 0 s) [
  | none ↦ other s
  | some n ↦ if ltb n max_exact then nat n else other s
]

is_digit-digit : (d : ℕ) → d < 10 → is_digit (48 + d) ≡ true
is_digit-digit d h = ground arith

parse_from-digit :
    (n d : ℕ) (s : String)
    → d < 10
    → parse_from n (String.◌∷◌ (digit_char d) s) ≡ parse_from (n * 10 + d) s
unfolding parse_from
parse_from-digit n d s h = rw (code-digit_char d h) (
    rw (is_digit-digit d h)
      (ap (λ k. parse_from (n * 10 + k) s) (let e : 48 + d - 48 ≡ d = omega arith in e)))

parse_from-print_from :
    (fuel n : ℕ) (acc : String) → n < fuel → parse_from 0 (print_from fuel n acc) ≡ parse_from n acc
unfolding print_from
parse_from-print_from zero n acc h = absurd (omega arith)
parse_from-print_from (suc fuel) n acc h = elim (Bool-cases (ltb n 10)) [
  | inl small ↦
      rw small
        (parse_from-digit 0 n acc (ltb→lt n 10 small) ∙ ap (λ k. parse_from k acc) (omega arith))
  | inr large ↦ rw large (
      parse_from-print_from fuel (n / 10) (String.◌∷◌ (digit_char (n % 10)) acc) (ground arith)
      ∙ parse_from-digit (n / 10) (n % 10) acc (omega arith)
      ∙ ap (λ k. parse_from k acc) (omega arith))
]

-- A number below 2 ^ 53 is read back from its text.
pub number-to_string :
    (other : String → Number) (n : ℕ) → n < max_exact → number other (some (to_string n)) ≡ nat n
unfolding number to_string
number-to_string other n h =
    rw (parse_from-print_from (suc n) n "" (omega arith), number) (rw (lt→ltb n max_exact h) refl)
