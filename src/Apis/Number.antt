-- ===== src/Apis/Number.antt =====
-- The JavaScript numbers that the client computes with. Natural numbers up to 2 ^ 53 - 1 are exact;
-- of any other number only its sign matters to the client, and its text is kept.
use knowtfolio.Base.{ℕ, String, Bool, true, false, ltb}

pub data Number : Type 0 where
  nat : ℕ → Number
  positive : String → Number
  nonpositive : String → Number
  nan : Number

-- `n > 0`, which is false of NaN.
abbrev pub is_positive : Number → Bool
is_positive (nat n) = ltb 0 n
is_positive (positive s) = true
is_positive (nonpositive s) = false
is_positive nan = false
