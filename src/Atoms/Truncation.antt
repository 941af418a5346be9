-- ===== src/Atoms/Truncation.antt =====
-- How long a truncated text is.
use knowtfolio.Base.{
  ℕ, zero, suc, ◌+◌, ◌-◌, ◌≤◌, ◌<◌, true, some, List, [], ◌∷◌, ◌++◌, length, take, drop,
  length-append, ◌≡◌, refl, arith, ap, ◌∙◌,
}
use knowtfolio.Atoms.{dots, slice_head, slice_tail, truncate, display_address}

length-take : (n : ℕ) (s : List ℕ) → n ≤ length s → length (take n s) ≡ n
length-take zero s h = refl
length-take (suc n) [] h = absurd (omega arith)
length-take (suc n) (x ∷ s) h = omega (arith, length-take n s)

length-drop : (n : ℕ) (s : List ℕ) → length (drop n s) ≡ length s - n
length-drop zero s = omega arith
length-drop (suc n) [] = omega arith
length-drop (suc n) (x ∷ s) = omega (arith, length-drop n s)

length-slice_head : (s : List ℕ) (m : ℕ) → m < length s → length (slice_head s (suc m)) ≡ m
unfolding slice_head
length-slice_head s m h = length-take m s (omega arith)

length-slice_tail : (s : List ℕ) (n : ℕ) → suc n ≤ length s → length (slice_tail s (suc n)) ≡ suc n
unfolding slice_tail
length-slice_tail s n h = omega (arith, length-drop (length s - suc n) s)

length-shortened :
    (s : List ℕ) (m n : ℕ)
    → suc m + suc n < length s
    → length (slice_head s (suc m) ++ (dots ++ slice_tail s (suc n))) ≡ suc m + suc n + 2
length-shortened s m n h = omega (
  arith,
  length-append (slice_head s (suc m)) (dots ++ slice_tail s (suc n)),
  length-append dots (slice_tail s (suc n)),
  length-slice_head s m (omega arith),
  length-slice_tail s n (omega arith),
)

truncate-short : (s : List ℕ) (m n : ℕ) → length s ≤ m + n → truncate s m n ≡ s
unfolding truncate
truncate-short s m n h = ground arith

truncate-long :
    (s : List ℕ) (m n : ℕ)
    → m + n < length s
    → truncate s m n ≡ slice_head s m ++ (dots ++ slice_tail s n)
unfolding truncate
truncate-long s m n h = ground arith

-- For positive m and n: a text of at most m + n units is left as it is, and any longer one is shown
-- in m + n + 2 units, so that a text of m + n + 1 units grows.
pub length-truncate :
    (s : List ℕ) (m n : ℕ)
    → 0 < m
    → 0 < n
    → (length s ≤ m + n → truncate s m n ≡ s)
      × (m + n < length s → length (truncate s m n) ≡ m + n + 2)
length-truncate s zero n hm hn = absurd (omega arith)
length-truncate s (suc m) zero hm hn = absurd (omega arith)
length-truncate s (suc m) (suc n) hm hn = (
  truncate-short s (suc m) (suc n),
  λ h. ap length (truncate-long s (suc m) (suc n) h) ∙ length-shortened s m n h,
)

-- A truncated address of more than twelve units is shown in fourteen.
length-display_address :
    (address : List ℕ) → 12 < length address → length (display_address (some address) true) ≡ 14
unfolding display_address
length-display_address [] h = absurd (omega arith)
length-display_address (c ∷ s) h = (length-truncate (c ∷ s) 8 4 (omega arith) (omega arith)).1 h
