-- ===== src/Atoms.antt =====
-- client/src/components/atoms/TruncatedText and IconImage, and organisms/WalletAddressDisplay: long
-- texts cut short, and images of accounts. A text is the list of its UTF-16 code units, which `length` and `slice` count.
pub mod Truncation
use knowtfolio.Base.{
  ℕ, String, truthy?, zero, suc, ◌+◌, ◌-◌, Bool, Option, none, some, List, [], ◌∷◌, ◌++◌, length,
  take, drop, ltb, if◌then◌else◌,
}
use knowtfolio.React.View.{View, icon}

-- IconImage: the image of the address, or the default icon where there is none.
abbrev pub icon_image : {M E : Type 0} → Option String → View M E
icon_image url = icon (if truthy? url then url else none)

-- The text of TruncatedText.
abbrev pub dots : List ℕ
dots = b'.' ∷ b'.' ∷ b'.' ∷ []

-- `str.slice(0, m - 1)`; with m = 0 the end is -1, which leaves the last unit out.
unfoldable pub slice_head : List ℕ → ℕ → List ℕ
slice_head str zero = take (length str - 1) str
slice_head str (suc m) = take m str

-- `str.slice(-n, str.length)`; with n = 0 the start is -0, which is 0.
unfoldable pub slice_tail : List ℕ → ℕ → List ℕ
slice_tail str zero = str
slice_tail str (suc n) = drop (length str - suc n) str

unfoldable pub truncate : List ℕ → ℕ → ℕ → List ℕ
truncate str m n =
    if ltb (m + n) (length str) then slice_head str m ++ (dots ++ slice_tail str n) else str

-- The text of WalletAddressDisplay, "未登録" where there is no address.
abbrev pub not_registered : List ℕ
not_registered = 0x672A ∷ 0x767B ∷ 0x9332 ∷ []

unfoldable pub display_address : Option (List ℕ) → Bool → List ℕ
unfolding truncate
display_address none should_truncate = not_registered
display_address (some []) should_truncate = not_registered
display_address (some (c ∷ address)) should_truncate =
    if should_truncate then truncate (c ∷ address) 8 4 else c ∷ address
