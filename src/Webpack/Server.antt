-- ===== src/Webpack/Server.antt =====
-- Which addresses of the client the development server passes on.
use Prim.Native.String
use knowtfolio.Base.{
  String, Bool, true, false, not, ◌||◌, ◌&&◌, ◌≡◌, refl, arith, ap, Bool-cases, inl, inr,
}
use knowtfolio.Base.Text.{
  starts_with, anywhere, includes, has_no, append-eq-spell, not-anywhere, strip-has_no,
}
use knowtfolio.Webpack.{goes_to_server, dots_then, some_dots, behind, is_dot}

-- A text without a slash has no path in it.
not-anywhere_path :
    (p : String) (test : String → Bool) (s : String)
    → has_no b'/' s ≡ true
    → anywhere (behind (String.◌∷◌ "/" p) test) s ≡ false
not-anywhere_path p test s h = not-anywhere b'/' _ refl (λ c t e. ground arith) s h

not-includes_path : (p s : String) → has_no b'/' s ≡ true → includes (String.◌∷◌ "/" p) s ≡ false
not-includes_path p s h = not-anywhere b'/' _ refl (λ c t e. ground arith) s h

not-dots_then_path : (p s : String) → has_no b'/' s ≡ true → dots_then (String.◌∷◌ "/" p) s ≡ false
unfolding dots_then
not-dots_then_path p String.[] h = refl
not-dots_then_path p (String.◌∷◌ c String.[]) h = elim (Bool-cases (is_dot c)) [
  | inl e ↦ ap (λ b. b && false) e
  | inr e ↦ ap (λ b. b && false) e
]
not-dots_then_path p (String.◌∷◌ c (String.◌∷◌ d s)) h =
    ground (arith, not-dots_then_path p (String.◌∷◌ d s))

-- For an id without a slash that does not begin with the end of a line: the article's page is the
-- server's exactly when the id begins with "api" or does not begin with "new".
article_goes_to_server :
    (id : String)
    → some_dots id ≡ true
    → has_no b'/' id ≡ true
    → goes_to_server (String.◌++◌ "/articles/" id)
      ≡ (starts_with "api" id || not (starts_with "new" id))
unfolding goes_to_server anywhere
article_goes_to_server id h k = rw (append-eq-spell "/articles/" id) ground (
  arith,
  h,
  not-includes_path "api" id k,
  not-includes_path "articles/new" id k,
  not-anywhere_path "articles/" some_dots id k,
  not-anywhere_path "articles/" (dots_then "/edit") id k,
  not-dots_then_path "edit" id k,
  strip-has_no b'/' "articles/" id k refl,
  strip-has_no b'/' "articles/new" id k refl,
)
