-- ===== src/Webpack.antt =====
-- client/webpack.config.js: which requests the development server passes on to the server.
pub mod Server
pub mod Builds
pub mod Proxied
use Prim.Native.Char.{Char, code}
use Prim.Native.String
use knowtfolio.Base.{
  ℕ, String, Bool, true, false, not, ◌&&◌, ◌||◌, Option, none, some, List, [], ◌∷◌, ◌++◌,
  if◌then◌else◌, eqb,
}
use knowtfolio.Base.Text.{strip, starts_with, anywhere, includes}

-- `.` of a regular expression: any character but the ends of lines.
abbrev pub is_dot : Char → Bool
is_dot c = not (eqb (code c) 10 || eqb (code c) 13 || eqb (code c) 0x2028 || eqb (code c) 0x2029)

-- `.+` at the front of a text.
abbrev pub some_dots : String → Bool
some_dots String.[] = false
some_dots (String.◌∷◌ c s) = is_dot c

-- `.+` and then the suffix, at the front of a text.
unfoldable pub dots_then : String → String → Bool
dots_then suffix String.[] = false
dots_then suffix (String.◌∷◌ c s) =
    let rest = dots_then suffix s in is_dot c && (starts_with suffix s || rest)

abbrev pub behind : String → (String → Bool) → String → Bool
behind prefix test s = elim (strip prefix s) [ none ↦ false | some rest ↦ test rest ]

-- The two expressions /\/articles\/.+/ and /\/articles\/.+\/edit/, which may match anywhere.
abbrev pub is_article_path : String → Bool
is_article_path path = anywhere (behind "/articles/" some_dots) path

abbrev pub is_edit_path : String → Bool
is_edit_path path = anywhere (behind "/articles/" (dots_then "/edit")) path

-- The function `context` of the last proxy: the requests that go to the server.
unfoldable pub goes_to_server : String → Bool
unfolding anywhere dots_then
goes_to_server path =
    if includes "/api" path
    then true
    else if is_article_path path
    then not (includes "/articles/new" path) && not (is_edit_path path)
    else false
