-- ===== src/WebClient/Upload/Paths.antt =====
-- Paths that `URL` resolves at the origin that they are given.
use coffix.Prelude.{
  ℕ, ◌≡◌, refl, Bool, true, false, not, ◌&&◌, ◌||◌, some, [], ◌∷◌, ◌++◌, Text, codes, is_empty,
  ◌==◌,
}
use coffix.WebClient.Upload.{Urls, strip_slash, content_path}

-- The second character of `//host`, which a backslash may stand for and which may follow a tab or a line
-- end, since the parser of URLs drops these.
abbrev pub is_second_slash : ℕ → Bool
is_second_slash d = d == b'/' || d == 92 || d == 9 || d == 10 || d == 13

-- A path that starts with a slash and is not `//host`.
abbrev pub is_path : Text → Bool
is_path (c ∷ (d ∷ s)) = c == b'/' && not (is_second_slash d)
is_path s = false

-- `new URL(path, origin)` keeps the origin.
pub record UrlsLaws (U : Urls) : Type 0 where
  pub origin_of_path :
      (path : Text) (base address : U.Url)
      → is_path path ≡ true
      → U.new_url path (U.origin base) ≡ some address
      → U.origin address ≡ U.origin base

-- The API is at the root of its origin, or below a path.
abbrev pub is_base_path : Text → Bool
is_base_path pathname = is_empty (strip_slash pathname) || is_path (strip_slash pathname)

is_path-append : (s t : Text) → is_path s ≡ true → is_path (s ++ t) ≡ true
is_path-append [] t e = cc
is_path-append (c ∷ []) t e = cc
is_path-append (c ∷ (d ∷ s)) t e = e

pub own_path :
    (pathname upload_id : Text)
    → is_base_path pathname ≡ true
    → is_path (content_path pathname upload_id) ≡ true
own_path pathname upload_id e = from (strip_slash pathname) e
  where
    from :
        (s : Text)
        → (is_empty s || is_path s) ≡ true
        → is_path (s ++ (codes "/media/uploads/" ++ (upload_id ++ codes "/content"))) ≡ true
    from [] e = refl
    from (c ∷ s) e = is_path-append (c ∷ s) _ e
