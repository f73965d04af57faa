-- ===== src/Http/Request/Sizes.antt =====
-- src/httplib/httplib.cc: how many bytes a request line leaves.
use angel.Prelude.{
  ℕ, ◌+◌, ◌<◌, ◌≤◌, List, [], ◌∷◌, ◌++◌, arith, ltb, ◌==◌, codes, length, drop, take, length-drop,
  if◌then◌else◌, Option-holds,
}
use angel.Buffer.Search.{crlf, search_first}
use angel.Connection.Stream.{if-holds}
use angel.Util.{split, same}
use angel.Http.Uri.{before, from}
use angel.Http.Uri
use angel.Http.Message.Sizes.{is_ok}
use angel.Http.Request.{
  Request, Line, line, reversed, parse_version, parse_query, parse_uri, parse_words, parse_line,
  find_method, methods, uri_max_length,
}

-- A complete line leaves fewer bytes than these, any other at most these.
abbrev pub FewerLine : ℕ → Line → Type 0
FewerLine n reversed = Unit {0}
FewerLine n (line code r rest) = length rest + (if is_ok code then 1 else 0) ≤ n

module _ (n : ℕ) (buf rest : List ℕ) (whole : length buf ≤ n) (fewer : length rest < n) where
  version_lem : (version : List ℕ) (r : Request) → FewerLine n (parse_version version r buf rest)
  unfolding parse_version
  version_lem version r =
      let P = FewerLine n in
      if-holds P _ _ (same version (codes "HTTP/1.1")) (omega arith) (
        if-holds P _ _ (same version (codes "HTTP/1.0")) (omega arith)
          (if-holds P _ _ (same version (codes "HTTP/2.0")) (omega arith) (omega arith)))

  query_lem :
      (uri version : List ℕ) (r : Request) → FewerLine n (parse_query uri version r buf rest)
  unfolding parse_query
  query_lem uri version r =
      let P = FewerLine n in
      let query = Uri.parse_params (drop 1 (before b'#' (from b'?' uri))) r.query_params in
      if-holds P _ _ (length (from b'?' uri) == 0) (version_lem version r) (
        if-holds P _ _ (ltb (length (before b'#' uri)) (length (before b'?' uri) + 1)) tt (
          if-holds P _ _ (query.0) (version_lem version (record r { query_params = query.1 }))
            (omega arith)))

  uri_lem : (uri version : List ℕ) (r : Request) → FewerLine n (parse_uri uri version r buf rest)
  unfolding parse_uri
  uri_lem uri version r =
      let decoded = Uri.decode (before b'?' uri) in
      if-holds (FewerLine n) _ _ (decoded.0)
        (query_lem uri version (record r { abs_path = r.abs_path ++ decoded.1 })) (omega arith)

  words_lem : (words : List (List ℕ)) (r : Request) → FewerLine n (parse_words words r buf rest)
  words_lem [] r = omega arith
  words_lem (x ∷ []) r = omega arith
  words_lem (x ∷ y ∷ []) r = omega arith
  words_lem (method ∷ uri ∷ version ∷ []) r =
      Option-holds (FewerLine n) (find_method methods method) _ _ (omega arith)
        (λ m. uri_lem uri version (record r { req_method = m }))
  words_lem (x ∷ y ∷ z ∷ w ∷ words) r = omega arith

pub parse_line-FewerLine :
    (r : Request) (buf : List ℕ) → 0 < length buf → FewerLine (length buf) (parse_line r buf)
unfolding parse_line
parse_line-FewerLine r buf some_left =
    let P = FewerLine (length buf) in
    let same : length buf + 0 ≤ length buf = omega arith in
    Option-holds P (search_first crlf buf) _ _ same (λ i.
      if-holds P _ _ (ltb uri_max_length i) same (
        words_lem (length buf) buf (drop (i + 2) buf) (omega arith)
          (omega (arith, length-drop (i + 2) buf)) (split (take i buf) b' ') r))
