-- ===== src/Http/Request.antt =====
-- `request` of include/angel/httplib.h and src/httplib/httplib.cc, and the conditions that its
-- fields set.
pub mod Conditional
pub mod Sizes
use angel.Prelude.{
  ℕ, zero, suc, ◌+◌, ◌-◌, ◌*◌, ◌≡◌, List, [], ◌∷◌, ◌++◌, Bool, true, false, not, ◌&&◌, ◌||◌, Option,
  none, some, codes, leb, ltb, ◌==◌, length, drop, take, if◌then◌else◌,
}
use angel.Buffer.Search.{crlf, search_first}
use angel.Util.{same, split, equal_case}
use angel.Http.Uri.{Params, before, from, decode, parse_params}
use angel.Http.Message.{Headers, Message, same_key, find, is_some}
use angel.Http.Message
use angel.Http.Status.{
  StatusCode, ok, continue, bad_request, request_uri_too_long, http_version_not_supported,
}

pub data Version : Type 0 where
  http_version_1_0 : Version
  http_version_1_1 : Version

pub data Method : Type 0 where
  options : Method
  get : Method
  head : Method
  post : Method
  put : Method
  delete : Method
  trace : Method
  connect : Method

abbrev pub methods : List (List ℕ × Method)
methods =
    (codes "OPTIONS", options)
    ∷ (codes "GET", get)
    ∷ (codes "HEAD", head)
    ∷ (codes "POST", post)
    ∷ (codes "PUT", put)
    ∷ (codes "DELETE", delete)
    ∷ (codes "TRACE", trace)
    ∷ (codes "CONNECT", connect)
    ∷ []

abbrev pub find_method : List (List ℕ × Method) → List ℕ → Option Method
find_method [] s = none
find_method ((name, method) ∷ table) s =
    let rest = find_method table s in if same name s then some method else rest

pub data ParseState : Type 0 where
  parse_line_state : ParseState
  parse_header_state : ParseState
  parse_body_state : ParseState

pub record Request : Type 0 where
  pub message : Message
  pub state : ParseState
  pub req_method : Method
  pub abs_path : List ℕ
  pub http_version : Version
  pub query_params : Params
  pub has_file : Bool
  pub filesize : ℕ
  pub last_modified : List ℕ
  pub etag : List ℕ

-- What a line gives; a '#' before the '?' makes a range that ends before it begins.
pub data Line : Type 0 where
  line : StatusCode → Request → List ℕ → Line
  reversed : Line

abbrev pub uri_max_length : ℕ
uri_max_length = 1024 * 1024

unfoldable pub parse_version : List ℕ → Request → List ℕ → List ℕ → Line
parse_version version r buf rest =
    if same version (codes "HTTP/1.1")
    then line ok (record r { http_version = http_version_1_1 }) rest
    else if same version (codes "HTTP/1.0")
    then line ok (record r { http_version = http_version_1_0 }) rest
    else if same version (codes "HTTP/2.0")
    then line http_version_not_supported r buf
    else line bad_request r buf

unfoldable pub parse_query : List ℕ → List ℕ → Request → List ℕ → List ℕ → Line
unfolding parse_params parse_version
parse_query uri version r buf rest =
    let query = from b'?' uri in
    let parsed = parse_params (drop 1 (before b'#' query)) r.query_params in
    let r' = record r { query_params = parsed.1 } in
    if length query == 0
    then parse_version version r buf rest
    else if ltb (length (before b'#' uri)) (length (before b'?' uri) + 1)
    then reversed
    else if parsed.0
    then parse_version version r' buf rest
    else line bad_request r' buf

unfoldable pub parse_uri : List ℕ → List ℕ → Request → List ℕ → List ℕ → Line
unfolding decode parse_query
parse_uri uri version r buf rest =
    let decoded = decode (before b'?' uri) in
    let r' = record r { abs_path = r.abs_path ++ decoded.1 } in
    if decoded.0 then parse_query uri version r' buf rest else line bad_request r' buf

abbrev pub parse_words : List (List ℕ) → Request → List ℕ → List ℕ → Line
parse_words (method ∷ uri ∷ version ∷ []) r buf rest = elim (find_method methods method) [
  | none ↦ line bad_request r buf
  | some m ↦ parse_uri uri version (record r { req_method = m }) buf rest
]
parse_words words r buf rest = line bad_request r buf

unfoldable pub parse_line : Request → List ℕ → Line
unfolding parse_uri search_first split
parse_line r buf = elim (search_first crlf buf) [
  | none ↦ line continue r buf
  | some n ↦
      if ltb uri_max_length n
      then line request_uri_too_long r buf
      else parse_words (split (take n buf) b' ') r buf (drop (n + 2) buf)
]

unfoldable pub clear : Request → Request
unfolding Message.clear
clear r = record r {
  state = parse_line_state;
  abs_path = [];
  query_params = [];
  message = Message.clear r.message;
}

-- HTTP/1.1 keeps a connection alive by default.
unfoldable pub keepalive : Request → Bool
unfolding find equal_case
keepalive r = elim (find (codes "Connection") r.message.headers) [
  | none ↦ elim r.http_version [ http_version_1_1 ↦ true | http_version_1_0 ↦ false ]
  | some value ↦ equal_case value (codes "keep-alive")
]
