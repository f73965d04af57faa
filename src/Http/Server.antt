-- ===== src/Http/Server.antt =====
-- `http_server` of src/httplib/httplib.cc. The file system, the MIME types, the users' handlers,
-- the order of the fields and the date are arguments; what is done to files is a list of calls.
pub mod Handler
use angel.Prelude.{
  ℕ, zero, suc, ◌*◌, List, [], ◌∷◌, ◌++◌, Bool, not, Option, none, some, codes, ltb, if◌then◌else◌,
}
use angel.Util.{same}
use mathlib.Core.Option
use angel.Http.Message.{
  Headers, Outcome, parsed, overrun, find, is_some, parse_header, parse_body_length, parse_body,
}
use angel.Http.Ranges.{handle_range_request}
use angel.Http.Request.{
  Request, Method, ParseState, Line, line, reversed, options, get, head, post, put, delete, trace,
  connect, parse_line, parse_line_state, parse_header_state, parse_body_state, keepalive,
}
use angel.Http.Request
use angel.Http.Request.Conditional.{
  ConditionCode, no_header, successful, failed, send_err, handle_conditional, expect,
}
use angel.Http.Response.{Response, file, set_status_code, add_header, send, conn_close, to_string}
use angel.Http.Status.{
  StatusCode, ok, continue, created, no_content, bad_request, not_found, not_implemented,
  internal_server_error,
}

pub data FileCall : Type 0 where
  truncated : List ℕ → FileCall
  written : List ℕ → List ℕ → FileCall
  unlinked : List ℕ → FileCall

-- What the file system answers for a path.
pub record Files : Type 0 where
  pub is_regular_file : List ℕ → Bool
  pub get_file_size : List ℕ → ℕ
  pub get_last_modified : List ℕ → List ℕ
  pub generate_file_etag : List ℕ → List ℕ
  pub contents : List ℕ → List ℕ
  pub opens : List ℕ → Bool
  pub writes : List ℕ → Bool
  pub get_mime_type : List ℕ → List ℕ

-- The handlers of one method; `none` is a method for which none was registered, for which
-- `router.at` throws.
abbrev pub Table : Type 0
Table = List ℕ → Option (Request → Response → Response)

pub record Server : Type 0 where
  pub router : Method → Option Table
  pub file_table : List ℕ → Option (Request → Headers → Headers)
  pub base_dir : List ℕ
  pub files : Files
  pub iterate : Headers → Headers
  pub date : List ℕ
  pub boundary : List ℕ

-- A request that is answered, or an exception.
pub data Served : Type 0 where
  served : Request → Response → List FileCall → Served
  thrown : Served

abbrev pub index_page : List ℕ
index_page =
    codes "<html>\n<head><title>angel-server</title></head>\n<body>\n"
    ++ codes "<center><h1>Welcome to angel-server!</h1></center>\n</body>\n</html>\n"

module _ (s : Server) where
  abbrev pub reply : List ℕ → Response → Response
  reply body res = send s.iterate s.date body res

  abbrev pub reply_err : StatusCode → Response → Response
  reply_err code res = send_err s.iterate s.date (set_status_code code res)

  -- A file below 256 KB is read and sent with the head.
  unfoldable pub send_file : Request → Response → Response
  unfolding set_status_code add_header to_string send
  send_file r res =
      let res1 =
        add_header (codes "Content-Type") (s.files.get_mime_type r.abs_path)
          (set_status_code ok res) in
      let res2 = reply [] (add_header (codes "Content-Length") (to_string r.filesize) res1) in
      if ltb r.filesize (256 * 1024)
      then reply (s.files.contents r.abs_path) res1
      else record res2 { sent = res2.sent ++ file 0 r.filesize ∷ [] }

  -- Update or create a file; a request without `Host` throws, but is refused before.
  unfoldable pub update_file : Request → Response → Served
  unfolding set_status_code add_header send send_err find
  update_file r res =
      let path = r.abs_path in
      let code = if r.has_file then no_content else created in
      if not (s.files.opens path)
      then served r (reply_err internal_server_error res) []
      else if not (s.files.writes path)
      then served r (reply_err internal_server_error res) (truncated path ∷ [])
      else elim (find (codes "Host") r.message.headers) [
        | none ↦ thrown
        | some host ↦
            served r
              (reply [] (
                add_header (codes "Location") (codes "http://" ++ (host ++ path))
                  (set_status_code code res)))
              (truncated path ∷ written path r.message.body ∷ [])
      ]

  unfoldable pub delete_file : Request → Response → Served
  unfolding set_status_code send
  delete_file r res =
      served r (reply [] (set_status_code no_content res))
        (if r.has_file then unlinked r.abs_path ∷ [] else [])

  unfoldable pub handle_file_router : Request → Response → Response
  handle_file_router r res = elim (s.file_table r.abs_path) [
    | none ↦ res
    | some handler ↦ record res { headers = handler r res.headers }
  ]

  -- The answer of a GET or HEAD whose conditions hold.
  unfoldable pub send_entity : Request → Response → Response
  unfolding handle_file_router handle_range_request send_file send set_status_code add_header find
      to_string
  send_entity r res =
      let res' = handle_file_router r res in
      let head_only =
        reply []
          (add_header (codes "Content-Length") (to_string r.filesize) (set_status_code ok res)) in
      let ranged = elim (find (codes "Range") r.message.headers) as (λ o. Response) [
        | none ↦ send_file r res'
        | some range ↦
            handle_range_request s.iterate s.date s.boundary (s.files.get_mime_type r.abs_path)
              (send_file r) r.filesize range res'
      ] in
      elim r.req_method [ get ↦ ranged | head ↦ head_only | _ ↦ res ]

  unfoldable pub handle_existing : Request → Response → Served
  unfolding add_header handle_conditional send_entity
  handle_existing r res =
      let r1 = record r {
        filesize = s.files.get_file_size r.abs_path;
        last_modified = s.files.get_last_modified r.abs_path;
        etag = s.files.generate_file_etag r.abs_path;
      } in
      let res1 = add_header (codes "ETag") r1.etag (
        add_header (codes "Accept-Ranges") (codes "bytes")
          (add_header (codes "Last-Modified") r1.last_modified res)) in
      let checked = handle_conditional s.iterate s.date r1 res1 in
      let r2 = checked.0 in
      let res2 = checked.1.1 in
      elim (checked.1.0) [ failed ↦ served r2 res2 [] | _ ↦ served r2 (send_entity r2 res2) [] ]

  unfoldable pub handle_static_file_request : Request → Response → Served
  unfolding update_file delete_file handle_existing send send_err set_status_code
  handle_static_file_request r res =
      let root = same r.abs_path (codes "/") in
      let path = s.base_dir ++ (if root then r.abs_path ++ codes "index.html" else r.abs_path) in
      let r1 = record r { abs_path = path; has_file = s.files.is_regular_file path } in
      let missing =
        if root
        then served r1 (reply index_page (set_status_code ok res)) []
        else served r1 (reply_err not_found res) [] in
      elim r.req_method [
        | put ↦ update_file r1 res
        | delete ↦ delete_file r1 res
        | _ ↦ if r1.has_file then handle_existing r1 res else missing
      ]

  -- With the handler for the path, or without.
  unfoldable pub handle_user_router : Request → Response → Option (Option Response)
  handle_user_router r res = elim (s.router r.req_method) [
    | none ↦ none
    | some table ↦ elim (table r.abs_path) [
      | none ↦ some none
      | some handler ↦ some (some (handler r res))
    ]
  ]

  unfoldable pub dispatch : Request → Response → Served
  unfolding handle_user_router handle_static_file_request send_err set_status_code
  dispatch r res = elim r.req_method [
    | get ↦ elim (handle_user_router r res) [
      | none ↦ thrown
      | some none ↦ handle_static_file_request r res
      | some (some res') ↦ served r res' []
    ]
    | head ↦ handle_static_file_request r res
    | post ↦ elim (handle_user_router r res) [
      | none ↦ thrown
      | some none ↦ served r res []
      | some (some res') ↦ served r res' []
    ]
    | put ↦ handle_static_file_request r res
    | delete ↦ handle_static_file_request r res
    | _ ↦ served r (reply_err not_implemented res) []
  ]

  -- The request is cleared behind its answer, and the connection closed if it is not to be kept.
  abbrev pub end_request : Bool → Served → Served
  end_request keep thrown = thrown
  end_request keep (served r res calls) =
      served (Request.clear r) (if keep then res else conn_close res) calls

  unfoldable pub process_request : Request → Response → Served
  unfolding keepalive add_header
  process_request r res =
      let value = if keepalive r then codes "keep-alive" else codes "close" in
      end_request (keepalive r) (dispatch r (add_header (codes "Connection") value res))
