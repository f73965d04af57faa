-- ===== src/Http/Tests.antt =====
-- Tests of src/httplib on concrete texts.
use angel.Prelude.{
  none, ◌+◌, ◌*◌, if◌then◌else◌, ℕ, ◌≡◌, refl, List, [], ◌∷◌, ◌++◌, true, false, not, ◌&&◌, some,
  codes, length, arith,
}
use angel.Base64.RoundTrip.{AreBytes}
use angel.Buffer.Search.{crlf}
use angel.Util.{same}
use angel.Http.Uri
use angel.Http.Uri.RoundTrip.{decode-encode_escapes}
use angel.Http.Integers.{pos, minus_one}
use angel.Http.Message.{Message, parsed, Headers, by_content_length, by_chunked}
use angel.Http.Message.Pieces.{feed, seen, feed-by_content_length}
use angel.Http.Message.Chunks.{AreChunks, completed, by_chunked-chunks_wire, by_chunked-early_end}
use angel.Http.Request.{Request, get, parse_line_state, http_version_1_1}
use angel.Http.Request.Conditional.{handle_conditional}
use angel.Http.Request.Conditional.Answers.{IsAnswered, handle_conditional-IsAnswered}
use angel.Http.Response.{Response, set_content, send_done}
use angel.Http.Response.Stream.{
  joined, head, chunks_wire, last_chunk, send_chunks, send_done-send_chunks,
}
use angel.Http.Ranges.{parse_byte_ranges, send_parts, multipart_length}
use angel.Http.Ranges.Bounds.{AllWithin, parse_byte_ranges-AllWithin}
use angel.Http.Ranges.Multipart.{delivered, send_parts-multipart_length}
use angel.Http.Status.{ok, continue}
use angel.Http.Server.{Server}
use angel.Http.Server.Handler.{Round, message_handler}
use angel.Http.Server.Handler.Ends.{http_message_handler_ends}
use angel.Http.Validators.{weak_etag_equal, strong_etag_equal, check_date_format}
use angel.Http.Validators.Tags.{etag, etag_equal_lem, check_date_format-gmt}
use angel.Http.Client.Pool.{
  Pool, acquire, create_connection, lease_connection, release_connection, remove_connection,
  active_conns,
}
use angel.Http.Client.Pool.Runs.{
  IsValid, Call, acquired, released, removed, AreFresh, run, run-IsValid,
}

abbrev address : List ℕ
address = codes "a b/" ++ 200 ∷ []

address-AreBytes : AreBytes address
address-AreBytes = (omega arith, (omega arith, (omega arith, (omega arith, (omega arith, tt)))))

decode-encode_escapes_example : Uri.decode (Uri.encode address) ≡ (true, address)
decode-encode_escapes_example = decode-encode_escapes address address-AreBytes

abbrev message : Message
message = record {
  headers = [];
  body = [];
  length_left = 5;
  chunked = false;
  chunk_size = minus_one;
}

feed-by_content_length_example :
    seen (feed message (codes "he" ∷ codes "l" ∷ []) (codes "lo!"))
    ≡ seen (by_content_length message (codes "hel" ++ codes "lo!"))
feed-by_content_length_example =
    feed-by_content_length message (codes "he" ∷ codes "l" ∷ []) (codes "lo!") (omega arith)

abbrev two_chunks : List (List ℕ)
two_chunks = codes "hello" ∷ codes "!" ∷ []

two_chunks-AreChunks : AreChunks two_chunks
two_chunks-AreChunks = (omega arith, omega arith, (omega arith, omega arith, tt))

by_chunked-chunks_wire_example :
    by_chunked message (chunks_wire two_chunks ++ (last_chunk ++ codes "GET"))
    ≡ some (parsed ok (completed message (codes "hello!")) (codes "GET"))
by_chunked-chunks_wire_example =
    by_chunked-chunks_wire two_chunks message (codes "GET") two_chunks-AreChunks refl

-- Five bytes of a chunk are missing.
abbrev half : Message
half = record message { chunk_size = pos 5 }

by_chunked-early_end_example :
    (m' : Message) × (by_chunked half (codes "hello") ≡ some (parsed continue m' []))
    × (by_chunked m' (crlf ++ codes "1")
        ≡ some (parsed ok (completed half (codes "hello")) (codes "1")))
by_chunked-early_end_example = by_chunked-early_end half b'h' (codes "ello") (codes "1") refl

abbrev in_order : Headers → Headers
in_order headers = headers

abbrev response : Response
response = record {
  status_code = ok;
  headers = [];
  buf = [];
  chunked = false;
  chunked_buf = [];
  sent = [];
}

send_done-send_chunks_example :
    joined (send_done (send_chunks in_order [] two_chunks response)).sent
    ≡ head in_order [] response ++ (chunks_wire two_chunks ++ last_chunk)
send_done-send_chunks_example =
    send_done-send_chunks in_order [] (codes "hello") (codes "!" ∷ []) response refl refl

parse_byte_ranges-AllWithin_example : AllWithin 10 (parse_byte_ranges 10 (codes "bytes=0-3,-2")).1
parse_byte_ranges-AllWithin_example =
    parse_byte_ranges-AllWithin 10 (codes "bytes=0-3,-2") (omega arith)

abbrev contents : List ℕ
contents = codes "0123456789"

send_parts-multipart_length_example :
    length (
      delivered contents (
        send_parts
          (length contents)
          (codes "text/plain")
          (codes "b")
          []
          (parse_byte_ranges (length contents) (codes "bytes=0-3,-2")).1))
    ≡ multipart_length
        (length contents)
        (codes "text/plain")
        (codes "b")
        (parse_byte_ranges (length contents) (codes "bytes=0-3,-2")).1
send_parts-multipart_length_example =
    send_parts-multipart_length (codes "text/plain") (codes "b") contents (codes "bytes=0-3,-2")
      (omega arith)

etag_equal_lem_example :
    (weak_etag_equal (etag true (codes "x")) (etag false (codes "x"))
      ≡ same (codes "x") (codes "x"))
    × (strong_etag_equal (etag true (codes "x")) (etag false (codes "x"))
        ≡ (not true && not false && same (codes "x") (codes "x")))
etag_equal_lem_example = etag_equal_lem true false (codes "x") (codes "x")

abbrev gmt_date : List ℕ
gmt_date = codes "Wed, 15 Nov 1995 06:25:24 GMT"

check_date_format-gmt_example : check_date_format gmt_date ≡ false
check_date_format-gmt_example = check_date_format-gmt gmt_date refl

abbrev request : Request
request = record {
  message = record message { headers = (codes "If-None-Match", codes "*") ∷ [] };
  state = parse_line_state;
  req_method = get;
  abs_path = codes "/";
  http_version = http_version_1_1;
  query_params = [];
  has_file = true;
  filesize = 10;
  last_modified = [];
  etag = [];
}

handle_conditional-IsAnswered_example :
    IsAnswered response (handle_conditional in_order [] request response).1
handle_conditional-IsAnswered_example = handle_conditional-IsAnswered in_order [] request response

abbrev pool : Pool
pool = record { avail = 7 ∷ []; leased = []; pending = false }

abbrev pool_calls : List Call
pool_calls = acquired 8 ∷ acquired 9 ∷ released 7 ∷ removed true 9 ∷ []

pool-IsValid : IsValid 2 pool
unfolding active_conns
pool-IsValid = (λ c. ground arith, omega arith)

pool-AreFresh : AreFresh 2 pool_calls pool
unfolding acquire create_connection lease_connection release_connection remove_connection
    active_conns
pool-AreFresh = (refl, (refl, (tt, (tt, tt))))

run-IsValid_example : IsValid 2 (run 2 pool_calls pool)
run-IsValid_example = run-IsValid 2 pool_calls pool pool-IsValid pool-AreFresh

-- A server with one page and no files.
abbrev server : Server
server = record {
  router = λ method. some (λ path.
      if same path (codes "/")
      then some (λ req res. set_content in_order [] (codes "hi") (codes "text/plain") res)
      else none);
  file_table = λ path. none;
  base_dir = codes ".";
  files = record {
    is_regular_file = λ path. false;
    get_file_size = λ path. 0;
    get_last_modified = λ path. [];
    generate_file_etag = λ path. [];
    contents = λ path. [];
    opens = λ path. false;
    writes = λ path. false;
    get_mime_type = λ path. [];
  };
  iterate = in_order;
  date = [];
  boundary = codes "b";
}

abbrev get_page : List ℕ
get_page = codes "GET / HTTP/1.1\r\nHost: a\r\n\r\n"

http_message_handler_ends_example :
    (x : Round) × (message_handler server (2 * length get_page + 2) request response [] get_page
      ≡ some x)
http_message_handler_ends_example = http_message_handler_ends server request response get_page
