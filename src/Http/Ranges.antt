-- ===== src/Http/Ranges.antt =====
-- Byte ranges of a file: `byte_range` and `byte_range_set` of src/httplib/httplib.cc. The boundary
-- that src/mime makes up is an argument.
pub mod Bounds
pub mod Multipart
use angel.Prelude.{
  ℕ, zero, suc, ◌+◌, ◌-◌, ◌≡◌, List, [], ◌∷◌, ◌++◌, Bool, true, false, not, ◌&&◌, ◌||◌, Option,
  none, some, codes, leb, ltb, ◌==◌, length, drop, min, if◌then◌else◌,
}
use angel.Buffer.Search.{crlf}
use angel.Util.{is_digit, split, starts_with, trim}
use angel.Http.Integers.{ℤ, pos, negsuc, minus_one, svtoll}
use angel.Http.Response.{
  Response, Sent, bytes, file, set_status_code, add_header, send, conn_close, to_string,
  format_header,
}
use angel.Http.Message.{Headers}
use angel.Http.Status.{StatusCode, ok, partial_content, requested_range_not_satisfiable}

pub record ByteRange : Type 0 where
  pub first_byte_pos : ℕ
  pub last_byte_pos : ℕ

unfoldable pub range_length : ByteRange → ℕ
range_length r = r.last_byte_pos - r.first_byte_pos + 1

-- Below 0, or -1 if it is no number.
unfoldable pub byte_pos : List ℕ → ℤ
unfolding svtoll
byte_pos s = elim (svtoll s) [ none ↦ minus_one | some n ↦ n ]

abbrev pub upto : ℕ → ℕ → ℕ → Option ByteRange
upto filesize first last = some (record {
  first_byte_pos = first;
  last_byte_pos = if leb filesize last then filesize - 1 else last;
})

-- Behind the first position: the last one, if it is not left out.
unfoldable pub parse_last : ℕ → ℕ → List ℕ → Option ByteRange
unfolding byte_pos trim
parse_last filesize first [] =
    some (record { first_byte_pos = first; last_byte_pos = filesize - 1 })
parse_last filesize first (c ∷ s) = elim (byte_pos (trim (c ∷ s))) [
  | negsuc n ↦ none
  | pos last ↦ if ltb last first then none else upto filesize first last
]

unfoldable pub parse_positions : ℕ → ℤ → List ℕ → Option ByteRange
unfolding parse_last
parse_positions filesize (negsuc n) last = none
parse_positions filesize (pos first) last =
    if leb filesize first then none else parse_last filesize first last

abbrev pub parse_fields : ℕ → List (List ℕ) → Option ByteRange
parse_fields filesize (first ∷ last ∷ []) = parse_positions filesize (byte_pos (trim first)) last
parse_fields filesize fields = none

unfoldable pub parse_byte_range_spec : ℕ → List ℕ → Option ByteRange
unfolding parse_positions byte_pos trim split
parse_byte_range_spec filesize spec = parse_fields filesize (split spec b'-')

unfoldable pub suffix : ℕ → ℤ → Option ByteRange
suffix filesize (negsuc n) = none
suffix filesize (pos zero) = none
suffix filesize (pos (suc n)) =
    some (record { first_byte_pos = filesize - min (suc n) filesize; last_byte_pos = filesize - 1 })

unfoldable pub parse_suffix_byte_range_spec : ℕ → List ℕ → Option ByteRange
unfolding suffix byte_pos
parse_suffix_byte_range_spec filesize spec = suffix filesize (byte_pos spec)

-- One of the ranges, without spaces around it.
unfoldable pub parse_spec : ℕ → List ℕ → Option ByteRange
unfolding parse_suffix_byte_range_spec parse_byte_range_spec is_digit
parse_spec filesize [] = none
parse_spec filesize (c ∷ []) = none
parse_spec filesize (c ∷ d ∷ spec) =
    if c == b'-'
    then if is_digit d then parse_suffix_byte_range_spec filesize (d ∷ spec) else none
    else parse_byte_range_spec filesize (c ∷ d ∷ spec)

unfoldable pub parse_specs : ℕ → List (List ℕ) → List ByteRange → StatusCode × List ByteRange
unfolding parse_spec trim
parse_specs filesize [] ranges = (partial_content, ranges)
parse_specs filesize (spec ∷ specs) ranges = elim (parse_spec filesize (trim spec)) [
  | none ↦ (requested_range_not_satisfiable, ranges)
  | some range ↦ parse_specs filesize specs (ranges ++ range ∷ [])
]

-- The value of the field `Range`.
unfoldable pub parse_byte_ranges : ℕ → List ℕ → StatusCode × List ByteRange
unfolding parse_specs split starts_with
parse_byte_ranges filesize range =
    if not (starts_with range (codes "bytes=")) || length (drop 6 range) == 0
    then (ok, [])
    else parse_specs filesize (split (drop 6 range) b',') []

unfoldable pub to_str : ByteRange → List ℕ
unfolding to_string
to_str r = to_string r.first_byte_pos ++ b'-' ∷ to_string r.last_byte_pos

unfoldable pub content_range : List ℕ → ℕ → List ℕ
unfolding to_string
content_range resp filesize = codes "bytes" ++ b' ' ∷ (resp ++ b'/' ∷ to_string filesize)

module _ (filesize : ℕ) (mime_type boundary : List ℕ) where
  -- What one range adds to the announced length.
  unfoldable pub part_length : ByteRange → ℕ
  unfolding content_range to_str range_length
  part_length r =
      2
      + length boundary
      + 2
      + (length (codes "Content-Type") + 2 + length mime_type + 2)
      + (length (codes "Content-Range") + 2 + length (content_range (to_str r) filesize) + 2)
      + 2
      + (range_length r + 2)

  unfoldable pub ranges_length : List ByteRange → ℕ
  unfolding part_length
  ranges_length [] = 0
  ranges_length (r ∷ ranges) = part_length r + ranges_length ranges

  -- `Content-Length` of build_multipart_header.
  unfoldable pub multipart_length : List ByteRange → ℕ
  unfolding ranges_length
  multipart_length ranges = ranges_length ranges + (2 + length boundary + 2 + 2)

  unfoldable pub part_head : ByteRange → List ℕ
  unfolding format_header content_range to_str
  part_head r =
      codes "--"
      ++ (boundary
          ++ (crlf
              ++ (format_header (codes "Content-Type") mime_type
                  ++ (format_header (codes "Content-Range") (content_range (to_str r) filesize)
                      ++ crlf))))

  -- The parts of send_range_response, with what `buf` still holds: the CRLF behind a range is sent
  -- with the next part.
  unfoldable pub send_parts : List ℕ → List ByteRange → List Sent
  unfolding part_head range_length
  send_parts buf [] = bytes (buf ++ (codes "--" ++ (boundary ++ (codes "--" ++ crlf)))) ∷ []
  send_parts buf (r ∷ ranges) =
      bytes (buf ++ part_head r) ∷ file r.first_byte_pos (range_length r) ∷ send_parts crlf ranges

module _ (iterate : Headers → Headers) (date boundary mime_type : List ℕ) where
  unfoldable pub send_range_response : ℕ → List ByteRange → Response → Response
  unfolding send add_header set_status_code send_parts multipart_length content_range to_str
      range_length to_string
  send_range_response filesize (r ∷ []) res =
      let head = add_header (codes "Content-Length") (to_string (range_length r)) (
        add_header (codes "Content-Range") (content_range (to_str r) filesize)
          (add_header (codes "Content-Type") mime_type (set_status_code partial_content res))) in
      let res' = send iterate date [] head in
      record res' { sent = res'.sent ++ file r.first_byte_pos (range_length r) ∷ [] }
  send_range_response filesize ranges res =
      let len = multipart_length filesize mime_type boundary ranges in
      let type =
        codes "multipart/byteranges"
        ++ (codes "; " ++ (codes "boundary=\"" ++ (boundary ++ codes "\""))) in
      let head =
        add_header (codes "Content-Length") (to_string len)
          (add_header (codes "Content-Type") type (set_status_code partial_content res)) in
      let res' = send iterate date [] head in
      record res' { sent = res'.sent ++ send_parts filesize mime_type boundary [] ranges }

  -- `send_file` is an argument: it answers with all of the file.
  unfoldable pub handle_range_request : (Response → Response) → ℕ → List ℕ → Response → Response
  unfolding send add_header set_status_code parse_byte_ranges send_range_response content_range
  handle_range_request send_file zero range res = send iterate date [] (
      add_header (codes "Content-Length") (codes "0")
        (add_header (codes "Content-Type") mime_type (set_status_code ok res)))
  handle_range_request send_file (suc n) range res =
      let filesize = suc n in
      let parsed = parse_byte_ranges filesize range in
      elim (parsed.0) [
        | requested_range_not_satisfiable ↦ conn_close (
            send iterate date [] (
              add_header (codes "Content-Range") (content_range (codes "*") filesize)
                (set_status_code requested_range_not_satisfiable res)))
        | partial_content ↦ send_range_response filesize (parsed.1) res
        | _ ↦ send_file res
      ]
