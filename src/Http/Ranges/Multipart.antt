-- ===== src/Http/Ranges/Multipart.antt =====
-- src/httplib/httplib.cc: the announced length of an answer with several ranges.
use angel.Prelude.{
  ℕ, ◌+◌, ◌<◌, ◌≡◌, List, [], ◌∷◌, ◌++◌, codes, arith, length, take, drop, length-append,
  length-take, length-drop,
}
use angel.Buffer.Search.{crlf}
use angel.Http.Response.{Sent, bytes, file, close, format_header}
use angel.Http.Ranges.{
  ByteRange, range_length, to_str, content_range, part_length, ranges_length, multipart_length,
  part_head, send_parts, parse_byte_ranges,
}
use angel.Http.Ranges.Bounds.{IsWithin, AllWithin, parse_byte_ranges-AllWithin}

-- The bytes that reach the client, when the open file has these contents.
abbrev pub delivered : List ℕ → List Sent → List ℕ
delivered contents [] = []
delivered contents (bytes x ∷ xs) = x ++ delivered contents xs
delivered contents (file first len ∷ xs) = take len (drop first contents) ++ delivered contents xs
delivered contents (close ∷ xs) = delivered contents xs

slice_length :
    (contents : List ℕ) (r : ByteRange)
    → IsWithin (length contents) r
    → length (take (range_length r) (drop r.first_byte_pos contents)) ≡ range_length r
unfolding range_length
slice_length contents r (order, small) = omega (
  arith,
  length-take (range_length r) (drop r.first_byte_pos contents),
  length-drop r.first_byte_pos contents,
)

length-format_header :
    (field value : List ℕ)
    → length (format_header field value) ≡ length field + 2 + length value + 2
unfolding format_header
length-format_header field value =
    omega (arith, length-append field (codes ": " ++ (value ++ crlf)), length-append value crlf)

module _ (filesize : ℕ) (mime_type boundary : List ℕ) where
  length-part_head :
      (r : ByteRange)
      → length (part_head filesize mime_type boundary r) + range_length r + 2
        ≡ part_length filesize mime_type boundary r
  unfolding part_head part_length
  length-part_head r =
      let type = format_header (codes "Content-Type") mime_type in
      let place = format_header (codes "Content-Range") (content_range (to_str r) filesize) in
      let type_size = length-format_header (codes "Content-Type") mime_type in
      let place_size =
        length-format_header (codes "Content-Range") (content_range (to_str r) filesize) in
      omega (
        arith,
        type_size,
        place_size,
        length-append place crlf,
        length-append type (place ++ crlf),
        length-append boundary (crlf ++ (type ++ (place ++ crlf))),
      )

  length-send_parts :
      (contents buf : List ℕ) (ranges : List ByteRange)
      → AllWithin (length contents) ranges
      → length (delivered contents (send_parts filesize mime_type boundary buf ranges))
        ≡ length buf + multipart_length filesize mime_type boundary ranges
  unfolding send_parts multipart_length ranges_length
  length-send_parts contents buf [] all =
      let last = codes "--" ++ (boundary ++ (codes "--" ++ crlf)) in
      omega (
        arith,
        length-append (buf ++ last) [],
        length-append buf last,
        length-append boundary (codes "--" ++ crlf),
      )
  length-send_parts contents buf (r ∷ ranges) (within, all) =
      let head = part_head filesize mime_type boundary r in
      let part = take (range_length r) (drop r.first_byte_pos contents) in
      let rest = delivered contents (send_parts filesize mime_type boundary crlf ranges) in
      omega (
        arith,
        length-send_parts contents crlf ranges all,
        length-part_head r,
        slice_length contents r within,
        length-append (buf ++ head) (part ++ rest),
        length-append buf head,
        length-append part rest,
      )

-- Of a file that is not empty, the ranges of a request, sent as parts, are exactly as many bytes
-- as build_multipart_header announces, whatever the field `Range` has.
pub send_parts-multipart_length :
    (mime_type boundary contents range : List ℕ)
    → 0 < length contents
    → length (
        delivered contents (
          send_parts
            (length contents)
            mime_type
            boundary
            []
            (parse_byte_ranges (length contents) range).1))
      ≡ multipart_length
          (length contents)
          mime_type
          boundary
          (parse_byte_ranges (length contents) range).1
send_parts-multipart_length mime_type boundary contents range h =
    let within = parse_byte_ranges-AllWithin (length contents) range h in
    omega (arith, length-send_parts (length contents) mime_type boundary contents [] _ within)
