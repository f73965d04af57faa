-- ===== src/WebSocket/Handshake.antt =====
-- The opening handshake and the message handler of src/websocket/ws-server.cc.
pub mod Progress
pub mod Laws
pub mod Frames
use angel.Prelude.{
  ℕ, zero, suc, ◌+◌, ◌-◌, ◌*◌, ◌≡◌, List, [], ◌∷◌, ◌++◌, Bool, true, false, not, Option, none, some,
  length, take, drop, ltb, leb, ◌==◌, ◌&&◌, ◌/◌, if◌then◌else◌, codes,
}
use angel.Buffer.{Buffer, contents, readable, retrieve}
use angel.Buffer.Search.{search_first, find_crlf, starts_with, starts_with_case}
use angel.Util.{Integer, trim, equal_case, svtoi, same}
use angel.Sha1
use angel.Base64
use angel.WebSocket.{
  Context, State, handshake, handshake_ok, handshake_error, establish, Decoded, Code, ok, error,
  not_enough, ping, pong, close, returns, overrun, throws, decode,
}

-- The state that a step of the handshake returns; `crash` is a read outside of the buffer or an
-- exception.
pub data Step : Type 0 where
  to : State → Context → Buffer → Step
  crash : Step

-- The index of the first space in `[from, from + count)`, or the end.
unfoldable pub space_in : ℕ → ℕ → List ℕ → ℕ
space_in from zero s = from
space_in from (suc count) [] = from
space_in from (suc count) (c ∷ s) =
    let rest = space_in (from + 1) count s in if c == b' ' then from else rest

-- GET <SP> URI <SP> HTTP-Version <CRLF>. With less than 8 bytes the search for the second space
-- begins behind its end.
unfoldable pub request_line : Context → Buffer → ℕ → Step
unfolding space_in
request_line ctx buf crlf =
    let line = contents buf in
    let p = space_in 4 (crlf - 4 - 4) (drop 4 line) in
    let version = take (crlf - (p + 1)) (drop (p + 1) line) in
    let c = record ctx { read_request_line = false } in
    if not (starts_with buf (codes "GET "))
    then to handshake_error c buf
    else if ltb crlf 8
    then crash
    else if not (same version (codes "HTTP/1.1"))
    then to handshake_error c buf
    else to handshake c (retrieve buf (crlf + 2))

-- The trimmed value of a header whose name and colon take `n` bytes.
abbrev pub value : Buffer → ℕ → ℕ → List ℕ
value buf n crlf = trim (take (crlf - n) (drop n (contents buf)))

abbrev pub counted : Context → Context
counted ctx = record ctx { seen_request_headers = ctx.seen_request_headers + 1 }

abbrev pub guid : List ℕ
guid = codes "258EAFA5-E914-47DA-95CA-C5AB0DC85B11"

unfoldable pub accept_key : List ℕ → Option (List ℕ)
accept_key key = elim (Sha1.digest (Sha1.update Sha1.init (key ++ guid))) [
  | none ↦ none
  | some (digest, _) ↦ some (Base64.encode Base64.standard digest)
]

abbrev pub is_version : Option Integer → Bool
is_version none = false
is_version (some n) = not n.negative && n.size == 13

abbrev pub header : Context → Buffer → ℕ → Bool → Step
header ctx buf crlf fine =
    if fine then to handshake ctx (retrieve buf (crlf + 2)) else to handshake_error ctx buf

unfoldable pub header_line : Context → Buffer → ℕ → Step
header_line ctx buf crlf =
    let c = counted ctx in
    if starts_with_case buf (codes "Host:")
    then header (record c { host = value buf 5 crlf }) buf crlf true
    else if starts_with_case buf (codes "Connection:")
    then header c buf crlf (equal_case (value buf 11 crlf) (codes "Upgrade"))
    else if starts_with_case buf (codes "Upgrade:")
    then header c buf crlf (equal_case (value buf 8 crlf) (codes "websocket"))
    else if starts_with_case buf (codes "Sec-WebSocket-Key:")
    then elim (accept_key (value buf 18 crlf)) [
      | none ↦ crash
      | some accept ↦ header (record c { sec_websocket_accept = accept }) buf crlf true
    ]
    else if starts_with_case buf (codes "Sec-WebSocket-Version:")
    then header c buf crlf (is_version (svtoi (value buf 22 crlf)))
    else if starts_with_case buf (codes "Origin:")
    then header (record c { origin = value buf 7 crlf }) buf crlf true
    else header ctx buf crlf true

-- One line of the handshake, which ends at the offset `crlf`.
unfoldable pub handshake_line : Context → Buffer → ℕ → Step
handshake_line ctx buf crlf =
    if ctx.read_request_line
    then request_line ctx buf crlf
    else if starts_with buf (13 ∷ 10 ∷ [])
    then to (if ctx.seen_request_headers == 6 then handshake_ok else handshake_error) ctx
        (retrieve buf 2)
    else header_line ctx buf crlf

-- What a context does to its connection and to the server's handlers.
pub data Event : Type 0 where
  sends : List ℕ → Event
  onopen onmessage onclose onerror : Event
  closes : Event

abbrev pub accepted : Context → List ℕ
accepted ctx =
    codes "HTTP/1.1 101 Switching Protocols\r\n"
    ++ codes "Connection: Upgrade\r\n"
    ++ codes "Upgrade: websocket\r\n"
    ++ codes "Sec-WebSocket-Accept: "
    ++ ctx.sec_websocket_accept
    ++ codes "\r\n\r\n"

abbrev pub refused : List ℕ
refused = codes "HTTP/1.1 400 Bad Request\r\n\r\n"

-- How the loop over the lines ends.
pub data Shaken : Type 0 where
  done : State → Context → Buffer → List Event → Shaken
  crashed : Shaken
  no_fuel : Shaken

-- What the loop does with the state of one line; `again` is its next round.
unfoldable pub after_line : Step → (Context → Buffer → Shaken) → Shaken
after_line crash again = crashed
after_line (to handshake c b) again = again (record c { state = handshake }) b
after_line (to handshake_ok c b) again =
    done handshake_ok (record c { state = establish }) b (sends (accepted c) ∷ [])
after_line (to handshake_error c b) again =
    done handshake_error (record c { state = handshake_error }) b (sends refused ∷ [])
after_line (to establish c b) again = again (record c { state = establish }) b

unfoldable pub handshake_lines : ℕ → Context → Buffer → Shaken
handshake_lines zero ctx buf = no_fuel
handshake_lines (suc fuel) ctx buf =
    if readable buf == 0 then done handshake ctx buf [] else elim (find_crlf buf) [
      | none ↦ done handshake ctx buf []
      | some crlf ↦ after_line (handshake_line ctx buf crlf) (λ c b. handshake_lines fuel c b)
    ]

-- A `uint16_t` as it stands in the memory of a little-endian machine.
abbrev pub le16 : ℕ → List ℕ
le16 n = (n - n / 256 * 256) ∷ (n / 256) ∷ []

-- How the message handler ends, with the events in order.
pub data Handled : Type 0 where
  idle : Context → Buffer → List Event → Handled
  failed : List Event → Handled
  out_of_fuel : Handled

-- Events before those of the rest of the loop.
unfoldable pub prepend : List Event → Handled → Handled
prepend es (idle c b fs) = idle c b (es ++ fs)
prepend es (failed fs) = failed (es ++ fs)
prepend es out_of_fuel = out_of_fuel

unfoldable pub after_handshake : Shaken → (Context → Buffer → Handled) → Handled
after_handshake crashed again = failed []
after_handshake no_fuel again = out_of_fuel
after_handshake (done handshake_ok c b es) again = prepend (es ++ onopen ∷ []) (again c b)
after_handshake (done handshake_error c b es) again = idle c b (es ++ onerror ∷ closes ∷ [])
after_handshake (done handshake c b es) again = idle c b es
after_handshake (done establish c b es) again = prepend es (again c b)

unfoldable pub after_decode : Decoded → (Context → Buffer → Handled) → Handled
unfolding prepend
after_decode overrun again = failed []
after_decode throws again = failed []
after_decode (returns ok c b) again =
    prepend (if c.rcvfragment then [] else onmessage ∷ []) (again c b)
after_decode (returns close c b) again = idle c b (onclose ∷ sends (le16 0x8800) ∷ closes ∷ [])
after_decode (returns ping c b) again = prepend (sends (le16 0x8A00) ∷ []) (again c b)
after_decode (returns pong c b) again = again c b
after_decode (returns error c b) again = idle c b (onerror ∷ closes ∷ [])
after_decode (returns not_enough c b) again = idle c b []

-- The loop of `message_handler`; in the states that its switch does not name a round does nothing.
unfoldable pub message_handler : ℕ → Context → Buffer → Handled
message_handler zero ctx buf = out_of_fuel
message_handler (suc fuel) ctx buf = if readable buf == 0 then idle ctx buf [] else elim ctx.state [
  | handshake ↦
      after_handshake (handshake_lines (readable buf + 1) ctx buf) (λ c b. message_handler fuel c b)
  | establish ↦ after_decode (decode ctx buf) (λ c b. message_handler fuel c b)
  | handshake_ok ↦ message_handler fuel ctx buf
  | handshake_error ↦ message_handler fuel ctx buf
]
