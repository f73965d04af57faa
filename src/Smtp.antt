-- ===== src/Smtp.antt =====
-- The dialogue of the SMTP client: `send_task` of src/smtplib/smtplib.cc. The buffer is its unread
-- bytes; what goes to the connection is a list of commands, whose bytes `text_of` has.
pub mod Receivers
pub mod Tests
use angel.Prelude.{
  ℕ, zero, suc, ◌+◌, ◌-◌, ◌≡◌, List, [], ◌∷◌, ◌++◌, Bool, true, false, Option, none, some, codes,
  leb, ◌==◌, length, drop, take, get_elem?, if◌then◌else◌,
}
use angel.Base64
use angel.Buffer.Search.{crlf, search_first, is_prefix, is_prefix_case}
use angel.Util.{equal_case}
use mathlib.Core.Option

pub data State : Type 0 where
  init : State
  ehlo_sent : State
  auth_sent : State
  mail_sent : State
  rcpt_sent : State
  data_sent : State
  quit_next : State
  close_next : State

pub data Command : Type 0 where
  ehlo : Command
  auth_login : Command
  credential : List ℕ → Command
  mail_from : List ℕ → Command
  rcpt_to : List ℕ → Command
  data_start : Command
  mail_text : List ℕ → Command
  quit : Command

-- The name of the host is an argument.
abbrev pub text_of : List ℕ → Command → List ℕ
text_of host ehlo = codes "EHLO " ++ (host ++ crlf)
text_of host auth_login = codes "AUTH LOGIN" ++ crlf
text_of host (credential s) = Base64.encode Base64.standard s ++ crlf
text_of host (mail_from s) = codes "MAIL FROM:<" ++ (s ++ (codes ">" ++ crlf))
text_of host (rcpt_to s) = codes "RCPT TO:<" ++ (s ++ (codes ">" ++ crlf))
text_of host data_start = codes "DATA" ++ crlf
text_of host (mail_text s) = s
text_of host quit = codes "QUIT" ++ crlf

pub record Task : Type 0 where
  pub state : State
  pub rcpt_index : ℕ
  pub need_auth : Bool
  pub username : List ℕ
  pub password : List ℕ
  pub sender : List ℕ
  pub receivers : List (List ℕ)
  pub mail_data : List ℕ
  pub sent : List Command

-- A command and the state behind it.
abbrev pub send : Command → State → Task → Task
send command state t = record t { state = state; sent = t.sent ++ command ∷ [] }

-- `c_str`, which the comparison reads to its zero byte.
abbrev pub c_str : List ℕ → List ℕ
c_str [] = []
c_str (c ∷ s) = let rest = c_str s in if c == 0 then [] else c ∷ rest

unfoldable pub do_auth : List ℕ → Task → Task
unfolding equal_case
do_auth arg t =
    let res = c_str (Base64.decode Base64.standard arg) in
    if equal_case res (codes "username:")
    then send (credential t.username) t.state t
    else if equal_case res (codes "password:")
    then send (credential t.password) t.state t
    else t

-- The next receiver; `none` is an access outside of the vector.
unfoldable pub rcpt : Task → Option Task
rcpt t = elim (get_elem? t.receivers t.rcpt_index) [
  | none ↦ none
  | some receiver ↦ some (
      if leb (length t.receivers) (t.rcpt_index + 1)
      then send (rcpt_to receiver) rcpt_sent (record t { rcpt_index = 0 })
      else send (rcpt_to receiver) t.state (record t { rcpt_index = t.rcpt_index + 1 }))
]

-- What the line means: an error, an access outside of the receivers, the end, or more to do.
pub data Reply : Type 0 where
  refused : Reply
  overrun : Reply
  accepted : Reply
  onward : Task → Reply

abbrev pub onward_or : Option Task → Reply
onward_or none = overrun
onward_or (some t) = onward t

module _ (t : Task) (buf : List ℕ) where
  abbrev pub expects : List ℕ → Reply → Reply
  expects code reply = if is_prefix code buf then reply else refused

  abbrev pub ehlo_reply : Reply
  ehlo_reply =
      if is_prefix (codes "250-") buf
      then onward
          (if is_prefix_case (codes "250-AUTH") buf then record t { need_auth = true } else t)
      else expects (codes "250 ") (
          onward (
            if t.need_auth
            then send auth_login auth_sent t
            else send (mail_from t.sender) mail_sent t))

  abbrev pub auth_reply : ℕ → Reply
  auth_reply line =
      if is_prefix (codes "334 ") buf
      then onward (do_auth (take (line - 4) (drop 4 buf)) t)
      else expects (codes "235 ") (onward (send (mail_from t.sender) mail_sent t))

  -- The line of so many bytes at the front of the buffer.
  abbrev pub reply_in : State → ℕ → Reply
  reply_in init line = expects (codes "220 ") (onward (send ehlo ehlo_sent t))
  reply_in ehlo_sent line = ehlo_reply
  reply_in auth_sent line = auth_reply line
  reply_in mail_sent line = expects (codes "250 ") (onward_or (rcpt t))
  reply_in rcpt_sent line = expects (codes "250 ") (onward (send data_start data_sent t))
  reply_in data_sent line =
      let ended = t.mail_data ++ (crlf ++ (codes "." ++ crlf)) in
      expects (codes "354 ")
        (onward (send (mail_text ended) quit_next (record t { mail_data = ended })))
  reply_in quit_next line = expects (codes "250 ") (onward (send quit close_next t))
  reply_in close_next line = expects (codes "221 ") accepted

-- The task waits for more, or has its result.
pub data Outcome : Type 0 where
  waiting : Task → List ℕ → Outcome
  finished : Bool → Task → Outcome
  crash : Outcome

abbrev pub conclude : Task → Reply → (Task → Option Outcome) → Option Outcome
conclude t refused continue = some (finished false t)
conclude t overrun continue = some crash
conclude t accepted continue = some (finished true t)
conclude t (onward t') continue = continue t'

-- The loop, on fuel, each round of which takes a line.
unfoldable pub send_mail : ℕ → Task → List ℕ → Option Outcome
send_mail zero t buf = none
send_mail (suc fuel) t [] = some (waiting t [])
send_mail (suc fuel) t (c ∷ buf) = elim (search_first crlf (c ∷ buf)) [
  | none ↦ some (waiting t (c ∷ buf))
  | some line ↦
      conclude t (reply_in t (c ∷ buf) t.state line)
        (λ t'. send_mail fuel t' (drop (line + 2) (c ∷ buf)))
]
