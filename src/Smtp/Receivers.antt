-- ===== src/Smtp/Receivers.antt =====
-- src/smtplib/smtplib.cc: which receivers the server has been told.
use angel.Prelude.{
  ℕ, zero, suc, ◌+◌, ◌-◌, ◌≡◌, ◌<◌, ◌≤◌, refl, ap, sym, ◌∙◌, subst, List, [], ◌∷◌, ◌++◌, append-nil,
  true, false, Option, none, some, codes, leb, length, length-drop, drop, take, get_elem?,
  if◌then◌else◌, Option-cases, Option-holds, Bool-cases, inl, inr, arith,
}
use angel.Base64
use angel.Buffer.Search.{crlf, search_first, is_prefix, is_prefix_case}
use angel.Connection.Stream.{if-holds}
use angel.Util.{equal_case}
use angel.Smtp.{
  State, init, ehlo_sent, auth_sent, mail_sent, rcpt_sent, data_sent, quit_next, close_next,
  Command, ehlo, auth_login, credential, mail_from, rcpt_to, data_start, mail_text, quit, Task,
  send, c_str, do_auth, rcpt, Reply, refused, overrun, accepted, onward, onward_or, expects,
  ehlo_reply, auth_reply, reply_in, Outcome, waiting, finished, crash, conclude, send_mail,
}

-- The receivers named by the commands, in order.
abbrev pub named : List Command → List (List ℕ)
named [] = []
named (rcpt_to r ∷ sent) = r ∷ named sent
named (ehlo ∷ sent) = named sent
named (auth_login ∷ sent) = named sent
named (credential s ∷ sent) = named sent
named (mail_from s ∷ sent) = named sent
named (data_start ∷ sent) = named sent
named (mail_text s ∷ sent) = named sent
named (quit ∷ sent) = named sent

-- Before the receivers none is named, then those up to the index, and behind them all.
abbrev IsNamedIn : State → ℕ → List (List ℕ) → List (List ℕ) → Type 0
IsNamedIn init i receivers names = (names ≡ []) × (i ≡ 0)
IsNamedIn ehlo_sent i receivers names = (names ≡ []) × (i ≡ 0)
IsNamedIn auth_sent i receivers names = (names ≡ []) × (i ≡ 0)
IsNamedIn mail_sent i receivers names = names ≡ take i receivers
IsNamedIn rcpt_sent i receivers names = names ≡ receivers
IsNamedIn data_sent i receivers names = names ≡ receivers
IsNamedIn quit_next i receivers names = names ≡ receivers
IsNamedIn close_next i receivers names = names ≡ receivers

abbrev pub IsNamed : Task → Type 0
IsNamed t = IsNamedIn t.state t.rcpt_index t.receivers (named t.sent)

named-append : (xs ys : List Command) → named (xs ++ ys) ≡ named xs ++ named ys
named-append [] ys = refl
named-append (rcpt_to r ∷ xs) ys = ap (λ s. r ∷ s) (named-append xs ys)
named-append (ehlo ∷ xs) ys = named-append xs ys
named-append (auth_login ∷ xs) ys = named-append xs ys
named-append (credential s ∷ xs) ys = named-append xs ys
named-append (mail_from s ∷ xs) ys = named-append xs ys
named-append (data_start ∷ xs) ys = named-append xs ys
named-append (mail_text s ∷ xs) ys = named-append xs ys
named-append (quit ∷ xs) ys = named-append xs ys

-- A command that names nobody.
quiet : (xs : List Command) (c : Command) → named (c ∷ []) ≡ [] → named (xs ++ c ∷ []) ≡ named xs
quiet xs c h = named-append xs (c ∷ []) ∙ (ap (λ s. named xs ++ s) h ∙ append-nil (named xs))

take-suc :
    (i : ℕ) (xs : List (List ℕ)) (x : List ℕ)
    → get_elem? xs i ≡ some x
    → take (suc i) xs ≡ take i xs ++ x ∷ []
take-suc i [] x h = absurd (ground arith)
take-suc zero (y ∷ xs) x h = ap (λ o. elim o [ none ↦ y ∷ [] | some z ↦ z ∷ [] ]) h
take-suc (suc i) (y ∷ xs) x h = ap (λ s. y ∷ s) (take-suc i xs x h)

take-whole : (n : ℕ) (xs : List (List ℕ)) → length xs ≤ n → take n xs ≡ xs
take-whole zero [] h = refl
take-whole (suc n) [] h = refl
take-whole zero (x ∷ xs) h = absurd (omega arith)
take-whole (suc n) (x ∷ xs) h = ap (λ s. x ∷ s) (take-whole n xs (omega arith))

-- What the loop leaves: a task that waits keeps the property, and so does one with a result. A
-- mail that was accepted has named all receivers.
abbrev pub IsTold : Outcome → Type 0
IsTold (waiting t buf) = IsNamed t
IsTold (finished false t) = IsNamed t
IsTold (finished true t) = named t.sent ≡ t.receivers
IsTold crash = Unit {0}

-- A reply that goes on keeps the property, one that accepts the mail has all receivers named.
abbrev KeepsOf : Task → Reply → Type 0
KeepsOf t refused = Unit {0}
KeepsOf t overrun = Unit {0}
KeepsOf t accepted = named t.sent ≡ t.receivers
KeepsOf t (onward t') = IsNamed t'

module _ (t : Task) (buf : List ℕ) where
  abbrev Keeps : Reply → Type 0
  Keeps r = KeepsOf t r

  expects-Keeps : (code : List ℕ) (r : Reply) → Keeps r → Keeps (expects t buf code r)
  expects-Keeps code r h = if-holds Keeps r refused (is_prefix code buf) h tt

  mail-Keeps :
      (named t.sent ≡ []) × (t.rcpt_index ≡ 0) → IsNamed (send (mail_from t.sender) mail_sent t)
  mail-Keeps (nobody, first) =
      quiet t.sent (mail_from t.sender) refl ∙ (nobody ∙ sym (ap (λ i. take i t.receivers) first))

  -- A task in a known state.
  same_state :
      (st : State) → t.state ≡ st → IsNamedIn st t.rcpt_index t.receivers (named t.sent) → IsNamed t
  same_state st e h = subst (λ st. IsNamedIn st t.rcpt_index t.receivers (named t.sent)) (sym e) h

  ehlo-Keeps :
      t.state ≡ ehlo_sent → (named t.sent ≡ []) × (t.rcpt_index ≡ 0) → Keeps (ehlo_reply t buf)
  ehlo-Keeps e (nobody, first) =
      let kept : IsNamed t = same_state ehlo_sent e (nobody, first) in
      if-holds Keeps _ _ (is_prefix (codes "250-") buf)
        (if-holds IsNamed (record t { need_auth = true }) t (is_prefix_case (codes "250-AUTH") buf)
          kept kept)
        (expects-Keeps (codes "250 ") _ (
          if-holds IsNamed (send auth_login auth_sent t) (send (mail_from t.sender) mail_sent t)
            t.need_auth (quiet t.sent auth_login refl ∙ nobody, first)
            (mail-Keeps (nobody, first))))

  credential-Keeps :
      (s : List ℕ)
      → t.state ≡ auth_sent
      → (named t.sent ≡ []) × (t.rcpt_index ≡ 0)
      → IsNamed (send (credential s) t.state t)
  credential-Keeps s e (nobody, first) =
      subst (λ st. IsNamedIn st t.rcpt_index t.receivers (named (t.sent ++ credential s ∷ [])))
        (sym e) (quiet t.sent (credential s) refl ∙ nobody, first)

  auth-Keeps :
      (line : ℕ)
      → t.state ≡ auth_sent
      → (named t.sent ≡ []) × (t.rcpt_index ≡ 0)
      → Keeps (auth_reply t buf line)
  unfolding do_auth
  auth-Keeps line e h =
      let res = c_str (Base64.decode Base64.standard (take (line - 4) (drop 4 buf))) in
      if-holds Keeps _ _ (is_prefix (codes "334 ") buf)
        (if-holds IsNamed _ _ (equal_case res (codes "username:")) (credential-Keeps t.username e h)
          (if-holds IsNamed _ _ (equal_case res (codes "password:"))
            (credential-Keeps t.password e h) (same_state auth_sent e h)))
        (expects-Keeps (codes "235 ") _ (mail-Keeps h))

  rcpt-Keeps :
      t.state ≡ mail_sent
      → named t.sent ≡ take t.rcpt_index t.receivers
      → Keeps (onward_or (rcpt t))
  unfolding rcpt
  rcpt-Keeps e h =
      let i = t.rcpt_index in
      elim (Option-cases (get_elem? t.receivers i)) [
        | inl e' ↦
            let nobody : rcpt t ≡ none = rw (e', rcpt) refl in
            subst (λ o. Keeps (onward_or o)) (sym nobody) tt
        | inr (r, e') ↦
            let all = send (rcpt_to r) rcpt_sent (record t { rcpt_index = 0 }) in
            let more = send (rcpt_to r) t.state (record t { rcpt_index = i + 1 }) in
            let taken : rcpt t ≡ some (if leb (length t.receivers) (i + 1) then all else more) =
              rw (e', rcpt) refl in
            let one : i + 1 ≡ suc i = omega arith in
            let names : named (t.sent ++ rcpt_to r ∷ []) ≡ take (i + 1) t.receivers =
              named-append t.sent (rcpt_to r ∷ [])
              ∙ (ap (λ s. s ++ r ∷ []) h
                  ∙ (sym (take-suc i t.receivers r e') ∙ ap (λ k. take k t.receivers) (sym one))) in
            let last : IsNamed more =
              subst (λ st. IsNamedIn st (i + 1) t.receivers (named (t.sent ++ rcpt_to r ∷ [])))
                (sym e) names in
            let both : IsNamed (if leb (length t.receivers) (i + 1) then all else more) =
              elim (Bool-cases (leb (length t.receivers) (i + 1))) [
                | inl f ↦
                    let whole : length t.receivers ≤ i + 1 = ground arith in
                    rw f (names ∙ take-whole (i + 1) t.receivers whole)
                | inr f ↦ rw f last
              ] in
            subst (λ o. Keeps (onward_or o)) (sym taken) both
      ]

  reply_in-Keeps :
      (st : State) (line : ℕ)
      → t.state ≡ st
      → IsNamedIn st t.rcpt_index t.receivers (named t.sent)
      → Keeps (reply_in t buf st line)
  reply_in-Keeps init line e (nobody, first) =
      expects-Keeps (codes "220 ") _ (quiet t.sent ehlo refl ∙ nobody, first)
  reply_in-Keeps ehlo_sent line e h = ehlo-Keeps e h
  reply_in-Keeps auth_sent line e h = auth-Keeps line e h
  reply_in-Keeps mail_sent line e h = expects-Keeps (codes "250 ") _ (rcpt-Keeps e h)
  reply_in-Keeps rcpt_sent line e h =
      expects-Keeps (codes "250 ") _ (quiet t.sent data_start refl ∙ h)
  reply_in-Keeps data_sent line e h =
      expects-Keeps (codes "354 ") _
        (quiet t.sent (mail_text (t.mail_data ++ (crlf ++ (codes "." ++ crlf)))) refl ∙ h)
  reply_in-Keeps quit_next line e h = expects-Keeps (codes "250 ") _ (quiet t.sent quit refl ∙ h)
  reply_in-Keeps close_next line e h = expects-Keeps (codes "221 ") accepted h

conclude_lem :
    (t : Task) (r : Reply) (continue : Task → Option Outcome)
    → IsNamed t
    → KeepsOf t r
    → ((t' : Task) → IsNamed t' → (o : Outcome) × (continue t' ≡ some o) × IsTold o)
    → (o : Outcome) × (conclude t r continue ≡ some o) × IsTold o
conclude_lem t refused continue h kept rest = (finished false t, refl, h)
conclude_lem t overrun continue h kept rest = (crash, refl, tt)
conclude_lem t accepted continue h kept rest = (finished true t, refl, kept)
conclude_lem t (onward t') continue h kept rest = rest t' kept

send_mail_loop :
    (fuel : ℕ) (t : Task) (buf : List ℕ)
    → length buf < fuel
    → IsNamed t
    → (o : Outcome) × (send_mail fuel t buf ≡ some o) × IsTold o
unfolding send_mail
send_mail_loop zero t buf enough h = absurd (omega arith)
send_mail_loop (suc fuel) t [] enough h = (waiting t [], refl, h)
send_mail_loop (suc fuel) t (c ∷ buf) enough h =
    let P = λ (r : Option Outcome). (o : Outcome) × (r ≡ some o) × IsTold o in
    Option-holds P (search_first crlf (c ∷ buf)) _ _ (waiting t (c ∷ buf), refl, h)
      (λ line.
        conclude_lem t (reply_in t (c ∷ buf) t.state line) _ h
          (reply_in-Keeps t (c ∷ buf) t.state line refl h)
          (λ t' h'.
            send_mail_loop fuel t' (drop (line + 2) (c ∷ buf))
              (omega (arith, length-drop (line + 2) (c ∷ buf))) h'))

-- From a task that has named just the receivers that its state and its index say, the dialogue over
-- any bytes of the server ends, with one round more than there are bytes. It leaves such a task,
-- unless it reads outside of the receivers, and when the mail was accepted every receiver has been
-- named, each once and in order.
pub send_mail-IsTold :
    (t : Task) (buf : List ℕ)
    → IsNamed t
    → (o : Outcome) × (send_mail (suc (length buf)) t buf ≡ some o) × IsTold o
send_mail-IsTold t buf h = send_mail_loop (suc (length buf)) t buf (omega arith) h
