-- ===== src/Connection/Stream.antt =====
-- src/connection.cc: the byte stream of a connection, and what closing leaves of it.
use angel.Prelude.{
  ℕ, ◌+◌, ◌≡◌, ◌⊎◌, refl, ap, sym, ◌∙◌, List, [], ◌∷◌, ◌++◌, Bool, true, false, if◌then◌else◌, ◌==◌,
  inl, inr, length, append_assoc, append-nil,
}
use angel.Connection.{
  Connection, Event, wrote, sent_file, send_complete, high_water, removed, close_called, is_closed,
  handle_close, run_queued,
}

-- The bytes that `write` handed to the kernel.
abbrev pub handed : List Event → List ℕ
handed [] = []
handed (wrote bytes ∷ es) = bytes ++ handed es
handed (sent_file f ∷ es) = handed es
handed (send_complete n ∷ es) = handed es
handed (high_water ∷ es) = handed es
handed (removed ∷ es) = handed es
handed (close_called ∷ es) = handed es

abbrev pub total : List (ℕ × ℕ) → ℕ
total [] = 0
total ((id, len) ∷ rest) = len + total rest

-- The queued lengths add up to the bytes of the buffer.
abbrev pub IsValid : Connection → Type 0
IsValid c = total c.byte_stream_queue ≡ length c.output_buf

-- The byte stream so far: what the kernel has and what is queued.
abbrev pub stream : Connection → List ℕ
stream c = handed c.events ++ c.output_buf

abbrev pub Grown : Connection → List ℕ → Connection → Type 0
Grown c more d = IsValid d × (stream d ≡ stream c ++ more)

-- Nothing of the byte streams changes.
abbrev pub Same : Connection → Connection → Type 0
Same c d =
    (d.output_buf ≡ c.output_buf)
    × (d.byte_stream_queue ≡ c.byte_stream_queue)
    × (handed d.events ≡ handed c.events)

pub Same-refl : (c : Connection) → Same c c
Same-refl c = (refl, refl, refl)

pub Same-trans : (c d e : Connection) → Same c d → Same d e → Same c e
Same-trans c d e s t = (t.0 ∙ s.0, t.1 ∙ s.1, t.2 ∙ s.2)

pub handed-append : (es fs : List Event) → handed (es ++ fs) ≡ handed es ++ handed fs
handed-append [] fs = refl
handed-append (wrote bytes ∷ es) fs =
    rw (handed-append es fs) (sym (append_assoc bytes (handed es) (handed fs)))
handed-append (sent_file f ∷ es) fs = handed-append es fs
handed-append (send_complete n ∷ es) fs = handed-append es fs
handed-append (high_water ∷ es) fs = handed-append es fs
handed-append (removed ∷ es) fs = handed-append es fs
handed-append (close_called ∷ es) fs = handed-append es fs

-- An event that is no write leaves the handed bytes.
pub emit-handed :
    (es : List Event) (e : Event) → handed (e ∷ []) ≡ [] → handed (es ++ e ∷ []) ≡ handed es
emit-handed es e h = handed-append es (e ∷ []) ∙ ap (λ x. handed es ++ x) h ∙ append-nil (handed es)

pub if-holds {ℓ κ} :
    {A : Type ℓ} (P : A → Type κ) (x y : A) (b : Bool) → P x → P y → P (if b then x else y)
if-holds P x y true s t = s
if-holds P x y false s t = t

pub List-cases {ℓ} :
    {A : Type ℓ} (xs : List A) → (xs ≡ []) ⊎ ((x : A) × (rest : List A) × (xs ≡ x ∷ rest))
List-cases [] = inl refl
List-cases (x ∷ xs) = inr (x, xs, refl)

pub unless-Same :
    (c d e : Connection) (b : Bool) → Same c d → Same c e → Same c (if b then d else e)
unless-Same c d e true s t = s
unless-Same c d e false s t = t

pub handle_close-Same : (c : Connection) (forced : Bool) → Same c (handle_close c forced)
unfolding handle_close
handle_close-Same c forced =
    let first : handed (c.events ++ removed ∷ []) ≡ handed c.events =
      emit-handed c.events removed refl in
    unless-Same c _ _ (is_closed c) (Same-refl c) (
      unless-Same c _ _ _ (refl, refl, refl)
        (unless-Same c _ _ c.has_close_handler
          (refl, refl, emit-handed (c.events ++ removed ∷ []) close_called refl ∙ first)
          (refl, refl, first)))

pub run_queued-Same : (c : Connection) → Same c (run_queued c)
unfolding run_queued
run_queued-Same c =
    unless-Same c _ _ (c.queued_handlers == 0) (Same-refl c)
      (refl, refl, emit-handed c.events high_water refl)
