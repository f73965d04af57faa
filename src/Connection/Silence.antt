-- ===== src/Connection/Silence.antt =====
-- src/connection.cc: what a closed connection still does.
use angel.Prelude.{
  ℕ, zero, suc, ◌+◌, ◌≡◌, refl, ap, sym, ◌∙◌, List, [], ◌∷◌, ◌++◌, true, arith, ◌==◌, inl, inr,
  Bool-cases, replicate, append-nil, append_assoc,
}
use angel.Connection.{
  Connection, high_water, is_closed, handle_close, send_in_loop, send_file_in_loop,
  set_send_complete_handler, handle_write, run_queued,
}
use angel.Connection.Calls.{
  Call, sends, sends_file, sets_handler, writable, closes, runs_queued, perform, run,
}

-- Closed, and all that has left since are calls of the high-water handler which waited in the loop.
abbrev pub Silent : Connection → Connection → Type 0
Silent c d =
    (is_closed d ≡ true)
    × ((k : ℕ) × (d.events ≡ c.events ++ replicate k high_water)
        × (d.queued_handlers + k ≡ c.queued_handlers))

Silent-same :
    (c d : Connection)
    → is_closed d ≡ true
    → d.events ≡ c.events
    → d.queued_handlers ≡ c.queued_handlers
    → Silent c d
Silent-same c d h e q = (h, (0, e ∙ sym (append-nil c.events), omega (arith, q)))

replicate-add :
    (j k : ℕ) → replicate j high_water ++ replicate k high_water ≡ replicate (j + k) high_water
replicate-add zero k = ap (λ n. replicate n high_water) (let z : k ≡ 0 + k = omega arith in z)
replicate-add (suc j) k =
    ap (λ es. high_water ∷ es) (replicate-add j k)
    ∙ ap (λ n. replicate n high_water) (let s : suc (j + k) ≡ suc j + k = omega arith in s)

Silent-trans : (c d e : Connection) → Silent c d → Silent d e → Silent c e
Silent-trans c d e (_, (j, es, q)) (h, (k, es', q')) = (
  h,
  (
    j + k,
    es'
        ∙ ap (λ t. t ++ replicate k high_water) es
        ∙ append_assoc c.events (replicate j high_water) (replicate k high_water)
        ∙ ap (λ t. c.events ++ t) (replicate-add j k),
    omega (arith, q, q'),
  ),
)

run_queued-Silent : (c : Connection) → is_closed c ≡ true → Silent c (run_queued c)
unfolding run_queued
run_queued-Silent c h = elim (Bool-cases (c.queued_handlers == 0)) [
  | inl none_left ↦ rw none_left (Silent-same c c h refl refl)
  | inr some_left ↦ rw some_left (h, (1, refl, ground arith))
]

perform-Silent : (c : Connection) (call : Call) → is_closed c ≡ true → Silent c (perform c call)
unfolding perform
perform-Silent c (sends before bytes io) h =
    unfold send_in_loop in rw h (Silent-same c c h refl refl)
perform-Silent c (sends_file f io) h =
    unfold send_file_in_loop in rw h (Silent-same c c h refl refl)
perform-Silent c (sets_handler handler) h =
    unfold set_send_complete_handler in
    Silent-same c (set_send_complete_handler c handler) h refl refl
perform-Silent c (writable bytes_io file_io) h =
    unfold handle_write in rw h (Silent-same c c h refl refl)
perform-Silent c (closes is_forced) h = unfold handle_close in rw h (Silent-same c c h refl refl)
perform-Silent c runs_queued h = run_queued-Silent c h

-- A closed connection stays closed under every run of calls, and no bytes, files, completions,
-- removal or close handler leave it: only calls of the high-water handler that were given to the
-- loop before, each once.
pub run-Silent : (c : Connection) (calls : List Call) → is_closed c ≡ true → Silent c (run c calls)
unfolding run
run-Silent c [] h = Silent-same c c h refl refl
run-Silent c (call ∷ calls) h =
    let first = perform-Silent c call h in
    let rest = run-Silent (perform c call) calls first.0 in
    Silent-trans c (perform c call) (run (perform c call) calls) first rest
