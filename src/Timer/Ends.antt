-- ===== src/Timer/Ends.antt =====
-- src/timer.cc: `tick` ends when the callbacks add no timers, and a timer that cancels itself.
use angel.Prelude.{
  ℕ, zero, suc, ◌+◌, ◌-◌, ◌≤◌, ◌<◌, ◌≡◌, ◌≢◌, refl, ap, ◌∙◌, List, [], ◌∷◌, some, none, true, arith,
  ltb, ◌==◌, inl, inr, Bool-cases, Option-cases,
}
use angel.Timer.{
  Task, Timers, Call, adds, cancels, Ticked, ran, emplace, erase_in_range, find, add_timer_in_loop,
  cancel_timer_in_loop, cancel_timer, perform, fire, tick, emplace_map, erase_map,
}

-- The milliseconds by which the tasks of a list are late, each counted from 1.
abbrev pub lateness : ℕ → List Task → ℕ
lateness now [] = 0
lateness now (x ∷ xs) = (now + 1 - x.expire) + lateness now xs

abbrev pub OnlyCancels : List Call → Type 0
OnlyCancels [] = Unit {0}
OnlyCancels (adds task ∷ cs) = ⊥
OnlyCancels (cancels id ∷ cs) = OnlyCancels cs

lateness-emplace :
    (now : ℕ) (task : Task) (xs : List Task)
    → lateness now (emplace task xs) ≡ (now + 1 - task.expire) + lateness now xs
unfolding emplace
lateness-emplace now task [] = refl
lateness-emplace now task (x ∷ xs) = ground (arith, lateness-emplace now task xs)

lateness-erase :
    (now e id : ℕ) (xs : List Task) → lateness now (erase_in_range e id xs) ≤ lateness now xs
unfolding erase_in_range
lateness-erase now e id [] = omega arith
lateness-erase now e id (x ∷ xs) = ground (arith, lateness-erase now e id xs)

lateness-cancel_in_loop :
    (now : ℕ) (t : Timers) (id : ℕ)
    → lateness now (cancel_timer_in_loop t id).timer_set ≤ lateness now t.timer_set
unfolding cancel_timer_in_loop
lateness-cancel_in_loop now t id = elim (Option-cases (find id t.timer_map)) [
  | inl e ↦ rw (e, cancel_timer_in_loop) (omega arith)
  | inr (task, e) ↦
      rw (e, cancel_timer_in_loop) (ground (arith, lateness-erase now task.expire id t.timer_set))
]

lateness-perform :
    (now : ℕ) (t : Timers) (cs : List Call)
    → OnlyCancels cs
    → lateness now (perform t cs).timer_set ≤ lateness now t.timer_set
unfolding perform
lateness-perform now t [] h = omega arith
lateness-perform now t (adds task ∷ cs) h = absurd h
lateness-perform now t (cancels id ∷ cs) h =
    let later = lateness-perform now (cancel_timer t id) cs h in
    let here : lateness now (cancel_timer t id).timer_set ≤ lateness now t.timer_set =
      unfold cancel_timer in ground (arith, lateness-cancel_in_loop now t id) in
    omega arith

module _ (calls : ℕ → List Call) (quiet : (c : ℕ) → OnlyCancels (calls c)) where
  lateness-fire :
      (now : ℕ) (t : Timers) (cur : Task) (rest : List Task)
      → cur.expire ≤ now
      → lateness now (fire calls t cur rest).timer_set < lateness now (cur ∷ rest)
  unfolding fire add_timer_in_loop
  lateness-fire now t cur rest due =
      let released : Timers = record t {
        timer_set = rest;
        timer_map = erase_map cur.id t.timer_map;
      } in
      let called = perform released (calls cur.callback) in
      let less = lateness-perform now released (calls cur.callback) (quiet cur.callback) in
      ground (
        arith,
        less,
        lateness-emplace now (record cur { expire = cur.expire + cur.interval }) called.timer_set,
      )

  ran-ne : (cur : Task) (r : Ticked) → r ≢ none → ran cur r ≢ none
  ran-ne cur none h e = h refl
  ran-ne cur (some r) h e = cc

  round-ends :
      (fuel now : ℕ) (t : Timers) (set : List Task)
      → t.timer_set ≡ set
      → ((cur : Task) (rest : List Task)
          → set ≡ cur ∷ rest
          → cur.expire ≤ now
          → tick calls fuel now (fire calls t cur rest) ≢ none)
      → tick calls (suc fuel) now t ≢ none
  unfolding tick
  round-ends fuel now t [] e go = rw (e, tick) (λ q. cc)
  round-ends fuel now t (cur ∷ rest) e go = elim (Bool-cases (ltb now cur.expire)) [
    | inl later ↦ rw (e, tick, later) (λ q. cc)
    | inr due ↦ rw (e, tick, due) (ran-ne cur _ (go cur rest refl (ground arith)))
  ]

  -- When no callback adds a timer, `tick` ends, whatever the intervals: a fuel above `lateness`, the
  -- sum over the due timers of how late each is, counted from 1, is enough.
  pub tick_ends :
      (fuel now : ℕ) (t : Timers) → lateness now t.timer_set < fuel → tick calls fuel now t ≢ none
  tick_ends zero now t h = absurd (omega arith)
  tick_ends (suc fuel) now t h = round-ends fuel now t t.timer_set refl (λ cur rest e due.
      tick_ends fuel now (fire calls t cur rest)
        (omega (arith, lateness-fire now t cur rest due, ap (lateness now) e)))

cancel_missing :
    (t : Timers) (id : ℕ) → find id t.timer_map ≡ none → perform t (cancels id ∷ []) ≡ t
unfolding perform cancel_timer cancel_timer_in_loop
cancel_missing t id h = simp (h, cancel_timer_in_loop) (ground arith)

fire_again :
    (calls : ℕ → List Call) (t : Timers) (cur : Task) (rest : List Task)
    → 0 < cur.interval
    → fire calls t cur rest
      ≡ add_timer_in_loop
          (perform
            (record t { timer_set = rest; timer_map = erase_map cur.id t.timer_map })
            (calls cur.callback))
          (record cur { expire = cur.expire + cur.interval })
unfolding fire
fire_again calls t cur rest h = let again : ltb 0 cur.interval ≡ true = ground arith in rw again

find_added :
    (t : Timers) (task : Task)
    → find task.id t.timer_map ≡ none
    → find task.id (add_timer_in_loop t task).timer_map ≡ some task
unfolding add_timer_in_loop emplace_map
find_added t task h =
    let self : (task.id == task.id) ≡ true = ground arith in
    rw (h, emplace_map) (unfold find in rw self)

-- A timer with an interval that cancels itself in its callback goes on: its id is not found while
-- the callback runs, and the task is added again one interval later.
pub fire_self_cancel :
    (calls : ℕ → List Call) (t : Timers) (cur : Task) (rest : List Task)
    → 0 < cur.interval
    → calls cur.callback ≡ cancels cur.id ∷ []
    → find cur.id (erase_map cur.id t.timer_map) ≡ none
    → let again : Task = record cur { expire = cur.expire + cur.interval } in
      ((fire calls t cur rest).timer_set ≡ emplace again rest)
      × (find cur.id (fire calls t cur rest).timer_map ≡ some again)
fire_self_cancel calls t cur rest repeats self gone =
    let released : Timers = record t {
      timer_set = rest;
      timer_map = erase_map cur.id t.timer_map;
    } in
    let fired = fire_again calls t cur rest repeats in
    let quiet = ap (perform released) self ∙ cancel_missing released cur.id gone in
    (
      ap (λ (u : Timers). u.timer_set)
            (fired
              ∙ ap (λ u. add_timer_in_loop u (record cur { expire = cur.expire + cur.interval }))
                  quiet)
          ∙ unfold add_timer_in_loop in refl,
      ap (λ (u : Timers). find cur.id u.timer_map)
            (fired
              ∙ ap (λ u. add_timer_in_loop u (record cur { expire = cur.expire + cur.interval }))
                  quiet)
          ∙ find_added released (record cur { expire = cur.expire + cur.interval }) gone,
    )
