-- ===== src/Timer/Order.antt =====
-- src/timer.cc: the set of timers stays in the order of the expiration times.
use angel.Prelude.{ℕ, ◌+◌, ◌≤◌, List, [], ◌∷◌, arith, ltb, inl, inr, Bool-cases, Option-cases}
use angel.Timer.{
  Task, Timers, Call, adds, cancels, emplace, erase_in_range, find, add_timer_in_loop, add_timer,
  cancel_timer_in_loop, cancel_timer, perform, fire, erase_map,
}

-- No task of the list expires before the time.
abbrev pub From : ℕ → List Task → Type 0
From e [] = Unit {0}
From e (x ∷ xs) = (e ≤ x.expire) × From e xs

abbrev pub IsSorted : List Task → Type 0
IsSorted [] = Unit {0}
IsSorted (x ∷ xs) = From x.expire xs × IsSorted xs

From-mono : (d e : ℕ) (xs : List Task) → d ≤ e → From e xs → From d xs
From-mono d e [] h f = tt
From-mono d e (x ∷ xs) h f = (omega (arith, f.0), From-mono d e xs h f.1)

emplace-From :
    (e : ℕ) (task : Task) (xs : List Task) → e ≤ task.expire → From e xs → From e (emplace task xs)
unfolding emplace
emplace-From e task [] h f = (h, tt)
emplace-From e task (x ∷ xs) h f = ground (arith, emplace-From e task xs h f.1)

pub emplace-IsSorted : (task : Task) (xs : List Task) → IsSorted xs → IsSorted (emplace task xs)
unfolding emplace
emplace-IsSorted task [] s = (tt, tt)
emplace-IsSorted task (x ∷ xs) s = elim (Bool-cases (ltb task.expire x.expire)) [
  | inl before ↦
      let h : task.expire ≤ x.expire = ground arith in
      rw before ((h, From-mono task.expire x.expire xs h s.0), s)
  | inr behind ↦
      rw behind (emplace-From x.expire task xs (ground arith) s.0, emplace-IsSorted task xs s.1)
]

erase-From : (e d id : ℕ) (xs : List Task) → From e xs → From e (erase_in_range d id xs)
unfolding erase_in_range
erase-From e d id [] f = tt
erase-From e d id (x ∷ xs) f = ground (arith, erase-From e d id xs f.1)

pub erase-IsSorted : (d id : ℕ) (xs : List Task) → IsSorted xs → IsSorted (erase_in_range d id xs)
unfolding erase_in_range
erase-IsSorted d id [] s = tt
erase-IsSorted d id (x ∷ xs) s =
    ground (arith, erase-From x.expire d id xs s.0, erase-IsSorted d id xs s.1)

cancel_in_loop-IsSorted :
    (t : Timers) (id : ℕ) → IsSorted t.timer_set → IsSorted (cancel_timer_in_loop t id).timer_set
unfolding cancel_timer_in_loop
cancel_in_loop-IsSorted t id s = elim (Option-cases (find id t.timer_map)) [
  | inl e ↦ rw (e, cancel_timer_in_loop) s
  | inr (task, e) ↦
      rw (e, cancel_timer_in_loop) (ground (arith, erase-IsSorted task.expire id t.timer_set s))
]

cancel_timer-IsSorted :
    (t : Timers) (id : ℕ) → IsSorted t.timer_set → IsSorted (cancel_timer t id).timer_set
unfolding cancel_timer
cancel_timer-IsSorted t id s = ground (arith, cancel_in_loop-IsSorted t id s)

add_timer-IsSorted :
    (t : Timers) (task : Task) → IsSorted t.timer_set → IsSorted (add_timer t task).0.timer_set
unfolding add_timer add_timer_in_loop
add_timer-IsSorted t task s = emplace-IsSorted (record task { id = t.timer_id }) t.timer_set s

-- Whatever a callback adds and cancels, timers in the order of the expiration times stay in order.
pub perform-IsSorted :
    (t : Timers) (cs : List Call) → IsSorted t.timer_set → IsSorted (perform t cs).timer_set
unfolding perform
perform-IsSorted t [] s = s
perform-IsSorted t (adds task ∷ cs) s =
    perform-IsSorted (add_timer t task).0 cs (add_timer-IsSorted t task s)
perform-IsSorted t (cancels id ∷ cs) s =
    perform-IsSorted (cancel_timer t id) cs (cancel_timer-IsSorted t id s)

pub fire-IsSorted :
    (calls : ℕ → List Call) (t : Timers) (cur : Task) (rest : List Task)
    → IsSorted rest
    → IsSorted (fire calls t cur rest).timer_set
unfolding fire add_timer_in_loop
fire-IsSorted calls t cur rest s =
    let p =
      perform-IsSorted (record t { timer_set = rest; timer_map = erase_map cur.id t.timer_map })
        (calls cur.callback) s in
    ground (
      arith,
      p,
      emplace-IsSorted (record cur { expire = cur.expire + cur.interval })
          (perform (record t { timer_set = rest; timer_map = erase_map cur.id t.timer_map })
            (calls cur.callback)).timer_set
          p,
    )
