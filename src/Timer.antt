-- ===== src/Timer.antt =====
-- The timers of an event loop: src/timer.h and src/timer.cc. Times are milliseconds.
pub mod Order
pub mod Ticks
pub mod Ends
pub mod Tests
use angel.Prelude.{
  ℕ, zero, suc, ◌+◌, ◌-◌, ◌≡◌, List, [], ◌∷◌, ◌++◌, Bool, true, false, Option, none, some, ◌&&◌,
  ◌||◌, ltb, ◌==◌, if◌then◌else◌,
}

-- `callback` names the function that the task runs.
pub record Task : Type 0 where
  pub id : ℕ
  pub expire : ℕ
  pub interval : ℕ
  pub callback : ℕ

-- `timer_set`, which holds pointers in the order of the expiration times, and `timer_map`, which
-- owns the tasks, newest first.
pub record Timers : Type 0 where
  pub timer_set : List Task
  pub timer_map : List (ℕ × Task)
  pub timer_id : ℕ

abbrev pub new_timers : Timers
new_timers = record { timer_set = []; timer_map = []; timer_id = 1 }

-- `none` is -1: nothing to wait for.
unfoldable pub timeout : Timers → ℕ → Option ℕ
timeout t now = elim t.timer_set [
  | [] ↦ none
  | task ∷ rest ↦ some (if ltb now task.expire then task.expire - now else 0)
]

-- A multiset puts an element behind those that are not greater.
unfoldable pub emplace : Task → List Task → List Task
emplace task [] = task ∷ []
emplace task (x ∷ xs) = if ltb task.expire x.expire then task ∷ x ∷ xs else x ∷ emplace task xs

unfoldable pub find : ℕ → List (ℕ × Task) → Option Task
find id [] = none
find id ((i, task) ∷ m) = if i == id then some task else find id m

-- `unordered_map::emplace` leaves an entry that is there.
unfoldable pub emplace_map : ℕ → Task → List (ℕ × Task) → List (ℕ × Task)
emplace_map id task m = elim (find id m) [ none ↦ (id, task) ∷ m | some old ↦ m ]

unfoldable pub erase_map : ℕ → List (ℕ × Task) → List (ℕ × Task)
erase_map id [] = []
erase_map id ((i, task) ∷ m) = if i == id then m else (i, task) ∷ erase_map id m

unfoldable pub add_timer_in_loop : Timers → Task → Timers
add_timer_in_loop t task = record t {
  timer_set = emplace task t.timer_set;
  timer_map = emplace_map task.id task t.timer_map;
}

-- The id is taken at once; called in the loop's thread, the task is added at once as well.
unfoldable pub add_timer : Timers → Task → Timers × ℕ
add_timer t task = (
  add_timer_in_loop (record t { timer_id = t.timer_id + 1 }) (record task { id = t.timer_id }),
  t.timer_id,
)

-- The loop over the range of equal expiration times: the first task of the id is taken out.
unfoldable pub erase_in_range : ℕ → ℕ → List Task → List Task
erase_in_range expire id [] = []
erase_in_range expire id (x ∷ xs) =
    if x.expire == expire && x.id == id then xs else x ∷ erase_in_range expire id xs

-- Whether that loop finds the task.
unfoldable pub in_range : ℕ → ℕ → List Task → Bool
in_range expire id [] = false
in_range expire id (x ∷ xs) = x.expire == expire && x.id == id || in_range expire id xs

unfoldable pub cancel_timer_in_loop : Timers → ℕ → Timers
cancel_timer_in_loop t id = elim (find id t.timer_map) [
  | none ↦ t
  | some task ↦
      if in_range task.expire id t.timer_set
      then record t {
        timer_set = erase_in_range task.expire id t.timer_set;
        timer_map = erase_map id t.timer_map;
      }
      else t
]

unfoldable pub cancel_timer : Timers → ℕ → Timers
cancel_timer t id = if id == 0 then t else cancel_timer_in_loop t id

-- What a callback does to the timers of its loop.
pub data Call : Type 0 where
  adds : Task → Call
  cancels : ℕ → Call

unfoldable pub perform : Timers → List Call → Timers
perform t [] = t
perform t (adds task ∷ cs) = perform (add_timer t task).0 cs
perform t (cancels id ∷ cs) = perform (cancel_timer t id) cs

-- The timers after `tick`, and the tasks that it ran, in order. `none` means that the fuel ran
-- out.
abbrev pub Ticked : Type 0
Ticked = Option (Timers × List Task)

abbrev pub ran : Task → Ticked → Ticked
ran task none = none
ran task (some (t, log)) = some (t, task ∷ log)

-- The callbacks are the user's: `calls` says what each does.
module _ (calls : ℕ → List Call) where
  -- One round of `tick`: the first task is taken out, run, and added again if it has an interval.
  unfoldable pub fire : Timers → Task → List Task → Timers
  fire t cur rest =
      let released : Timers = record t {
        timer_set = rest;
        timer_map = erase_map cur.id t.timer_map;
      } in
      let called = perform released (calls cur.callback) in
      if ltb 0 cur.interval
      then add_timer_in_loop called (record cur { expire = cur.expire + cur.interval })
      else called

  unfoldable pub tick : ℕ → ℕ → Timers → Ticked
  tick zero now t = none
  tick (suc fuel) now t = elim t.timer_set [
    | [] ↦ some (t, [])
    | cur ∷ rest ↦
        let later = ran cur (tick fuel now (fire t cur rest)) in
        if ltb now cur.expire then some (t, []) else later
  ]
