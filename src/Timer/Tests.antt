-- ===== src/Timer/Tests.antt =====
-- A run of src/timer.cc.
use angel.Prelude.{ℕ, ◌≡◌, ◌≢◌, refl, List, [], ◌∷◌, some, none, arith}
use angel.Timer.{
  Task, Timers, Call, adds, cancels, new_timers, add_timer, add_timer_in_loop, emplace, tick, fire,
  timeout, find, erase_map,
}
use angel.Timer.Ticks.{Settled, tick-Settled}
use angel.Timer.Ends.{tick_ends, fire_self_cancel}

abbrev once : Task
once = record { id = 0; expire = 30; interval = 0; callback = 0 }

abbrev often : Task
often = record { id = 0; expire = 10; interval = 15; callback = 1 }

abbrev no_calls : ℕ → List Call
no_calls c = []

wait : timeout (add_timer (add_timer new_timers once).0 often).0 4 ≡ some 6
unfolding timeout add_timer add_timer_in_loop emplace
wait = refl

abbrev both : Timers
both = record {
  timer_set = often ∷ once ∷ [];
  timer_map = (0, once) ∷ (1, often) ∷ [];
  timer_id = 2;
}

-- Every callback adds a timer and cancels the one with the id 0.
abbrev some_calls : ℕ → List Call
some_calls c = adds (record once { expire = 90 }) ∷ cancels 0 ∷ []

tick-Settled_example : Settled 31 (tick some_calls 5 31 both)
tick-Settled_example = tick-Settled some_calls 5 31 both ((omega arith, tt), (tt, tt))

tick_ends_example : tick no_calls 60 31 both ≢ none
tick_ends_example = tick_ends no_calls (λ c. tt) 60 31 both (omega arith)

abbrev cancels_itself : ℕ → List Call
cancels_itself c = cancels 1 ∷ []

abbrev repeated : Task
repeated = record { id = 1; expire = 10; interval = 15; callback = 1 }

abbrev alone : Timers
alone = record { timer_set = repeated ∷ []; timer_map = (1, repeated) ∷ []; timer_id = 2 }

forgotten : find 1 (erase_map 1 alone.timer_map) ≡ none
unfolding find erase_map
forgotten = refl

fire_self_cancel_example :
    ((fire cancels_itself alone repeated []).timer_set
      ≡ emplace (record repeated { expire = 25 }) [])
    × (find 1 (fire cancels_itself alone repeated []).timer_map
        ≡ some (record repeated { expire = 25 }))
fire_self_cancel_example =
    fire_self_cancel cancels_itself alone repeated [] (omega arith) refl forgotten
