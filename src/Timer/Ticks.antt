-- ===== src/Timer/Ticks.antt =====
-- `tick` of src/timer.cc: what it runs, what it leaves, and that it ends.
use angel.Prelude.{
  ℕ, zero, suc, ◌+◌, ◌≤◌, ◌≡◌, refl, List, [], ◌∷◌, some, none, arith, ltb, inl, inr, Bool-cases,
}
use angel.Timer.{Task, Timers, Call, Ticked, ran, fire, tick}
use angel.Timer.Order.{From, IsSorted, fire-IsSorted}

-- Every task of the list has expired.
abbrev pub Due : ℕ → List Task → Type 0
Due now [] = Unit {0}
Due now (x ∷ xs) = (x.expire ≤ now) × Due now xs

-- What a finished `tick` leaves: an ordered set in which nothing has expired.
abbrev pub Settled : ℕ → Ticked → Type 0
Settled now none = Unit {0}
Settled now (some (t, log)) = IsSorted t.timer_set × From (now + 1) t.timer_set × Due now log

ran-Settled :
    (now : ℕ) (cur : Task) (r : Ticked) → cur.expire ≤ now → Settled now r → Settled now (ran cur r)
ran-Settled now cur none h s = tt
ran-Settled now cur (some (t, log)) h s = (s.0, s.1, (h, s.2))

From-mono : (d e : ℕ) (xs : List Task) → d ≤ e → From e xs → From d xs
From-mono d e [] h f = tt
From-mono d e (x ∷ xs) h f = (omega (arith, f.0), From-mono d e xs h f.1)

module _ (calls : ℕ → List Call) where
  round-Settled :
      (fuel now : ℕ) (t : Timers) (set : List Task)
      → t.timer_set ≡ set
      → IsSorted set
      → ((cur : Task) (rest : List Task)
          → IsSorted rest
          → Settled now (tick calls fuel now (fire calls t cur rest)))
      → Settled now (tick calls (suc fuel) now t)
  unfolding tick
  round-Settled fuel now t [] e s go = rw (e, tick) (rw e tt, rw e tt, tt)
  round-Settled fuel now t (cur ∷ rest) e s go = elim (Bool-cases (ltb now cur.expire)) [
    | inl later ↦
        rw (e, tick, later)
          (rw e s, rw e (ground arith, From-mono (now + 1) cur.expire rest (ground arith) s.0), tt)
    | inr due ↦ rw (e, tick, due) (ran-Settled now cur _ (ground arith) (go cur rest s.1))
  ]

  -- From timers in order, whatever the callbacks add and cancel, a `tick` that ends has run only tasks that had expired,
  -- and leaves the timers in order and none of them expired.
  pub tick-Settled :
      (fuel now : ℕ) (t : Timers) → IsSorted t.timer_set → Settled now (tick calls fuel now t)
  tick-Settled zero now t s = unfold tick in tt
  tick-Settled (suc fuel) now t s = round-Settled fuel now t t.timer_set refl s (λ cur rest r.
      tick-Settled fuel now (fire calls t cur rest) (fire-IsSorted calls t cur rest r))
