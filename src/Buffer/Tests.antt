-- ===== src/Buffer/Tests.antt =====
-- Runs of src/buffer.cc on small buffers.
use angel.Prelude.{◌≡◌, refl, List, [], ◌∷◌, codes, some, arith}
use angel.Buffer.{Buffer, Received, bytes, contents}
use angel.Buffer.Laws.{IsValid}
use angel.Buffer.Search.{find, search_first}
use angel.Buffer.Runs.{
  Call, appends, receives, retrieves, terminates, run, run_queue, Refines, run-Refines,
}

-- Room for three bytes behind "GET", of which "G" has been read.
abbrev small : Buffer
small = record { buf = codes "-------GET..."; read_index = 8; write_index = 10 }

small-IsValid : IsValid small
small-IsValid = record { ordered = omega arith; fits = omega arith }

abbrev arrived : Received
arrived = bytes (codes " /index")

abbrev session : List Call
session = appends (codes " /in") ∷ retrieves 2 ∷ receives arrived ∷ terminates ∷ []

found : find small (codes "T") ≡ some 1
unfolding find search_first
found = refl

run-Refines_example : Refines (run_queue (contents small) session) (run small session)
run-Refines_example = run-Refines small session small-IsValid
