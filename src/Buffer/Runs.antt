-- ===== src/Buffer/Runs.antt =====
-- Any run of buffer calls against the same run on a plain sequence of bytes.
use angel.Prelude.{
  ℕ, ◌≡◌, refl, ap, ◌∙◌, List, [], ◌∷◌, ◌++◌, Option, some, arith, drop, drop-length,
}
use angel.Buffer.{
  Buffer, Received, contents, readable, append, retrieve, retrieve_all, c_str, read_fd, ◌>>=◌,
}
use angel.Buffer.Laws.{IsValid, append-Appended, length-contents}
use angel.Buffer.Queue.{retrieve-drops, c_str-Terminated, received, read_fd-Appended}

pub data Call : Type 0 where
  appends : List ℕ → Call
  receives : Received → Call
  retrieves : ℕ → Call
  retrieves_all : Call
  terminates : Call

pub perform : Buffer → Call → Option Buffer
perform b (appends s) = append b s
perform b (receives r) = read_fd b r
perform b (retrieves n) = some (retrieve b n)
perform b retrieves_all = some (retrieve_all b)
perform b terminates = c_str b

pub run : Buffer → List Call → Option Buffer
unfolding perform
run b [] = some b
run b (c ∷ cs) = perform b c >>= λ b'. run b' cs

-- The same calls on the sequence of the unread bytes.
pub perform_queue : List ℕ → Call → List ℕ
perform_queue q (appends s) = q ++ s
perform_queue q (receives r) = q ++ received r
perform_queue q (retrieves n) = drop n q
perform_queue q retrieves_all = []
perform_queue q terminates = q

pub run_queue : List ℕ → List Call → List ℕ
unfolding perform_queue
run_queue q [] = q
run_queue q (c ∷ cs) = run_queue (perform_queue q c) cs

pub record Refines (q : List ℕ) (result : Option Buffer) : Type 0 where
  pub out : Buffer
  pub returns : result ≡ some out
  pub valid : IsValid out
  pub holds : contents out ≡ q

perform-Refines :
    (b : Buffer) (c : Call) → IsValid b → Refines (perform_queue (contents b) c) (perform b c)
unfolding perform perform_queue
perform-Refines b (appends s) v =
    let a = append-Appended b s v in
    record { out = a.out; returns = a.returns; valid = a.valid; holds = a.holds }
perform-Refines b (receives r) v =
    let a = read_fd-Appended b r v in
    record { out = a.out; returns = a.returns; valid = a.valid; holds = a.holds }
perform-Refines b (retrieves n) v =
    let d = retrieve-drops b n v in
    record { out = retrieve b n; returns = refl; valid = d.0; holds = d.1 }
perform-Refines b retrieves_all v =
    let d = retrieve-drops b (readable b) v in
    record {
      out = retrieve_all b;
      returns = refl;
      valid = unfold retrieve_all in d.0;
      holds =
          unfold retrieve_all in
          d.1 ∙ drop-length (readable b) (contents b) (omega (arith, length-contents b v));
    }
perform-Refines b terminates v =
    let t = c_str-Terminated b v in
    record { out = t.out; returns = t.returns; valid = t.valid; holds = t.same }

-- From any valid buffer every run of the buffer's calls returns, never writes outside the vector,
-- and leaves a valid buffer whose contents are those of the same run on a plain byte sequence.
pub run-Refines :
    (b : Buffer) (cs : List Call) → IsValid b → Refines (run_queue (contents b) cs) (run b cs)
unfolding run run_queue
run-Refines b [] v = record { out = b; returns = refl; valid = v; holds = refl }
run-Refines b (c ∷ cs) v =
    let first = perform-Refines b c v in
    let rest = run-Refines first.out cs first.valid in
    record {
      out = rest.out;
      returns = rw (first.returns) rest.returns;
      valid = rest.valid;
      holds = rest.holds ∙ ap (λ q. run_queue q cs) first.holds;
    }
