-- ===== src/Smtp/Tests.antt =====
-- Tests of src/smtplib/smtplib.cc on a concrete dialogue.
use angel.Prelude.{ℕ, suc, ◌≡◌, refl, List, [], ◌∷◌, false, some, codes, length}
use angel.Smtp.{Task, Outcome, init, send_mail}
use angel.Smtp.Receivers.{IsNamed, IsTold, send_mail-IsTold}

abbrev task : Task
task = record {
  state = init;
  rcpt_index = 0;
  need_auth = false;
  username = [];
  password = [];
  sender = codes "a@b";
  receivers = codes "c@d" ∷ codes "e@f" ∷ [];
  mail_data = codes "hi";
  sent = [];
}

abbrev replies : List ℕ
replies = codes "220 b\r\n250 b\r\n250 ok\r\n250 ok\r\n250 ok\r\n354 go\r\n250 ok\r\n221 bye\r\n"

task-IsNamed : IsNamed task
task-IsNamed = (refl, refl)

send_mail-IsTold_example :
    (o : Outcome) × (send_mail (suc (length replies)) task replies ≡ some o) × IsTold o
send_mail-IsTold_example = send_mail-IsTold task replies task-IsNamed
