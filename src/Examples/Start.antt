-- ===== src/Examples/Start.antt =====
-- The theorem of Workflow.Start at a concrete command.
use billingrse_backend.Prelude.{ℕ, suc, false, ◌≡◌, refl, some, ok, err, arith}
use billingrse_backend.GoText.{Text, txt, trim_space, trim_left, trim_right, is_space}
use billingrse_backend.GoContext.{live}
use billingrse_backend.Workflow.Types.{Command}
use billingrse_backend.Workflow.Validation.{
  normalize_condition, validate_condition, validate_command, validate_dispatch_job,
}
use billingrse_backend.Workflow.ErrorMessages.{GoErrors}
use billingrse_backend.Workflow.Start.{
  Dispatcher, QueueRepository, StartSources, accept, check_start, start,
}
use billingrse_backend.Workflow.Start.Dispatch.{guarded, start-guarded}

-- Errors that are their own text.
instance abbrev plain_errors : GoErrors Text
plain_errors = record {
  is_error = λ e k. false;
  error_text = λ e. e;
  nil_context = txt "context is nil";
  invalid_job = λ e. txt "invalid command";
  not_configured = λ name. name;
  panic_error = λ value. value;
}

-- The state counts the calls.
abbrev sources : StartSources Text ℕ
sources = record {
  generate_string = λ alphabet size n. (ok (txt "01ABC"), suc n);
  now = λ n. record { instant = n; location = 9 };
  wrap_error = λ prefix e. e;
}

abbrev full_queue : Dispatcher Text ℕ
full_queue job n = (err (txt "queue is full"), suc n)

abbrev history : QueueRepository Text ℕ
history = record {
  create_queued = λ q n. (ok (record { history_id = suc n; workflow_id = txt "01ABC" }), suc n);
  fail = λ id stage time message n. (ok tt, suc n);
}

abbrev command : Command
command = record {
  user_id = 7;
  connection_id = 3;
  condition = record {
    label_name = txt " billing ";
    since = record { instant = 10; location = 0 };
    until = record { instant = 50; location = 0 };
  };
}

start_opened : Unit {0}
unfolding trim_space trim_left trim_right is_space normalize_condition validate_condition
    validate_command validate_dispatch_job accept check_start start
start_opened = tt

-- Four calls: the id, the row, the dispatcher, and Fail.
start-full_queue :
    start sources live (some full_queue) (some history) command 20 ≡ (err (txt "queue is full"), 24)
unfolding start_opened
start-full_queue = refl

start-guarded_example :
    start sources live (some (guarded full_queue)) (some history) command 20
    ≡ start sources live (some full_queue) (some history) command 20
unfolding start_opened
start-guarded_example =
    start-guarded sources full_queue history live command 20 (λ q n. ((λ z. omega arith), refl))
