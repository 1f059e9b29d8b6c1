-- ===== src/Examples/History.antt =====
-- The theorems of Workflow.History at a concrete database, which finds its rows by their ids.
use mathlib.Core.Path.{subst}
use billingrse_backend.Prelude.{
  eq_of_ok, ==_refl, ℕ, ◌≡◌, ◌≢◌, refl, sym, ap, false, Option, none, some, List, [], ◌∷◌, ◌++◌,
  Outcome, ok, ◌==◌, if◌then◌else◌, arith,
}
use billingrse_backend.GoText.{Text, txt, eq_text, trim_space, trim_left, trim_right, is_space}
use billingrse_backend.GoContext.{live}
use billingrse_backend.Workflow.Types.{StageProgress, stage_fetch}
use billingrse_backend.Workflow.StatusRepository.{is_supported_stage, counted_failure_record_count}
use billingrse_backend.Workflow.History.{
  HistoryRow, FailureRow, HistoryDatabase, QueuedHistory, queued_row, check_progress, set_counts,
  counted_row, failed_rows, terminal, save_stage_progress, update_terminal_status, fail,
}
use billingrse_backend.Workflow.History.Lifecycle.{
  IsDatabase, Changed, IsCounted, progress_failures, save_stage_progress-IsCounted,
}

abbrev queued : Text → QueuedHistory
queued id = record {
  workflow_id = id;
  user_id = 7;
  provider = txt "gmail";
  account_identifier = txt "me@example.com";
  label_name = txt "billing";
  since_at = record { instant = 10; location = 0 };
  until_at = record { instant = 50; location = 0 };
  queued_at = record { instant = 60; location = 0 };
}

record Tables : Type 0 where
  histories : ℕ → Option HistoryRow
  failures : List FailureRow

abbrev put : ℕ → HistoryRow → Tables → Tables
put id row t = record t { histories = λ k. if k == id then some row else t.histories k }

abbrev changing :
    ℕ → (HistoryRow → HistoryRow) → Tables → Option HistoryRow → Outcome Text ℕ × Tables
changing id change t none = (ok 0, t)
changing id change t (some row) = (ok 1, put id (change row) t)

abbrev database : HistoryDatabase Tables Text
database = record {
  update_history = λ id change t. changing id change t (t.histories id);
  create_failures = λ rows t. (ok tt, record t { failures = t.failures ++ rows });
  commit = λ t. (ok tt, t);
  now = λ t. record { instant = 71; location = 9 };
}

abbrev Updated : ℕ → (HistoryRow → HistoryRow) → Tables → Tables → Type 0
Updated id change t t' =
    ((old : HistoryRow) × ((t.histories id ≡ some old) × (t'.histories id ≡ some (change old))))
    × (((other : ℕ) → other ≢ id → t'.histories other ≡ t.histories other)
        × (t'.failures ≡ t.failures))

==-false_of_ne : (m n : ℕ) → m ≢ n → (m == n) ≡ false
==-false_of_ne m n h = ground arith

changing-Updated :
    (id n : ℕ) (change : HistoryRow → HistoryRow) (t t' : Tables) (found : Option HistoryRow)
    → t.histories id ≡ found
    → changing id change t found ≡ (ok n, t')
    → n ≢ 0
    → Updated id change t t'
changing-Updated id n change t t' none e h positive =
    absurd (positive (sym (eq_of_ok (ap (λ m. m.0) h))))
changing-Updated id n change t t' (some old) e h positive =
    subst (Updated id change t) (ap (λ m. m.1) h) (
      (old, (e, rw (==_refl id) refl)),
      ((λ other different. rw (==-false_of_ne other id different) refl), refl),
    )

database-IsDatabase : IsDatabase database (λ t. t.histories) (λ t. t.failures)
database-IsDatabase = record {
  updates = λ id n change t t' h positive.
      changing-Updated id n change t t' (t.histories id) refl h positive;
  creates = λ rows t t' h. (ap (λ m. m.1.histories) (sym h), ap (λ m. m.1.failures) (sym h));
  commits = λ t t' h. (ap (λ m. m.1.histories) (sym h), ap (λ m. m.1.failures) (sym h));
}

abbrev tables : Tables
tables = record {
  histories = λ k.
      if k == 1
      then some (queued_row 1 (queued (txt "a")) (record { instant = 60; location = 0 }))
      else if k == 2
      then some (queued_row 2 (queued (txt "b")) (record { instant = 61; location = 0 }))
      else none;
  failures = [];
}

abbrev progress : StageProgress
progress = record {
  history_id = 2;
  stage = stage_fetch;
  success_count = 3;
  business_failure_count = 1;
  technical_failure_count = 0;
  failure_records =
      record {
        stage = stage_fetch;
        external_message_id = none;
        reason_code = txt "invalid_fetched_email";
        message = txt "bad";
      }
      ∷ [];
}

history_opened : Unit {0}
unfolding eq_text trim_space trim_left trim_right is_space is_supported_stage
    counted_failure_record_count queued_row check_progress set_counts save_stage_progress
    update_terminal_status fail
history_opened = tt

abbrev row : HistoryRow
row = queued_row 2 (queued (txt "b")) (record { instant = 61; location = 0 })

abbrev failed : Tables
failed =
    put 2
      (terminal (txt "failed") (some (txt "fetch")) (record { instant = 70; location = 0 })
        (some (txt "no")) (record { instant = 71; location = 0 }) row)
      tables

abbrev counted : Tables
counted = record (put 2 (counted_row progress (record { instant = 71; location = 0 }) row) tables) {
  failures = failed_rows progress (record { instant = 71; location = 0 });
}

save_stage_progress-IsCounted_example :
    Changed 2
      (IsCounted progress (record { instant = 71; location = 9 }))
      tables.histories
      counted.histories
    × (counted.failures ≡ progress_failures progress (record { instant = 71; location = 9 }))
unfolding history_opened
save_stage_progress-IsCounted_example =
    save_stage_progress-IsCounted database (λ t. t.histories) (λ t. t.failures) database-IsDatabase
      live progress tables counted refl
