-- ===== src/Examples/Workflow.antt =====
-- The theorems of Workflow at a concrete run: one fetched e-mail, whose analysis panics.
use billingrse_backend.Prelude.{ℕ, suc, true, false, ◌≡◌, refl, [], ◌∷◌, ok}
use billingrse_backend.GoText.{Text, txt, trim_space, trim_left, trim_right, is_space, eq_text}
use billingrse_backend.GoContext.{live}
use billingrse_backend.Workflow.Types.{DispatchJob, CreatedEmail, FetchResult, Result, empty_result}
use billingrse_backend.Workflow.Validation.{
  validate_dispatch_job, validate_command, validate_condition, normalize_condition,
}
use billingrse_backend.Workflow.ErrorMessages.{GoErrors}
use billingrse_backend.Workflow.Parts.{Wired, returned, refused, panicked}
use billingrse_backend.Workflow.Progress.{
  build_fetch_progress, build_analysis_progress, build_vendor_resolution_progress,
  build_billing_eligibility_progress, build_billing_progress,
}
use billingrse_backend.Workflow.Progress.Counts.{IsCoherent, IsCounted, progress-accepted}
use billingrse_backend.Workflow.StatusRepository.{accepts}
use billingrse_backend.Workflow.Run.{execute}
use billingrse_backend.Workflow.Protocol.{before_run, Finished, watched}
use billingrse_backend.Workflow.Protocol.Execution.{connected, execute-Finished}

-- Errors that are their own text.
instance abbrev text_errors : GoErrors Text
text_errors = record {
  is_error = λ e k. false;
  error_text = λ e. e;
  nil_context = txt "context is nil";
  invalid_job = λ e. txt "invalid command";
  not_configured = λ name. name;
  panic_error = λ value. value;
}

abbrev email : CreatedEmail
email = record {
  email_id = 5;
  external_message_id = txt "m-1";
  subject = txt "Receipt";
  from = txt "cafe@example.com";
  to = [];
  received_at = record { instant = 63850000000000000000; location = 0 };
  body = txt "450";
  body_digest = txt "d";
}

abbrev fetched : FetchResult
fetched = record {
  created_emails = email ∷ [];
  existing_email_ids = 4 ∷ [];
  failures =
      record {
        external_message_id = txt "m-2";
        stage = txt "fetch_detail";
        code = txt "fetch_detail_failed";
        message = [];
      }
      ∷ [];
}

-- The state counts the calls.
abbrev parts : Wired Text Text ℕ
parts = record {
  fetch_stage = λ c n. (returned fetched, suc n);
  analyze_stage = λ c n. (panicked (txt "index out of range"), suc n);
  vendor_resolution_stage = λ c n. (refused (txt "no rows"), suc n);
  billing_eligibility_stage = λ c n. (refused (txt "no rows"), suc n);
  billing_stage = λ c n. (refused (txt "no rows"), suc n);
  repository = record {
    mark_running = λ id stage n. (returned tt, suc n);
    save_progress = λ p n. (returned tt, suc n);
    complete = λ id status time n. (returned tt, suc n);
    fail = λ id stage time message n. (refused (txt "no rows"), suc n);
  };
  now = λ n. record { instant = n; location = 9 };
}

abbrev job : ℕ → DispatchJob
job user_id = record {
  history_id = 21;
  workflow_id = txt "w-1";
  user_id = user_id;
  connection_id = 2;
  condition = record {
    label_name = txt " billing ";
    since = record { instant = 1000; location = 0 };
    until = record { instant = 2000; location = 0 };
  };
}

job_valid : validate_dispatch_job (job 7) ≡ ok tt
unfolding validate_dispatch_job validate_command validate_condition normalize_condition trim_space
    trim_left trim_right is_space
job_valid = refl

execute-Finished_example :
    Finished (execute (connected (watched (job 7) parts)) live (job 7) (before_run, 0))
execute-Finished_example = execute-Finished parts (job 7) 0 job_valid

abbrev result : Result Text
result = record empty_result { fetch = fetched }

code-IsCounted : IsCounted (txt "fetch_detail_failed")
unfolding eq_text
code-IsCounted = refl

coherent : IsCoherent result
coherent = record {
  fetch_codes = (code-IsCounted, tt);
  analysis_codes = tt;
  unresolved_codes = tt;
  vendor_codes = tt;
  ineligible_codes = tt;
  ineligible_count = refl;
  eligibility_codes = tt;
  duplicate_codes = tt;
  billing_codes = tt;
}

progress-accepted_example :
    (accepts (build_fetch_progress 21 result.fetch) ≡ true)
    × (accepts (build_analysis_progress 21 result.analysis) ≡ true)
    × (accepts (
          build_vendor_resolution_progress 21 result.analysis.parsed_emails
            result.vendor_resolution)
        ≡ true)
    × (accepts (build_billing_eligibility_progress 21 result.billing_eligibility) ≡ true)
    × (accepts (build_billing_progress 21 result.billing) ≡ true)
progress-accepted_example = progress-accepted 21 result coherent
