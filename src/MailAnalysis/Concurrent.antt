-- ===== src/MailAnalysis/Concurrent.antt =====
-- analyzeEmailsConcurrently of internal/mailanalysis/application/usecase.go: one goroutine for each
-- e-mail writes its own element of `results`. A schedule lists the goroutines in the order in which
-- they finish. The analyzer's answer may depend on the call, which is numbered by its goroutine.
use billingrse_backend.Prelude.{ℕ, List, [], ◌≡◌, Outcome, ok}
use billingrse_backend.GoTime.{zero_time}
use billingrse_backend.Goroutines.{indices, Completes, run_goroutines, run_in_order}
use billingrse_backend.Goroutines.Order.{run_goroutines-run_in_order}
use billingrse_backend.MailAnalysis.Types.{EmailForAnalysisTarget, AnalysisOutput}

-- analysisExecutionResult: the e-mail, and either the output or the error.
pub record AnalysisExecutionResult (F X : Type 0) : Type 0 where
  pub email : EmailForAnalysisTarget
  pub answer : Outcome X (AnalysisOutput F)

-- Analyzer.Analyze of the call that goroutine `idx` makes.
abbrev pub Analyze : (F X : Type 0) → Type 0
Analyze F X = ℕ → EmailForAnalysisTarget → Outcome X (AnalysisOutput F)

abbrev zero_email : EmailForAnalysisTarget
zero_email = record {
  email_id = 0;
  external_message_id = [];
  subject = [];
  from = [];
  to = [];
  received_at = zero_time;
  body = [];
  body_digest = [];
}

module _ {F X : Type 0} where
  abbrev pub analyzed :
      Outcome X (AnalysisOutput F) → EmailForAnalysisTarget → AnalysisExecutionResult F X
  analyzed answer email = record { email = email; answer = answer }

  -- The zero value of analysisExecutionResult, without an error.
  abbrev pub zero_result : AnalysisExecutionResult F X
  zero_result = analyzed (ok (record { parsed_emails = []; prompt_version = [] })) zero_email

  -- analyzeEmailsConcurrently.
  unfoldable pub analyze_emails_concurrently :
      Analyze F X → List ℕ → List EmailForAnalysisTarget → List (AnalysisExecutionResult F X)
  analyze_emails_concurrently analyze schedule emails =
      run_goroutines zero_result (λ idx email. analyzed (analyze idx email) email) schedule emails

  -- The analyses one after the other.
  unfoldable pub analyze_in_order :
      Analyze F X → List EmailForAnalysisTarget → List (AnalysisExecutionResult F X)
  analyze_in_order analyze emails =
      run_in_order (λ idx email. analyzed (analyze idx email) email) emails

  -- In whatever order the goroutines finish, when each has finished once the results are those of
  -- the analyses one after the other, in the order of the e-mails.
  pub analyze_emails_concurrently-analyze_in_order :
      (analyze : Analyze F X) (emails : List EmailForAnalysisTarget) (schedule : List ℕ)
      → Completes (indices emails) schedule
      → analyze_emails_concurrently analyze schedule emails ≡ analyze_in_order analyze emails
  unfolding analyze_emails_concurrently analyze_in_order
  analyze_emails_concurrently-analyze_in_order analyze emails schedule c =
      run_goroutines-run_in_order zero_result (λ idx email. analyzed (analyze idx email) email)
        emails schedule c
