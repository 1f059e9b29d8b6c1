-- ===== src/MailAnalysis/Results.antt =====
-- The result items and counts of useCase.Execute (internal/mailanalysis/application/usecase.go).
use billingrse_backend.Prelude.{
  ℕ, ◌≡◌, refl, sym, ◌∙◌, Bool, Option, none, some, List, [], ◌∷◌, All, All-append, Outcome, ok,
  Outcome-cases, inl, inr,
}
use billingrse_backend.GoText.{CaseTable}
use billingrse_backend.Goroutines.{indices, Completes}
use billingrse_backend.Goroutines.Order.{Completes-refl}
use billingrse_backend.GoSources.{Sources}
use billingrse_backend.GoContext.{Context}
use billingrse_backend.Domain.ParsedEmail.{ParsedEmail}
use billingrse_backend.MailAnalysis.Types.{
  EmailForAnalysisTarget, Command, SavedRecord, MessageFailure, ParsedEmailResultItem, Result,
}
use billingrse_backend.MailAnalysis.Input.{normalize_and_validate_emails}
use billingrse_backend.MailAnalysis.Concurrent.{
  Analyze, analyze_emails_concurrently-analyze_in_order,
}
use billingrse_backend.MailAnalysis.{
  Verdict, stored, failed, SaveAll, result_items, append_verdict, with_dependencies, execute,
}
use billingrse_backend.MailAnalysis.Outcomes.{execute-keeps}
use billingrse_backend.MailAnalysis.Kept.{IsNumbered}

module _ {F S X Y : Type 0} ⦃table : CaseTable⦄ (is_response_invalid : X → Bool)
    (sources : Sources S) (save_all : SaveAll F S Y) where
  -- What a verdict and a result hold of their items.
  module _ (Q : ParsedEmailResultItem F → Type 0) where
    abbrev Holds : Verdict F → Type 0
    Holds (stored items count) = All Q items
    Holds (failed f) = Unit

    append_verdict-Holds :
        (r : Result F) (v : Verdict F)
        → Holds v
        → All Q r.parsed_emails
        → All Q (append_verdict r v).parsed_emails
    append_verdict-Holds r (stored items count) k h = All-append Q r.parsed_emails items h k
    append_verdict-Holds r (failed f) k h = h

  result_items-IsNumbered :
      (email : EmailForAnalysisTarget) (records : List SavedRecord) (drafts : List (ParsedEmail F))
      → All (IsNumbered email.body_digest) drafts
      → All (λ i. IsNumbered i.body_digest i.parsed_email) (result_items email records drafts)
  unfolding result_items
  result_items-IsNumbered email [] drafts h = tt
  result_items-IsNumbered email (saved ∷ records) [] h = tt
  result_items-IsNumbered email (saved ∷ records) (d ∷ ds) (n, h) =
      (n, result_items-IsNumbered email records ds h)

  -- Each result item of a successful Execute has a billing number that is not blank, unless its
  -- e-mail has a blank body digest.
  pub execute-IsNumbered :
      (ctx : Context) (factory : Option (ℕ → Outcome X (Analyze F X))) (schedule : List ℕ)
      (cmd : Command) (s s' : S) (r : Result F)
      → execute is_response_invalid sources ctx factory (some save_all) schedule cmd s ≡ (ok r, s')
      → All (λ i. IsNumbered i.body_digest i.parsed_email) r.parsed_emails
  execute-IsNumbered ctx factory schedule cmd s s' r h =
      execute-keeps is_response_invalid sources save_all
        (Holds (λ i. IsNumbered i.body_digest i.parsed_email)) (λ f. tt)
        (λ r. All (λ i. IsNumbered i.body_digest i.parsed_email) r.parsed_emails) (λ fs. tt)
        (append_verdict-Holds (λ i. IsNumbered i.body_digest i.parsed_email)) ctx factory schedule
        cmd s s' r
        (λ email version drafts s s' records kept numbered saved.
          result_items-IsNumbered email records drafts numbered)
        h

  with_dependencies-schedule :
      (factory : Option (ℕ → Outcome X (Analyze F X))) (user_id : ℕ) (schedule : List ℕ)
      (valid : List EmailForAnalysisTarget) (fs : List MessageFailure) (s : S)
      → Completes (indices valid) schedule
      → with_dependencies is_response_invalid sources factory
          (some save_all)
          user_id
          schedule
          valid
          fs
          s
        ≡ with_dependencies is_response_invalid sources factory
            (some save_all)
            user_id
            (indices valid)
            valid
            fs
            s
  with_dependencies-schedule none user_id schedule valid fs s c = refl
  with_dependencies-schedule (some create) user_id schedule valid fs s c =
      elim (Outcome-cases (create user_id)) [
        | inr (x, e) ↦ rw e refl
        | inl (analyze, e) ↦ rw e (
            rw
              (
                analyze_emails_concurrently-analyze_in_order analyze valid schedule c,
                analyze_emails_concurrently-analyze_in_order analyze valid (indices valid)
                    (Completes-refl (indices valid)),
              )
              refl)
      ]

  -- Execute's result and the state it leaves do not depend on the order in which the goroutines of
  -- the analysis finish.
  pub execute-schedule :
      (ctx : Context) (factory : Option (ℕ → Outcome X (Analyze F X))) (first second : List ℕ)
      (cmd : Command) (s : S)
      → Completes (indices (normalize_and_validate_emails cmd.emails).0) first
      → Completes (indices (normalize_and_validate_emails cmd.emails).0) second
      → execute is_response_invalid sources ctx factory (some save_all) first cmd s
        ≡ execute is_response_invalid sources ctx factory (some save_all) second cmd s
  unfolding execute
  execute-schedule ctx factory first second cmd s c d =
      let (valid, fs) = normalize_and_validate_emails cmd.emails in
      let same : with_dependencies is_response_invalid sources factory (some save_all) cmd.user_id
            first valid fs s
          ≡ with_dependencies is_response_invalid sources factory (some save_all) cmd.user_id second
              valid fs s =
        with_dependencies-schedule factory cmd.user_id first valid fs s c
        ∙ sym (with_dependencies-schedule factory cmd.user_id second valid fs s d) in
      rw same refl
