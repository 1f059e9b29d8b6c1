-- ===== src/MailAnalysis/Outcomes.antt =====
-- What the stage reports (useCase.Execute of internal/mailanalysis/application/usecase.go).
use mathlib.Core.Path.{subst}
use billingrse_backend.Prelude.{
  ℕ, ◌≡◌, ap, Bool, true, false, Option, none, some, List, [], ◌∷◌, All, length, Outcome, ok, err,
  Outcome-cases, inl, inr, is_empty, ◌==◌, if◌then◌else◌,
}
use billingrse_backend.GoText.{Text, CaseTable}
use billingrse_backend.GoSources.{Sources}
use billingrse_backend.GoContext.{Context, is_nil_context}
use billingrse_backend.Domain.ParsedEmail.{ParsedEmail}
use billingrse_backend.MailAnalysis.Types.{
  EmailForAnalysisTarget, Command, AnalysisOutput, SavedRecord, MessageFailure, Result,
  CommandError,
}
use billingrse_backend.MailAnalysis.Drafts.{normalize_output}
use billingrse_backend.MailAnalysis.Input.{normalize_and_validate_emails}
use billingrse_backend.MailAnalysis.Concurrent.{Analyze, AnalysisExecutionResult}
use billingrse_backend.MailAnalysis.{
  Verdict, stored, failed, SaveAll, result_items, append_verdict, empty_result, save,
  apply_fallback_billing_numbers, by_drafts, by_answer, settle, settle_all, with_analyzer,
  with_dependencies, execute,
}
use billingrse_backend.MailAnalysis.Kept.{
  IsKept, normalize_drafts-IsKept, apply_fallback_billing_numbers-IsKept, IsNumbered,
  apply_fallback_billing_numbers-IsNumbered,
}

module _ {F S X Y : Type 0} ⦃table : CaseTable⦄ (is_response_invalid : X → Bool)
    (sources : Sources S) (save_all : SaveAll F S Y) where
  -- What the verdict on an e-mail is, when the drafts are saved.
  abbrev SavesTo : (Verdict F → Type 0) → ℕ → Type 0
  SavesTo Good user_id =
      (email : EmailForAnalysisTarget) (version : Text) (drafts : List (ParsedEmail F)) (s s' : S)
      (records : List SavedRecord)
      → All IsKept drafts
      → All (IsNumbered email.body_digest) drafts
      → save sources save_all user_id email version drafts s ≡ (ok records, s')
      → Good (stored (result_items email records drafts) (length records))

  module _ (Good : Verdict F → Type 0) (fails : (f : MessageFailure) → Good (failed f))
      (user_id : ℕ) (saves : SavesTo Good user_id) where
    by_drafts-Good :
        (email : EmailForAnalysisTarget) (version : Text) (drafts : List (ParsedEmail F)) (s : S)
        → All IsKept drafts
        → All (IsNumbered email.body_digest) drafts
        → Good (by_drafts sources save_all user_id email version drafts s).0
    by_drafts-Good email version [] s k n = fails _
    by_drafts-Good email version (d ∷ ds) s k n =
        let answer = save sources save_all user_id email version (d ∷ ds) s in
        elim (Outcome-cases answer.0) [
          | inl (records, e) ↦
              rw e (saves email version (d ∷ ds) s answer.1 records k n (ap (λ m. (m, answer.1)) e))
          | inr (y, e) ↦ rw e (fails _)
        ]

    by_answer-Good :
        (email : EmailForAnalysisTarget) (answer : Outcome X (AnalysisOutput F)) (s : S)
        → Good (by_answer is_response_invalid sources save_all user_id email answer s).0
    by_answer-Good email (err e) s = fails _
    by_answer-Good email (ok output) s =
        let raw = (normalize_output output).parsed_emails in
        by_drafts-Good email (normalize_output output).prompt_version
          (apply_fallback_billing_numbers raw email.body_digest) s
          (apply_fallback_billing_numbers-IsKept raw email.body_digest
            (unfold normalize_output in normalize_drafts-IsKept output.parsed_emails))
          (apply_fallback_billing_numbers-IsNumbered raw email.body_digest)

    settle-Good :
        (analyzed : AnalysisExecutionResult F X) (s : S)
        → Good (settle is_response_invalid sources save_all user_id analyzed s).0
    unfolding settle
    settle-Good analyzed s = by_answer-Good analyzed.email analyzed.answer s

    -- What each verdict keeps, the loop keeps.
    pub settle_all-keeps :
        (P : Result F → Type 0)
        → ((r : Result F) (v : Verdict F) → Good v → P r → P (append_verdict r v))
        → (r : Result F) (results : List (AnalysisExecutionResult F X)) (s : S) → P r
        → P (settle_all is_response_invalid sources save_all user_id r results s).0
    unfolding settle_all
    settle_all-keeps P keep r [] s h = h
    settle_all-keeps P keep r (a ∷ results) s h =
        let (v, s') = settle is_response_invalid sources save_all user_id a s in
        settle_all-keeps P keep (append_verdict r v) results s' (keep r v (settle-Good a s) h)

  -- What a result with failures alone has, and each verdict keeps, a successful Execute returns.
  module _ (Good : Verdict F → Type 0) (fails : (f : MessageFailure) → Good (failed f))
      (P : Result F → Type 0)
      (starts : (fs : List MessageFailure) → P (record empty_result { failures = fs }))
      (keep : (r : Result F) (v : Verdict F) → Good v → P r → P (append_verdict r v)) where
    abbrev After : Outcome (CommandError X) (Result F) → Type 0
    After (ok r) = P r
    After (err e) = Unit

    with_analyzer-After :
        (created : Outcome X (Analyze F X)) (user_id : ℕ) (schedule : List ℕ)
        (valid : List EmailForAnalysisTarget) (fs : List MessageFailure) (s : S)
        → SavesTo Good user_id
        → After
            (with_analyzer is_response_invalid sources save_all created user_id schedule valid fs
              s).0
    with_analyzer-After (err e) user_id schedule valid fs s saves = tt
    with_analyzer-After (ok analyze) user_id schedule valid fs s saves =
        settle_all-keeps Good fails user_id saves P keep _ _ s (starts fs)

    with_dependencies-After :
        (factory : Option (ℕ → Outcome X (Analyze F X))) (user_id : ℕ) (schedule : List ℕ)
        (valid : List EmailForAnalysisTarget) (fs : List MessageFailure) (s : S)
        → SavesTo Good user_id
        → After
            (with_dependencies is_response_invalid sources factory
              (some save_all)
              user_id
              schedule
              valid
              fs
              s).0
    with_dependencies-After none user_id schedule valid fs s saves = tt
    with_dependencies-After (some create) user_id schedule valid fs s saves =
        with_analyzer-After (create user_id) user_id schedule valid fs s saves

    if-After :
        (b : Bool) (x y : Outcome (CommandError X) (Result F) × S)
        → After x.0
        → After y.0
        → After (if b then x else y).0
    if-After true x y h k = h
    if-After false x y h k = k

    execute-After :
        (ctx : Context) (factory : Option (ℕ → Outcome X (Analyze F X))) (schedule : List ℕ)
        (cmd : Command) (s : S)
        → SavesTo Good cmd.user_id
        → After (execute is_response_invalid sources ctx factory (some save_all) schedule cmd s).0
    unfolding execute
    execute-After ctx factory schedule cmd s saves =
        let (valid, fs) = normalize_and_validate_emails cmd.emails in
        if-After (is_nil_context ctx) _ _ tt (
          if-After (cmd.user_id == 0) _ _ tt (
            if-After (is_empty cmd.emails) _ _ (starts []) (
              if-After (is_empty valid) _ _ (starts fs)
                (with_dependencies-After factory cmd.user_id schedule valid fs s saves))))

    pub execute-keeps :
        (ctx : Context) (factory : Option (ℕ → Outcome X (Analyze F X))) (schedule : List ℕ)
        (cmd : Command) (s s' : S) (r : Result F)
        → SavesTo Good cmd.user_id
        → execute is_response_invalid sources ctx factory (some save_all) schedule cmd s
          ≡ (ok r, s')
        → P r
    execute-keeps ctx factory schedule cmd s s' r saves h =
        subst (λ (m : Outcome (CommandError X) (Result F) × S). After m.0) h
          (execute-After ctx factory schedule cmd s saves)
