-- ===== src/Workflow/Adapters/Intake.antt =====
-- The adapters that call the mailfetch, mailanalysis and vendorresolution stages for the workflow:
-- direct_mail_fetch_adapter.go, direct_mail_analysis_adapter.go and
-- direct_vendor_resolution_adapter.go of internal/manualmailworkflow/infrastructure. Their use cases
-- are taken to be connected.
use billingrse_backend.Prelude.{
  ℕ, Bool, Option, none, some, List, [], ◌∷◌, map, Outcome, ◌==◌, if◌then◌else◌,
}
use billingrse_backend.GoText.{Text, CaseTable}
use billingrse_backend.GoTime.{zero_time}
use billingrse_backend.GoSources.{Sources}
use billingrse_backend.GoContext.{Context}
use billingrse_backend.Domain.ParsedEmail.{ParsedEmail as DomainParsedEmail}
use billingrse_backend.Domain.Vendor.{Vendor}
use billingrse_backend.Domain.VendorResolution.{FetchPlan, Facts, RegistrationPlan}
use billingrse_backend.MailFetch.Types.{
  CreatedEmail as FetchedCreated, MessageFailure as FetchFault, Result as FetchStageResult,
  CommandError as FetchError,
}
use billingrse_backend.MailFetch
use billingrse_backend.MailAnalysis.Types.{
  EmailForAnalysisTarget, ParsedEmailResultItem, MessageFailure as AnalysisFault,
  Result as AnalysisStageResult, CommandError as AnalysisError,
}
use billingrse_backend.MailAnalysis.Concurrent.{Analyze}
use billingrse_backend.MailAnalysis.{SaveAll}
use billingrse_backend.MailAnalysis
use billingrse_backend.VendorResolutionStage.Types.{
  ResolutionTarget, ResolvedItem as StageResolved, UnresolvedItem as StageUnresolved,
  Failure as ResolutionFault, Result as ResolutionStageResult, CommandError as ResolutionError,
}
use billingrse_backend.VendorResolutionStage
use billingrse_backend.Workflow.Types.{
  CreatedEmail, FetchFailure, FetchResult, ParsedEmail, AnalysisFailure, AnalyzeResult,
  ResolvedItem, UnresolvedItem, StageFailure, VendorResolutionResult,
}
use billingrse_backend.Workflow.Parts.{FetchCommand, AnalyzeCommand, VendorResolutionCommand}
use billingrse_backend.Workflow.Adapters.{adapted}

abbrev pub to_created_email : FetchedCreated → CreatedEmail
to_created_email e = record {
  email_id = e.email_id;
  external_message_id = e.external_message_id;
  subject = e.subject;
  from = e.from;
  to = e.to;
  received_at = e.date;
  body = e.body;
  body_digest = e.body_digest;
}

abbrev pub to_fetch_failure : FetchFault → FetchFailure
to_fetch_failure f = record {
  external_message_id = f.external_message_id;
  stage = f.stage;
  code = f.code;
  message = f.message;
}

unfoldable pub to_fetch_result : FetchStageResult → FetchResult
to_fetch_result r = record {
  created_emails = map to_created_email r.created_emails;
  existing_email_ids = r.existing_email_ids;
  failures = map to_fetch_failure r.failures;
}

module _ {S X : Type 0} where
  -- DirectManualMailFetchAdapter.Execute.
  unfoldable pub fetch_mails :
      (Text → Text)
      → MailFetch.Parts S X
      → Context
      → FetchCommand
      → S
      → Outcome (FetchError X) FetchResult × S
  fetch_mails sum256_hex parts ctx cmd s =
      let (answer, s') =
        MailFetch.execute sum256_hex parts ctx
          (record {
            user_id = cmd.user_id;
            connection_id = cmd.connection_id;
            condition = record {
              label_name = cmd.condition.label_name;
              since = cmd.condition.since;
              until = cmd.condition.until;
            };
          })
          s in
      (adapted to_fetch_result answer, s')

abbrev pub to_analysis_target : CreatedEmail → EmailForAnalysisTarget
to_analysis_target e = record {
  email_id = e.email_id;
  external_message_id = e.external_message_id;
  subject = e.subject;
  from = e.from;
  to = e.to;
  received_at = e.received_at;
  body = e.body;
  body_digest = e.body_digest;
}

abbrev pub to_analysis_failure : AnalysisFault → AnalysisFailure
to_analysis_failure f = record {
  email_id = f.email_id;
  external_message_id = f.external_message_id;
  stage = f.stage;
  code = f.code;
  message = f.message;
}

abbrev pub to_unresolved : StageUnresolved → UnresolvedItem
to_unresolved i = record {
  parsed_email_id = i.parsed_email_id;
  email_id = i.email_id;
  external_message_id = i.external_message_id;
  reason_code = i.reason_code;
  message = i.message;
  candidate_vendor_name = i.candidate_vendor_name;
}

abbrev pub to_resolution_failure : ResolutionFault → StageFailure
to_resolution_failure f = record {
  parsed_email_id = f.parsed_email_id;
  email_id = f.email_id;
  external_message_id = f.external_message_id;
  stage = f.stage;
  code = f.code;
  message = f.message;
}

module _ {F : Type 0} where
  abbrev pub to_parsed_email : ParsedEmailResultItem F → ParsedEmail F
  to_parsed_email i = record {
    parsed_email_id = i.parsed_email_id;
    email_id = i.email_id;
    external_message_id = i.external_message_id;
    subject = i.subject;
    from = i.from;
    to = i.to;
    body_digest = i.body_digest;
    parsed = i.parsed_email;
  }

  unfoldable pub to_analyze_result : AnalysisStageResult F → AnalyzeResult F
  to_analyze_result r = record {
    parsed_emails = map to_parsed_email r.parsed_emails;
    parsed_email_count = r.parsed_email_count;
    failures = map to_analysis_failure r.failures;
  }

  abbrev pub to_resolution_target : ParsedEmail F → ResolutionTarget F
  to_resolution_target p = record {
    parsed_email_id = p.parsed_email_id;
    email_id = p.email_id;
    external_message_id = p.external_message_id;
    subject = p.subject;
    from = p.from;
    to = p.to;
    body_digest = p.body_digest;
    parsed_email = p.parsed;
  }

  -- The zero value of ParsedEmail, which a map gives for a missing key.
  abbrev pub zero_parsed : DomainParsedEmail F
  zero_parsed = record {
    product_name_raw = none;
    product_name_display = none;
    vendor_name = none;
    billing_number = none;
    invoice_number = none;
    amount = none;
    currency = none;
    billing_date = none;
    payment_cycle = none;
    line_items = [];
    extracted_at = zero_time;
  }

  abbrev pub or_first :
      ℕ → ParsedEmail F → Option (DomainParsedEmail F) → Option (DomainParsedEmail F)
  or_first id p none = if p.parsed_email_id == id then some p.parsed else none
  or_first id p (some later) = some later

  -- `parsedEmailMap[id]`: a later e-mail with an id replaces an earlier one.
  unfoldable pub data_of : ℕ → List (ParsedEmail F) → Option (DomainParsedEmail F)
  data_of id [] = none
  data_of id (p ∷ ps) = or_first id p (data_of id ps)

  abbrev pub or_zero : Option (DomainParsedEmail F) → DomainParsedEmail F
  or_zero none = zero_parsed
  or_zero (some parsed) = parsed

  abbrev pub to_resolved : List (ParsedEmail F) → StageResolved → ResolvedItem F
  to_resolved ps i = record {
    parsed_email_id = i.parsed_email_id;
    email_id = i.email_id;
    external_message_id = i.external_message_id;
    vendor_id = i.vendor_id;
    vendor_name = i.vendor_name;
    matched_by = i.matched_by;
    parsed = or_zero (data_of i.parsed_email_id ps);
  }

  unfoldable pub to_resolution_result :
      List (ParsedEmail F) → ResolutionStageResult → VendorResolutionResult F
  to_resolution_result ps r = record {
    resolved_items = map (to_resolved ps) r.resolved_items;
    resolved_count = r.resolved_count;
    unresolved_items = map to_unresolved r.unresolved_items;
    unresolved_count = r.unresolved_count;
    failures = map to_resolution_failure r.failures;
  }

module _ {F S X Y : Type 0} ⦃table : CaseTable⦄ where
  -- DirectMailAnalysisAdapter.Execute.
  unfoldable pub analyze_mails :
      (X → Bool)
      → Sources S
      → Option (ℕ → Outcome X (Analyze F X))
      → Option (SaveAll F S Y)
      → List ℕ
      → Context
      → AnalyzeCommand
      → S
      → Outcome (AnalysisError X) (AnalyzeResult F) × S
  analyze_mails is_response_invalid sources factory repository schedule ctx cmd s =
      let (answer, s') =
        MailAnalysis.execute is_response_invalid sources ctx factory repository schedule
          (record { user_id = cmd.user_id; emails = map to_analysis_target cmd.emails }) s in
      (adapted to_analyze_result answer, s')

module _ {F S X : Type 0} ⦃table : CaseTable⦄ where
  -- DirectVendorResolutionAdapter.Execute.
  unfoldable pub resolve_vendors :
      (Text → Option (Text × Text))
      → Option (FetchPlan → S → Outcome X Facts × S)
      → Option (RegistrationPlan → S → Outcome X (Option Vendor) × S)
      → Context
      → VendorResolutionCommand F
      → S
      → Outcome ResolutionError (VendorResolutionResult F) × S
  resolve_vendors parse_address fetch_facts ensure_by_plan ctx cmd s =
      let (answer, s') =
        VendorResolutionStage.execute parse_address ctx fetch_facts ensure_by_plan
          (record {
            user_id = cmd.user_id;
            parsed_emails = map to_resolution_target cmd.parsed_emails;
          })
          s in
      (adapted (to_resolution_result cmd.parsed_emails) answer, s')
