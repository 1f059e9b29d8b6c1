-- ===== src/VendorResolutionStage/Types.antt =====
-- What the vendor resolution stage takes and returns: internal/vendorresolution/domain/models.go and
-- the types of application/usecase.go. `F` stands for float64.
use billingrse_backend.Prelude.{ℕ, List}
use billingrse_backend.GoText.{Text, txt}
use billingrse_backend.Domain.ParsedEmail.{ParsedEmail}

abbrev pub normalize_input : Text
normalize_input = txt "normalize_input"

abbrev pub resolve_vendor : Text
resolve_vendor = txt "resolve_vendor"

abbrev pub register_vendor : Text
register_vendor = txt "register_vendor"

abbrev pub invalid_resolution_target : Text
invalid_resolution_target = txt "invalid_resolution_target"

abbrev pub vendor_resolution_failed : Text
vendor_resolution_failed = txt "vendor_resolution_failed"

abbrev pub vendor_registration_failed : Text
vendor_registration_failed = txt "vendor_registration_failed"

abbrev pub vendor_unresolved : Text
vendor_unresolved = txt "vendor_unresolved"

pub record ResolutionTarget (F : Type 0) : Type 0 where
  pub parsed_email_id : ℕ
  pub email_id : ℕ
  pub external_message_id : Text
  pub subject : Text
  pub from : Text
  pub to : List Text
  pub body_digest : Text
  pub parsed_email : ParsedEmail F

pub record Command (F : Type 0) : Type 0 where
  pub user_id : ℕ
  pub parsed_emails : List (ResolutionTarget F)

pub record ResolvedItem : Type 0 where
  pub parsed_email_id : ℕ
  pub email_id : ℕ
  pub external_message_id : Text
  pub vendor_id : ℕ
  pub vendor_name : Text
  pub matched_by : Text

pub record UnresolvedItem : Type 0 where
  pub parsed_email_id : ℕ
  pub email_id : ℕ
  pub external_message_id : Text
  pub reason_code : Text
  pub message : Text
  pub candidate_vendor_name : Text

pub record Failure : Type 0 where
  pub parsed_email_id : ℕ
  pub email_id : ℕ
  pub external_message_id : Text
  pub stage : Text
  pub code : Text
  pub message : Text

pub record Result : Type 0 where
  pub resolved_items : List ResolvedItem
  pub resolved_count : ℕ
  pub unresolved_items : List UnresolvedItem
  pub unresolved_count : ℕ
  pub failures : List Failure

-- The errors of ResolutionTarget.Validate.
pub data TargetError : Type 0 where
  parsed_email_id_required email_id_required : TargetError

-- The errors of Execute.
pub data CommandError : Type 0 where
  nil_context_given user_id_required : CommandError
  resolution_repository_not_configured registration_repository_not_configured : CommandError
