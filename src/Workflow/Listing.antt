-- ===== src/Workflow/Listing.antt =====
-- The list of stored runs, internal/manualmailworkflow/application/list_usecase.go, with the
-- repository as a function on a state `S`. Logging is left out. A slice that is nil is the empty
-- list.
use billingrse_backend.Prelude.{
  ℕ, ℤ, pos, negsuc, is_negative, Bool, true, not, ◌||◌, Option, none, some, List, Outcome, ok, err,
  ◌>>◌, ◌==◌, ltb, fail_if, if◌then◌else◌,
}
use billingrse_backend.GoText.{Text, trim_space, eq_text}
use billingrse_backend.GoTime.{Time}
use billingrse_backend.GoContext.{Context, is_nil_context}
use billingrse_backend.Workflow.Types.{
  status_queued, status_running, status_succeeded, status_partial_success, status_failed,
}
pub mod Pages

abbrev pub default_workflow_history_list_limit : ℤ
default_workflow_history_list_limit = pos 20

abbrev pub default_workflow_history_list_offset : ℤ
default_workflow_history_list_offset = pos 0

abbrev pub max_workflow_history_list_limit : ℕ
max_workflow_history_list_limit = 100

pub record StageFailureView : Type 0 where
  pub external_message_id : Option Text
  pub reason_code : Text
  pub message : Text
  pub created_at : Time

pub record StageSummaryView : Type 0 where
  pub success_count : ℤ
  pub business_failure_count : ℤ
  pub technical_failure_count : ℤ
  pub failures : List StageFailureView

pub record WorkflowHistoryListItem : Type 0 where
  pub workflow_id : Text
  pub provider : Text
  pub account_identifier : Text
  pub label_name : Text
  pub since : Time
  pub until : Time
  pub status : Text
  pub current_stage : Option Text
  pub queued_at : Time
  pub finished_at : Option Time
  pub error_message : Option Text
  pub fetch : StageSummaryView
  pub analysis : StageSummaryView
  pub vendor_resolution : StageSummaryView
  pub billing_eligibility : StageSummaryView
  pub billing : StageSummaryView

pub record ListQuery : Type 0 where
  pub user_id : ℕ
  pub limit : ℤ
  pub offset : ℤ
  pub status : Option Text
  pub has_limit : Bool
  pub has_offset : Bool

pub record ListResult : Type 0 where
  pub items : List WorkflowHistoryListItem
  pub total_count : ℤ

-- ErrInvalidListQuery, by what is wrong.
pub data InvalidListQuery : Type 0 where
  query_user_id_required limit_out_of_range offset_negative : InvalidListQuery
  unsupported_status : Text → InvalidListQuery

pub data ListError (E : Type 0) : Type 0 where
  list_nil_context list_not_configured : ListError E
  invalid_query : InvalidListQuery → ListError E
  list_failed : E → ListError E

abbrev pub trimmed_status : Option Text → Option Text
trimmed_status none = none
trimmed_status (some status) = some (trim_space status)

-- ListQuery.Normalize.
unfoldable pub normalize_query : ListQuery → ListQuery
normalize_query q = record q {
  status = trimmed_status q.status;
  limit = if q.has_limit then q.limit else default_workflow_history_list_limit;
  offset = if q.has_offset then q.offset else default_workflow_history_list_offset;
}

-- isWorkflowStatusFilter.
unfoldable pub is_workflow_status_filter : Text → Bool
is_workflow_status_filter status =
    eq_text status status_queued
    || (eq_text status status_running
        || (eq_text status status_succeeded
            || (eq_text status status_partial_success || eq_text status status_failed)))

abbrev pub is_out_of_range : ℤ → Bool
is_out_of_range (pos n) = ltb n 1 || ltb max_workflow_history_list_limit n
is_out_of_range (negsuc n) = true

unfoldable pub validate_status : Option Text → Outcome InvalidListQuery (Unit {0})
validate_status none = ok tt
validate_status (some status) =
    fail_if (not (is_workflow_status_filter status)) (unsupported_status status)

-- ListQuery.Validate.
unfoldable pub validate_query : ListQuery → Outcome InvalidListQuery (Unit {0})
validate_query q = do
  fail_if (q.user_id == 0) query_user_id_required
  fail_if (is_out_of_range q.limit) limit_out_of_range
  fail_if (is_negative q.offset) offset_negative
  validate_status q.status

module _ {E S : Type 0} where
  abbrev pub listed : Outcome E ListResult × S → Outcome (ListError E) ListResult × S
  listed (ok result, s) = (ok result, s)
  listed (err e, s) = (err (list_failed e), s)

  abbrev pub with_query :
      (ListQuery → S → Outcome E ListResult × S)
      → ListQuery
      → S
      → Outcome InvalidListQuery (Unit {0})
      → Outcome (ListError E) ListResult × S
  with_query load query s (ok u) = listed (load query s)
  with_query load query s (err e) = (err (invalid_query e), s)

  abbrev pub with_repository :
      Option (ListQuery → S → Outcome E ListResult × S)
      → ListQuery
      → S
      → Outcome (ListError E) ListResult × S
  with_repository none query s = (err list_not_configured, s)
  with_repository (some load) query s =
      with_query load (normalize_query query) s (validate_query (normalize_query query))

  -- List; a repository that is nil is `none`.
  unfoldable pub list_histories :
      Context
      → Option (ListQuery → S → Outcome E ListResult × S)
      → ListQuery
      → S
      → Outcome (ListError E) ListResult × S
  list_histories ctx repository query s =
      if is_nil_context ctx then (err list_nil_context, s) else with_repository repository query s
