-- ===== src/Workflow/StatusRepository.antt =====
-- The checks that the history repository makes of a stage's progress before it writes
-- (internal/manualmailworkflow/infrastructure/workflow_status_repository.go). `none` stands for the
-- error of stageCountColumns, which picks the columns by the stage.
use billingrse_backend.Prelude.{ℕ, suc, ◌+◌, Bool, ◌&&◌, ◌||◌, List, [], ◌∷◌, ◌==◌, if◌then◌else◌}
use billingrse_backend.GoText.{Text, trim_space, eq_text}
use billingrse_backend.Workflow.Types.{
  StageFailureRecord, StageProgress, existing_emails_skipped, stage_fetch, stage_analysis,
  stage_vendor_resolution, stage_billing_eligibility, stage_billing,
}

-- countedFailureRecordCount.
unfoldable pub counted_failure_record_count : List StageFailureRecord → ℕ
counted_failure_record_count [] = 0
counted_failure_record_count (r ∷ rs) =
    let rest = counted_failure_record_count rs in
    if eq_text r.reason_code existing_emails_skipped then rest else suc rest

-- The stages that stageCountColumns supports.
unfoldable pub is_supported_stage : Text → Bool
is_supported_stage stage =
    let s = trim_space stage in
    eq_text s stage_fetch
    || eq_text s stage_analysis
    || eq_text s stage_vendor_resolution
    || eq_text s stage_billing_eligibility
    || eq_text s stage_billing

-- SaveStageProgress goes on to the database exactly if this holds.
unfoldable pub accepts : StageProgress → Bool
accepts p =
    is_supported_stage p.stage
    && counted_failure_record_count p.failure_records
      == p.business_failure_count + p.technical_failure_count
