-- ===== src/Workflow/ErrorMessages.antt =====
-- The message that a failed workflow shows (internal/manualmailworkflow/application/
-- workflow_history.go), over an interface to Go errors.
use billingrse_backend.Prelude.{Bool, ◌||◌, ◌&&◌, is_empty, if◌then◌else◌}
use billingrse_backend.GoText.{Text, txt, trim_space, eq_text, contains_text}
use billingrse_backend.Workflow.Types.{
  stage_fetch, stage_analysis, stage_vendor_resolution, stage_billing_eligibility, stage_billing,
}
use billingrse_backend.Workflow.Validation.{InvalidJob}

-- The errors of internal/mailfetch/domain/errors.go that the messages tell apart.
pub data FetchError : Type 0 where
  connection_not_found connection_unavailable provider_unsupported : FetchError
  provider_label_not_found provider_list_failed provider_session_build_failed : FetchError

-- Go errors: errors.Is, Error(), and the errors that the workflow makes itself. A panic is made an
-- error from the text of its value.
pub record GoErrors (E : Type 0) : Type 0 where
  pub is_error : E → FetchError → Bool
  pub error_text : E → Text
  pub nil_context : E
  pub invalid_job : InvalidJob → E
  pub not_configured : Text → E
  pub panic_error : Text → E

-- localizedGmailSessionBuildErrorMessage.
pub session_message : Text → Text
session_message text =
    let raw = trim_space text in
    if contains_text raw (txt "failed to decrypt access token")
    then txt "Gmail連携のアクセストークンを復号できませんでした。再連携をおねがいします。"
    else if contains_text raw (txt "failed to decrypt refresh token")
    then txt "Gmail連携のリフレッシュトークンを復号できませんでした。再連携をおねがいします。"
    else if contains_text raw (txt "failed to load gmail oauth config")
    then txt "Gmail OAuth設定の読み込みに失敗しました。システム設定を確認してください。"
    else if contains_text raw (txt "failed to create gmail service")
        && contains_text raw (txt "invalid_grant")
    then txt "Gmail連携が無効になっています。再連携してください。"
    else txt "Gmail連携の初期化に失敗しました。連携設定を確認してください。"

module _ {E : Type 0} ⦃errors : GoErrors E⦄ where
  -- localizedFetchWorkflowErrorMessage.
  pub fetch_error_message : E → Text
  fetch_error_message e =
      let raw = trim_space (errors.error_text e) in
      if errors.is_error e FetchError.connection_not_found
      then txt "指定したGmail連携が見つかりませんでした。"
      else if errors.is_error e FetchError.connection_unavailable
      then txt "指定したGmail連携は利用できません。再連携をおねがいします。"
      else if errors.is_error e FetchError.provider_unsupported
      then txt "指定したメール連携サービスには対応していません。"
      else if errors.is_error e FetchError.provider_label_not_found
      then txt "指定したGmailラベルが見つかりませんでした。"
      else if errors.is_error e FetchError.provider_list_failed
      then txt "Gmailからメール一覧を取得できませんでした。時間をおいて再試行してください。"
      else if errors.is_error e FetchError.provider_session_build_failed
          || (contains_text raw (txt "failed to decrypt access token")
              || contains_text raw (txt "failed to decrypt refresh token")
              || contains_text raw (txt "failed to load gmail oauth config")
              || contains_text raw (txt "failed to create gmail service"))
      then session_message raw
      else txt "メール取得に失敗しました。"

  -- localizedWorkflowErrorMessage for an error that is not nil, as all its callers pass one.
  pub workflow_error_message : Text → E → Text
  workflow_error_message current_stage e =
      let stage = trim_space current_stage in
      if is_empty stage
      then txt "メール取得ワークフローの起動に失敗しました。"
      else if eq_text stage stage_fetch
      then fetch_error_message e
      else if eq_text stage stage_analysis
      then txt "メール解析に失敗しました。"
      else if eq_text stage stage_vendor_resolution
      then txt "支払先解決に失敗しました。"
      else if eq_text stage stage_billing_eligibility
      then txt "請求成立判定に失敗しました。"
      else if eq_text stage stage_billing
      then txt "請求作成に失敗しました。"
      else txt "メール取得ワークフローの実行に失敗しました。"
