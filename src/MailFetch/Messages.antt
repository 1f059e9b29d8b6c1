-- ===== src/MailFetch/Messages.antt =====
-- The messages of internal/mailfetch/application/usecase.go, of infrastructure/email_repository.go
-- and of infrastructure/gmail_mail_fetcher.go.
use billingrse_backend.Prelude.{Bool, ◌++◌, is_empty, if◌then◌else◌}
use billingrse_backend.GoText.{Text, txt, trim_space}

-- externalMessageIDOrFallback.
pub external_message_id_or_fallback : Text → Text
external_message_id_or_fallback external_message_id =
    if is_empty (trim_space external_message_id)
    then txt "unknown"
    else trim_space external_message_id

pub normalize_failure_message : Text → Bool → Text
normalize_failure_message external_message_id missing_date =
    if missing_date
    then txt "取得メール("
      ++ (external_message_id_or_fallback external_message_id ++ txt ")の受信日時が不正でした。")
    else txt "取得メール("
      ++ (external_message_id_or_fallback external_message_id ++ txt ")のIDまたは必須項目が不正でした。")

pub duplicate_failure_message : Text → Text
duplicate_failure_message external_message_id =
    txt "取得結果に重複したメールID("
    ++ (external_message_id_or_fallback external_message_id ++ txt ")が含まれていました。")

pub save_status_failure_message : Text → Text → Text
save_status_failure_message external_message_id save_status =
    txt "取得メール("
    ++ (external_message_id_or_fallback external_message_id
        ++ (txt ")の保存結果が不正でした。status=" ++ trim_space save_status))

pub invalid_fetched_email_message : Text → Text
invalid_fetched_email_message external_message_id =
    txt "取得メール(" ++ (external_message_id_or_fallback external_message_id ++ txt ")の形式が不正でした。")

pub duplicate_external_message_message : Text → Text
duplicate_external_message_message external_message_id =
    txt "取得バッチ内でメールID("
    ++ (external_message_id_or_fallback external_message_id ++ txt ")が重複していたため、後続処理をスキップしました。")

pub email_save_failure_message : Text → Text
email_save_failure_message external_message_id =
    txt "取得メール(" ++ (external_message_id_or_fallback external_message_id ++ txt ")の保存に失敗しました。")

pub fetch_detail_failure_message : Text → Text
fetch_detail_failure_message external_message_id =
    txt "Gmail本文の取得に失敗しました。メールID=" ++ external_message_id_or_fallback external_message_id

pub normalize_fetched_email_failure_message : Text → Bool → Text
normalize_fetched_email_failure_message external_message_id missing_date =
    if missing_date
    then txt "取得メール("
      ++ (external_message_id_or_fallback external_message_id ++ txt ")の受信日時が不正でした。")
    else txt "取得メール(" ++ (external_message_id_or_fallback external_message_id ++ txt ")のIDが不正でした。")
