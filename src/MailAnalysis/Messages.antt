-- ===== src/MailAnalysis/Messages.antt =====
-- The messages of internal/mailanalysis/application/usecase.go.
use billingrse_backend.Prelude.{not, ◌++◌, ◌==◌, is_empty, if◌then◌else◌}
use billingrse_backend.GoText.{Text, txt}
use billingrse_backend.GoText.Decimal.{sprint_uint}
use billingrse_backend.MailAnalysis.Types.{EmailForAnalysisTarget}

-- describeEmailReference.
pub describe_email_reference : EmailForAnalysisTarget → Text
describe_email_reference email =
    if not (is_empty email.external_message_id)
    then if not (email.email_id == 0)
      then txt "メールID "
        ++ (sprint_uint email.email_id ++ (txt " (" ++ (email.external_message_id ++ txt ")")))
      else txt "メール " ++ email.external_message_id
    else if not (email.email_id == 0)
    then txt "メールID " ++ sprint_uint email.email_id
    else txt "メール"

pub message_for_invalid_email_input : EmailForAnalysisTarget → Text
message_for_invalid_email_input email =
    describe_email_reference email ++ txt " の入力が不正です。件名、本文、外部メッセージIDを確認してください。"

pub message_for_analysis_failed : EmailForAnalysisTarget → Text
message_for_analysis_failed email =
    describe_email_reference email ++ txt " の解析に失敗しました。しばらく時間をおいて再実行してください。"

pub message_for_analysis_response_invalid : EmailForAnalysisTarget → Text
message_for_analysis_response_invalid email =
    describe_email_reference email ++ txt " の解析結果の形式が不正でした。"

pub message_for_analysis_response_empty : EmailForAnalysisTarget → Text
message_for_analysis_response_empty email =
    describe_email_reference email ++ txt " の解析結果を取得できませんでした。"

pub message_for_parsed_email_save_failed : EmailForAnalysisTarget → Text
message_for_parsed_email_save_failed email =
    describe_email_reference email ++ txt " の解析結果の保存に失敗しました。"
