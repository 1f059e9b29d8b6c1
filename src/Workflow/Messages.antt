-- ===== src/Workflow/Messages.antt =====
-- The messages of internal/manualmailworkflow/application/workflow_history.go.
use billingrse_backend.Prelude.{◌++◌, List, [], ◌∷◌, Option, none, some, is_empty, if◌then◌else◌}
use billingrse_backend.GoText.{Text, txt, eq_text}
use billingrse_backend.Workflow.Types.{
  ParsedEmail, existing_emails_skipped, vendor_unresolved, duplicate_billing,
}

-- A switch on a code: the message of the first case that has it.
pub switch : Text → List (Text × Text) → Text → Text
switch code [] default = default
switch code ((key, message) ∷ cases) default =
    if eq_text code key then message else switch code cases default

pub message_for_fetch_failure : Text → Text
message_for_fetch_failure code =
    switch code
      ((existing_emails_skipped, txt "取得したメールは全て取得済みのため、後続の処理をスキップしました。")
        ∷ (txt "fetch_detail_failed", txt "メールの取得に失敗しました。")
        ∷ (txt "invalid_fetched_email", txt "取得したメールの形式が不正でした。")
        ∷ (txt "duplicate_external_message_id", txt "取得結果に重複したメールIDが含まれていました。")
        ∷ (txt "email_save_failed", txt "取得したメールの保存に失敗しました。")
        ∷ [])
      (txt "メール取得中にエラーが発生しました。")

pub message_for_analysis_failure : Text → Text
message_for_analysis_failure code =
    switch code
      ((txt "invalid_email_input", txt "解析対象メールの入力が不正でした。")
        ∷ (txt "analysis_failed", txt "メール解析に失敗しました。")
        ∷ (txt "analysis_response_invalid", txt "解析結果の形式が不正でした。")
        ∷ (txt "analysis_response_empty", txt "解析結果を抽出できませんでした。")
        ∷ (txt "parsed_email_save_failed", txt "解析結果の保存に失敗しました。")
        ∷ [])
      (txt "メール解析中にエラーが発生しました。")

pub message_for_vendor_resolution_failure : Text → Text
message_for_vendor_resolution_failure code =
    switch code
      ((vendor_unresolved, txt "支払先を特定できませんでした。")
        ∷ (txt "invalid_resolution_target", txt "支払先解決の入力が不正でした。")
        ∷ (txt "vendor_resolution_failed", txt "支払先の解決に失敗しました。")
        ∷ (txt "vendor_registration_failed", txt "支払先の登録に失敗しました。")
        ∷ [])
      (txt "支払先解決中にエラーが発生しました。")

pub message_for_billing_eligibility_reason : Text → Text
message_for_billing_eligibility_reason code =
    switch code
      ((txt "product_name_empty", txt "商品名が不足しているため請求を作成できませんでした。")
        ∷ (txt "amount_empty", txt "金額が不足しているため請求を作成できませんでした。")
        ∷ (txt "amount_invalid", txt "金額が不正なため請求を作成できませんでした。")
        ∷ (txt "currency_empty", txt "通貨が不足しているため請求を作成できませんでした。")
        ∷ (txt "currency_invalid", txt "通貨が不正なため請求を作成できませんでした。")
        ∷ (txt "billing_number_empty", txt "請求番号が不足しているため請求を作成できませんでした。")
        ∷ (txt "payment_cycle_empty", txt "支払周期が不足しているため請求を作成できませんでした。")
        ∷ (txt "payment_cycle_invalid", txt "支払周期が不正なため請求を作成できませんでした。")
        ∷ [])
      (txt "請求成立条件を満たさないため請求を作成できませんでした。")

pub message_for_billing_eligibility_failure : Text → Text
message_for_billing_eligibility_failure code =
    switch code
      ((txt "invalid_eligibility_target", txt "請求成立判定の入力が不正でした。")
        ∷ (txt "billing_eligibility_failed", txt "請求成立判定に失敗しました。")
        ∷ [])
      (txt "請求成立判定中にエラーが発生しました。")

pub message_for_billing_failure : Text → Text
message_for_billing_failure code =
    switch code
      ((duplicate_billing, txt "同じ請求番号の請求が既に存在します。")
        ∷ (txt "invalid_creation_target", txt "請求作成の入力が不正でした。")
        ∷ (txt "billing_construct_failed", txt "請求データの生成に失敗しました。")
        ∷ (txt "billing_persist_failed", txt "請求の保存に失敗しました。")
        ∷ [])
      (txt "請求作成中にエラーが発生しました。")

-- externalMessageIDText.
pub external_message_id_text : Text → Text
external_message_id_text id = if is_empty id then txt "不明なメッセージ" else id

-- inferredVendorUnresolvedMessage.
pub inferred_vendor_unresolved_message : {F : Type 0} → ParsedEmail F → Text
inferred_vendor_unresolved_message input = of_candidate input.parsed.vendor_name
  where
    unnamed : Text
    unnamed = external_message_id_text input.external_message_id ++ txt " の支払先を特定できませんでした。"

    of_candidate : Option Text → Text
    of_candidate none = unnamed
    of_candidate (some name) =
        if is_empty name
        then unnamed
        else external_message_id_text input.external_message_id
          ++ (txt " の候補「" ++ (name ++ txt "」を支払先として特定できませんでした。"))

-- stageMessageOrFallback.
pub stage_message_or_fallback : Text → Text → Text
stage_message_or_fallback message fallback = if is_empty message then fallback else message
