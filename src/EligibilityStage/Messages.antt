-- ===== src/EligibilityStage/Messages.antt =====
-- The messages of internal/billingeligibility/application/usecase.go.
use billingrse_backend.Prelude.{◌++◌, [], is_empty, if◌then◌else◌}
use billingrse_backend.GoText.{Text, txt, trim_space, eq_text}
use billingrse_backend.EligibilityStage.Types.{
  Target, invalid_eligibility_target, billing_eligibility_failed, amount_empty, product_name_empty,
  amount_invalid, currency_empty, currency_invalid, billing_number_empty, payment_cycle_empty,
  payment_cycle_invalid,
}

module _ {F : Type 0} where
  vendor_text : Target F → Text
  vendor_text target =
      let vendor_name = trim_space target.vendor_name in
      if is_empty vendor_name then txt "不明の支払先" else vendor_name

  suffix : Target F → Text
  suffix target =
      let external_message_id = trim_space target.external_message_id in
      if is_empty external_message_id then [] else txt " 対象メールID: " ++ external_message_id

  -- messageForEligibilityReason.
  pub message_for_eligibility_reason : Text → Target F → Text
  message_for_eligibility_reason reason_code target =
      vendor_text target ++ (reason ++ suffix target)
    where
      reason : Text
      reason =
          if eq_text reason_code product_name_empty
          then txt " の請求候補で商品名が不足しているため、請求を作成できませんでした。"
          else if eq_text reason_code amount_empty
          then txt " の請求候補で金額が不足しているため、請求を作成できませんでした。"
          else if eq_text reason_code amount_invalid
          then txt " の請求候補で金額が不正なため、請求を作成できませんでした。"
          else if eq_text reason_code currency_empty
          then txt " の請求候補で通貨が不足しているため、請求を作成できませんでした。"
          else if eq_text reason_code currency_invalid
          then txt " の請求候補で通貨が不正なため、請求を作成できませんでした。"
          else if eq_text reason_code billing_number_empty
          then txt " の請求候補で請求番号が不足しているため、請求を作成できませんでした。"
          else if eq_text reason_code payment_cycle_empty
          then txt " の請求候補で支払周期が不足しているため、請求を作成できませんでした。"
          else if eq_text reason_code payment_cycle_invalid
          then txt " の請求候補で支払周期が不正なため、請求を作成できませんでした。"
          else txt " の請求候補が請求成立条件を満たさないため、請求を作成できませんでした。"

  -- messageForEligibilityFailure.
  pub message_for_eligibility_failure : Text → Target F → Text
  message_for_eligibility_failure code target = vendor_text target ++ (reason ++ suffix target)
    where
      reason : Text
      reason =
          if eq_text code invalid_eligibility_target
          then txt " の請求成立判定入力が不正でした。"
          else if eq_text code billing_eligibility_failed
          then txt " の請求成立判定中に予期しないエラーが発生しました。"
          else txt " の請求成立判定中にエラーが発生しました。"
