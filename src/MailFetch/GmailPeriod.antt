-- ===== src/MailFetch/GmailPeriod.antt =====
-- The e-mails that the Gmail fetcher returns (internal/mailfetch/infrastructure/
-- gmail_mail_fetcher.go).
use mathlib.Core.Path.{subst}
use billingrse_backend.Prelude.{
  ℕ, ◌≡◌, ◌≤◌, ◌<◌, refl, Bool, false, ◌||◌, List, [], ◌∷◌, All, Outcome, ok, err, is_empty,
  Bool-cases, inl, inr, arith,
}
use billingrse_backend.GoText.{Text, trim_space}
use billingrse_backend.GoText.Trim.{trim_space_idem}
use billingrse_backend.GoTime.{is_zero}
use billingrse_backend.Goroutines.{indices, Completes}
use billingrse_backend.Goroutines.Order.{run_goroutines-run_in_order}
use billingrse_backend.Domain.Email.{FetchedEmail}
use billingrse_backend.MailFetch.Types.{MessageFailure, ConnectionRef, FetchCondition}
use billingrse_backend.MailFetch.Gmail.{
  GmailClient, FetchError, DetailResult, trimmed_dto, is_outside, by_dto, by_answer, sort_details,
  fetch_gmail_details_concurrently, with_messages, with_client, fetch,
}

-- An e-mail of the requested period, with a trimmed id that is not blank.
abbrev pub IsInPeriod : FetchCondition → FetchedEmail → Type 0
IsInPeriod cond dto =
    (is_empty dto.id ≡ false)
    × (trim_space dto.id ≡ dto.id)
    × (is_zero dto.date ≡ false)
    × (cond.since.instant ≤ dto.date.instant)
    × (dto.date.instant < cond.until.instant)

by_dto-IsInPeriod :
    (cond : FetchCondition) (id : Text) (dto : FetchedEmail)
    (sorted : List FetchedEmail × List MessageFailure)
    → trim_space dto.id ≡ dto.id
    → All (IsInPeriod cond) sorted.0
    → All (IsInPeriod cond) (by_dto cond id dto sorted).0
by_dto-IsInPeriod cond id dto (fetched, failures) trimmed h =
    elim (Bool-cases (is_empty dto.id || is_zero dto.date)) [
      | inl e ↦ rw e h
      | inr e ↦ elim (Bool-cases (is_outside cond dto)) [
        | inl f ↦ rw (e, f) h
        | inr f ↦ rw (e, f) ((ground arith, trimmed, ground arith, ground arith, ground arith), h)
      ]
    ]

module _ {X : Type 0} where
  sort_details-IsInPeriod :
      (cond : FetchCondition) (ds : List (DetailResult X))
      → All (IsInPeriod cond) (sort_details cond ds).0
  unfolding sort_details
  sort_details-IsInPeriod cond [] = tt
  sort_details-IsInPeriod cond (d ∷ ds) =
      by_answer-IsInPeriod d.message_id d.answer (sort_details cond ds)
        (sort_details-IsInPeriod cond ds)
    where
      by_answer-IsInPeriod :
          (id : Text) (answer : Outcome X FetchedEmail)
          (sorted : List FetchedEmail × List MessageFailure)
          → All (IsInPeriod cond) sorted.0
          → All (IsInPeriod cond) (by_answer cond id answer sorted).0
      by_answer-IsInPeriod id (err e) sorted h = h
      by_answer-IsInPeriod id (ok dto) sorted h =
          by_dto-IsInPeriod cond id (trimmed_dto dto) sorted (trim_space_idem dto.id) h

module _ {X : Type 0} where
  abbrev After :
      FetchCondition → Outcome (FetchError X) (List FetchedEmail × List MessageFailure) → Type 0
  After cond (err e) = Unit
  After cond (ok sorted) = All (IsInPeriod cond) sorted.0

module _ {S X : Type 0} (is_label_not_found : X → Bool) where
  with_client-After :
      (schedule : List ℕ) (cond : FetchCondition) (built : Outcome X (GmailClient S X) × S)
      → After cond (with_client is_label_not_found schedule cond built).0
  with_client-After schedule cond (err e, s) = tt
  with_client-After schedule cond (ok client, s) =
      with_messages-After (client.get_messages_by_label_name cond.label_name cond.since s)
    where
      with_messages-After :
          (listed : Outcome X (List Text) × S)
          → After cond (with_messages is_label_not_found client schedule cond listed).0
      with_messages-After (err e, s') = tt
      with_messages-After (ok ids, s') = sort_details-IsInPeriod cond _

  -- Each e-mail that Fetch returns was received at or after the start of the requested period and
  -- before its end, and has a trimmed id that is not blank; in whatever order the workers finish.
  pub fetch-IsInPeriod :
      (build : ConnectionRef → S → Outcome X (GmailClient S X) × S) (conn : ConnectionRef)
      (schedule : List ℕ) (cond : FetchCondition) (s s' : S) (dtos : List FetchedEmail)
      (failures : List MessageFailure)
      → fetch is_label_not_found build conn schedule cond s ≡ (ok (dtos, failures), s')
      → All (IsInPeriod cond) dtos
  unfolding fetch
  fetch-IsInPeriod build conn schedule cond s s' dtos failures h =
      subst
        (λ (m : Outcome (FetchError X) (List FetchedEmail × List MessageFailure) × S).
          After cond m.0)
        h (with_client-After schedule cond (build conn s))

  -- Fetch's answer does not depend on the order in which the workers finish.
  pub fetch-schedule :
      (client : GmailClient S X) (cond : FetchCondition) (ids : List Text) (s : S)
      (first second : List ℕ)
      → Completes (indices ids) first
      → Completes (indices ids) second
      → with_messages is_label_not_found client first cond (ok ids, s)
        ≡ with_messages is_label_not_found client second cond (ok ids, s)
  unfolding fetch_gmail_details_concurrently
  fetch-schedule client cond ids s first second c d =
      rw (run_goroutines-run_in_order _ _ ids first c, run_goroutines-run_in_order _ _ ids second d)
        refl
