-- ===== src/Workflow/History/Lifecycle.antt =====
-- What the history repository's updates do to the rows (internal/manualmailworkflow/infrastructure/
-- workflow_status_repository.go).
use mathlib.Core.List.{append-nil}
use mathlib.Core.Path.{subst}
use billingrse_backend.Prelude.{
  ℕ, ◌≡◌, ◌≢◌, refl, sym, ap, ◌∙◌, true, false, not, Option, none, some, List, [], ◌++◌, map,
  Outcome, ok, err, fail_if, >>-eq-ok, fail_if-eq-ok, is_empty, eq-nil_of_is_empty, Bool-cases, ◌⊎◌,
  inl, inr, arith,
}
use billingrse_backend.GoText.{Text, txt, trim_space, eq_text}
use billingrse_backend.GoText.Trim.{eq_text_sound}
use billingrse_backend.GoTime.{Time, utc}
use billingrse_backend.GoContext.{Context, nil_context, live}
use billingrse_backend.Workflow.Types.{
  StageProgress, stage_fetch, stage_analysis, stage_vendor_resolution, stage_billing_eligibility,
  stage_billing,
}
use billingrse_backend.Workflow.StatusRepository.{is_supported_stage}
use billingrse_backend.Workflow.History.{
  StageCounts, HistoryRow, FailureRow, HistoryDatabase, HistoryError, unsupported_workflow_stage,
  run_on, affected, update, committed, transaction, set_counts, counted_row, check_progress,
  created, after_update, save_rows, save_stage_progress,
}

-- What the code relies on of the database, whose rows are read by `row_of` and `failures_of`: an
-- update that affects a row changes it as its columns say and nothing else, an insertion appends, and
-- a commit changes nothing.
pub record IsDatabase {S X : Type 0} (db : HistoryDatabase S X) (row_of : S → ℕ → Option HistoryRow)
    (failures_of : S → List FailureRow) : Type 0 where
  pub updates :
      (id n : ℕ) (change : HistoryRow → HistoryRow) (s s' : S)
      → db.update_history id change s ≡ (ok n, s')
      → n ≢ 0
      → ((old : HistoryRow) × ((row_of s id ≡ some old) × (row_of s' id ≡ some (change old))))
        × (((other : ℕ) → other ≢ id → row_of s' other ≡ row_of s other)
            × (failures_of s' ≡ failures_of s))
  pub creates :
      (rows : List FailureRow) (s s' : S)
      → db.create_failures rows s ≡ (ok tt, s')
      → (row_of s' ≡ row_of s) × (failures_of s' ≡ failures_of s ++ rows)
  pub commits :
      (s s' : S)
      → db.commit s ≡ (ok tt, s')
      → (row_of s' ≡ row_of s) × (failures_of s' ≡ failures_of s)

-- A stored text is the trimmed one, and null when nothing is left of it.
abbrev pub IsFilled : Text → Option Text → Type 0
IsFilled value none = is_empty (trim_space value) ≡ true
IsFilled value (some stored) = (stored ≡ trim_space value) × (is_empty stored ≡ false)

-- The row after Fail: all but five columns are as before.
abbrev pub IsFailed : Text → Time → Text → Time → HistoryRow → HistoryRow → Type 0
IsFailed stage finished_at message now old new =
    IsFilled stage new.current_stage
    × (IsFilled message new.error_message
        × (new ≡ record old {
          status = txt "failed";
          current_stage = new.current_stage;
          finished_at = some (utc finished_at);
          error_message = new.error_message;
          updated_at = utc now;
        }))

-- The three counters of the progress.
abbrev pub progress_counts : StageProgress → StageCounts
progress_counts p = record {
  success_count = p.success_count;
  business_failure_count = p.business_failure_count;
  technical_failure_count = p.technical_failure_count;
}

-- The row after SaveStageProgress: the counters of the stage that the progress names are the
-- progress's, and all other columns but the time of the update are as before.
abbrev pub IsCounted : StageProgress → Time → HistoryRow → HistoryRow → Type 0
IsCounted p now old new =
    ((trim_space p.stage ≡ txt "fetch")
      × (new ≡ record old { fetch_counts = progress_counts p; updated_at = utc now }))
    ⊎ (((trim_space p.stage ≡ txt "analysis")
          × (new ≡ record old { analysis_counts = progress_counts p; updated_at = utc now }))
        ⊎ (((trim_space p.stage ≡ txt "vendorresolution")
              × (new ≡ record old {
                vendor_resolution_counts = progress_counts p;
                updated_at = utc now;
              }))
            ⊎ (((trim_space p.stage ≡ txt "billingeligibility")
                  × (new ≡ record old {
                    billing_eligibility_counts = progress_counts p;
                    updated_at = utc now;
                  }))
                ⊎ ((trim_space p.stage ≡ txt "billing")
                    × (new ≡ record old {
                      billing_counts = progress_counts p;
                      updated_at = utc now;
                    })))))

counted_row-IsCounted :
    (p : StageProgress) (now : Time) (old : HistoryRow)
    → is_supported_stage p.stage ≡ true
    → IsCounted p now old (counted_row p (utc now) old)
unfolding set_counts is_supported_stage
counted_row-IsCounted p now old h = elim (Bool-cases (eq_text (trim_space p.stage) stage_fetch)) [
  | inl e ↦ rw e (inl (eq_text_sound _ _ e, refl))
  | inr e1 ↦ elim (Bool-cases (eq_text (trim_space p.stage) stage_analysis)) [
    | inl e ↦ rw (e1, e) (inr (inl (eq_text_sound _ _ e, refl)))
    | inr e2 ↦ elim (Bool-cases (eq_text (trim_space p.stage) stage_vendor_resolution)) [
      | inl e ↦ rw (e1, e2, e) (inr (inr (inl (eq_text_sound _ _ e, refl))))
      | inr e3 ↦ elim (Bool-cases (eq_text (trim_space p.stage) stage_billing_eligibility)) [
        | inl e ↦ rw (e1, e2, e3, e) (inr (inr (inr (inl (eq_text_sound _ _ e, refl)))))
        | inr e4 ↦ elim (Bool-cases (eq_text (trim_space p.stage) stage_billing)) [
          | inl e ↦ rw (e1, e2, e3, e4, e) (inr (inr (inr (inr (eq_text_sound _ _ e, refl)))))
          | inr e5 ↦ absurd (ground arith)
        ]
      ]
    ]
  ]
]

-- The rows before and after: the one with the id is changed as `Change` says, and no other.
abbrev pub Changed :
    ℕ
    → (HistoryRow → HistoryRow → Type 0)
    → (ℕ → Option HistoryRow)
    → (ℕ → Option HistoryRow)
    → Type 0
Changed id Change before after =
    ((old : HistoryRow) × ((new : HistoryRow) × ((before id ≡ some old)
          × ((after id ≡ some new) × Change old new))))
    × ((other : ℕ) → other ≢ id → after other ≡ before other)

-- One row for each failure record of the progress.
abbrev pub progress_failures : StageProgress → Time → List FailureRow
progress_failures p now =
    map
      (λ f. record {
        workflow_history_id = p.history_id;
        stage = f.stage;
        external_message_id = f.external_message_id;
        reason_code = f.reason_code;
        message = f.message;
        created_at = utc now;
      })
      p.failure_records

check_progress-supported :
    {X : Type 0} (p : StageProgress)
    → check_progress {X = X} p ≡ ok tt
    → is_supported_stage p.stage ≡ true
unfolding check_progress
check_progress-supported p h =
    let check = fail_if (not (is_supported_stage p.stage)) (unsupported_workflow_stage p.stage) in
    let e = fail_if-eq-ok _ _ (>>-eq-ok check _ h).0 in ground arith

module _ {S X : Type 0} where
  run_on-ok :
      {A : Type 0} (m : Outcome (HistoryError X) A)
      (rest : A → S → Outcome (HistoryError X) (Unit {0}) × S) (s s' : S)
      → run_on m rest s ≡ (ok tt, s')
      → (a : A) × ((m ≡ ok a) × (rest a s ≡ (ok tt, s')))
  run_on-ok (err e) rest s s' h = absurd (err_not_ok (ap (λ m. m.0) h))
    where
      err_not_ok :
          {e : HistoryError X} → ◌≡◌ {A = Outcome (HistoryError X) (Unit {0})} (err e) (ok tt) → ⊥
      err_not_ok k = cc
  run_on-ok (ok a) rest s s' h = (a, (refl, h))

  affected-ok :
      (m : Outcome X ℕ × S) (s' : S)
      → affected m ≡ (ok tt, s')
      → (n : ℕ) × ((m ≡ (ok n, s')) × (n ≢ 0))
  affected-ok (err e, s) s' h = cc
  affected-ok (ok n, s) s' h = (
    n,
    (
      ap (λ t. (ok n, t)) (ap (λ m. m.1) h),
      λ z. let e = fail_if-eq-ok _ _ (ap (λ m. m.0) h) in ground arith,
    ),
  )

  committed-ok :
      (before : S) (c : Outcome X (Unit {0}) × S) (s' : S)
      → committed before c ≡ (ok tt, s')
      → c ≡ (ok tt, s')
  committed-ok before (ok tt, s) s' h = ap (λ t. (ok tt, t)) (ap (λ m. m.1) h)
  committed-ok before (err e, s) s' h = cc

  transaction-ok :
      (db : HistoryDatabase S X) (before : S) (m : Outcome (HistoryError X) (Unit {0}) × S) (s' : S)
      → transaction db before m ≡ (ok tt, s')
      → (s1 : S) × ((m ≡ (ok tt, s1)) × (db.commit s1 ≡ (ok tt, s')))
  transaction-ok db before (err e, s) s' h = cc
  transaction-ok db before (ok tt, s) s' h = (s, (refl, committed-ok before (db.commit s) s' h))

  created-ok : (m : Outcome X (Unit {0}) × S) (s' : S) → created m ≡ (ok tt, s') → m ≡ (ok tt, s')
  created-ok (ok tt, s) s' h = ap (λ t. (ok tt, t)) (ap (λ m. m.1) h)
  created-ok (err e, s) s' h = cc

module _ {S X : Type 0} (db : HistoryDatabase S X) (row_of : S → ℕ → Option HistoryRow)
    (failures_of : S → List FailureRow) (is_database : IsDatabase db row_of failures_of) where
  open is_database use {updates, creates, commits}

  update-Changed :
      (id : ℕ) (change : HistoryRow → HistoryRow) (Change : HistoryRow → HistoryRow → Type 0)
      (s s' : S)
      → ((old : HistoryRow) → Change old (change old))
      → update db id change s ≡ (ok tt, s')
      → Changed id Change (row_of s) (row_of s') × (failures_of s' ≡ failures_of s)
  update-Changed id change Change s s' c h =
      let (n, (updated, positive)) = affected-ok (db.update_history id change s) s' h in
      let ((old, (before, after)), (others, failures)) =
        updates id n change s s' updated positive in
      (((old, (change old, (before, (after, c old)))), others), failures)

  after_update-ok :
      (p : StageProgress) (now : Time) (m : Outcome (HistoryError X) (Unit {0}) × S) (s' : S)
      → after_update db p (utc now) m ≡ (ok tt, s')
      → (s1 : S) × ((m ≡ (ok tt, s1))
          × ((row_of s' ≡ row_of s1)
              × (failures_of s' ≡ failures_of s1 ++ progress_failures p now)))
  after_update-ok p now (err e, s1) s' h = cc
  after_update-ok p now (ok tt, s1) s' h = elim (Bool-cases (is_empty p.failure_records)) [
    | inl e ↦
        let same : s1 ≡ s' = ap (λ m. m.1) (rw e at h) in
        let none_failed : progress_failures p now ≡ [] =
          rw (eq-nil_of_is_empty p.failure_records e) refl in
        (
          s1,
          (
            refl,
            (
              ap row_of (sym same),
              ap failures_of (sym same)
                  ∙ sym (append-nil (failures_of s1))
                  ∙ ap (λ rows. failures_of s1 ++ rows) (sym none_failed),
            ),
          ),
        )
    | inr e ↦ (
      s1,
      (
        refl,
        creates (progress_failures p now) s1 s'
            (created-ok (db.create_failures (progress_failures p now) s1) s' (rw e at h)),
      ),
    )
  ]

  -- When SaveStageProgress succeeds, on a database whose updates, insertions and commits do what they
  -- say: the row with the id has the progress's counters at the stage that the progress names and its
  -- other counters and columns but the time of the update as before, no other row has changed, and a
  -- failure row is appended for each failure record.
  pub save_stage_progress-IsCounted :
      (ctx : Context) (p : StageProgress) (s s' : S)
      → save_stage_progress ctx (some db) p s ≡ (ok tt, s')
      → Changed p.history_id (IsCounted p (db.now s)) (row_of s) (row_of s')
        × (failures_of s' ≡ failures_of s ++ progress_failures p (db.now s))
  unfolding save_stage_progress
  save_stage_progress-IsCounted nil_context p s s' h = cc
  save_stage_progress-IsCounted live p s s' h =
      let (u, (checked, saved)) = run_on-ok (check_progress p) _ s s' h in
      let (s2, (body, commit)) = transaction-ok db s (save_rows db p (utc (db.now s)) s) s' saved in
      let (s1, (updated, (rows, failures))) =
        after_update-ok p (db.now s) (update db p.history_id (counted_row p (utc (db.now s))) s) s2
          body in
      let (changed, kept) =
        update-Changed p.history_id (counted_row p (utc (db.now s))) (IsCounted p (db.now s)) s s1
          (λ old. counted_row-IsCounted p (db.now s) old (check_progress-supported p checked))
          updated in
      let (rows', failures') = commits s2 s' commit in
      (
        subst (λ after. Changed p.history_id (IsCounted p (db.now s)) (row_of s) after)
            (sym (rows' ∙ rows)) changed,
        failures' ∙ failures ∙ ap (λ fs. fs ++ progress_failures p (db.now s)) kept,
      )
