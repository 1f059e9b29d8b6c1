-- ===== src/EmailStore/Reports.antt =====
-- What SaveAllIfAbsent reports (internal/mailfetch/infrastructure/email_repository.go).
use mathlib.Core.Path.{subst}
use billingrse_backend.Prelude.{
  ℕ, suc, ◌+◌, ◌≡◌, refl, sym, ap, ◌∙◌, Bool, true, false, ◌||◌, some, List, [], ◌∷◌, ◌++◌, map,
  All, All-append, All-imp, length, length-map, length-append, is_empty, Outcome, ok, err, ◌>>=◌,
  >>-eq-ok, eq_of_ok, Bool-cases, Option-cases, Outcome-cases, inl, inr, arith, if◌then◌else◌,
}
use billingrse_backend.GoText.{Text, trim_space, eq_text, has_key}
use billingrse_backend.GoText.Trim.{trim_space_idem, eq_text_sound, eq_text_refl}
use billingrse_backend.GoSources.{Sources}
use billingrse_backend.Domain.Email.{
  FetchedEmail, Email, EmailError, validate, email_of, new_email_from_fetched_dto,
}
use billingrse_backend.MailFetch.Types.{
  MessageFailure, EmailSource, SourceError, validate_source, SaveResult, status_created,
  status_existing,
}
use billingrse_backend.EmailStore.Chunks.{chunks, concat, concat-chunks}
use billingrse_backend.EmailStore.{
  EmailRecord, PreparedEmail, EmailDatabase, StoreError, insert_failed, later, final_record,
  save_result, is_created_by, external_message_id, build_chunk_save_failures, chunk_save_failure,
  chunk_results, with_rows, with_commit, with_insert, save_prepared_emails, by_chunk, add_prepared,
  add_failure, with_email, seen_after, prepare_emails, next_chunk, save_chunks,
  save_prepared_email_chunks, with_failures, with_prepared, with_source, save_all_if_absent,
}

-- The keys of the e-mails that the repository is given.
abbrev pub keys : List FetchedEmail → List Text
keys dtos = map (λ (dto : FetchedEmail). trim_space dto.id) dtos

-- A result for one of the e-mails, with one of the two statuses.
abbrev pub IsReport : List Text → SaveResult → Type 0
IsReport ids r =
    ((eq_text r.status status_created || eq_text r.status status_existing) ≡ true)
    × (has_key r.external_message_id ids ≡ true)

-- As many results and failures as there are e-mails, and the results are about them.
abbrev pub Reports :
    {X : Type 0} → List Text → ℕ → Outcome X (List SaveResult × List MessageFailure) → Type 0
Reports ids n (err e) = Unit
Reports ids n (ok (results, failures)) =
    (length results + length failures ≡ n) × All (IsReport ids) results

final_record-id :
    (id : Text) (rows : List EmailRecord) (row : EmailRecord)
    → final_record id rows ≡ some row
    → row.external_message_id ≡ id
unfolding final_record
final_record-id id [] row h = cc
final_record-id id (r ∷ rows) row h = elim (Option-cases (final_record id rows)) [
  | inr (found, e) ↦ final_record-id id rows row (ground arith)
  | inl e ↦ elim (Bool-cases (eq_text id r.external_message_id)) [
    | inl same ↦
        let found : r ≡ row = ground arith in
        ap (λ (x : EmailRecord). x.external_message_id) (sym found)
        ∙ sym (eq_text_sound id r.external_message_id same)
    | inr different ↦ absurd (ground arith)
  ]
]

save_result-status :
    (run_id : Text) (row : EmailRecord)
    → (eq_text (save_result run_id row).status status_created
        || eq_text (save_result run_id row).status status_existing)
      ≡ true
unfolding eq_text
save_result-status run_id row = elim (Bool-cases (is_created_by run_id row.created_run_id)) [
  | inl e ↦ rw e refl
  | inr e ↦ rw e refl
]

module _ {F : Type 0} where
  abbrev IsKnown : List Text → PreparedEmail F → Type 0
  IsKnown ids item = has_key (external_message_id item) ids ≡ true

  All-split :
      (P : PreparedEmail F → Type 0) (xs ys : List (PreparedEmail F))
      → All P (xs ++ ys)
      → All P xs × All P ys
  All-split P [] ys h = (tt, h)
  All-split P (x ∷ xs) ys (p, h) = let (a, b) = All-split P xs ys h in ((p, a), b)

module _ {F X : Type 0} where
  -- The results of a slice, one for each e-mail of it.
  abbrev Slice :
      List Text → List (PreparedEmail F) → Outcome (StoreError X) (List SaveResult) → Type 0
  Slice ids chunk (err e) = Unit
  Slice ids chunk (ok results) = (length results ≡ length chunk) × All (IsReport ids) results

module _ {F : Type 0} (X : Type 0) where
  chunk_results-Slice :
      (ids : List Text) (run_id : Text) (rows : List EmailRecord) (chunk : List (PreparedEmail F))
      → All (IsKnown ids) chunk
      → Slice {X = X} ids chunk (chunk_results run_id rows chunk)
  unfolding chunk_results
  chunk_results-Slice ids run_id rows [] known = (refl, tt)
  chunk_results-Slice ids run_id rows (item ∷ items) (k, known) =
      elim (Option-cases (final_record (external_message_id item) rows)) [
        | inl e ↦ rw e tt
        | inr (row, e) ↦ rw e (
            added (save_result run_id row) (chunk_results run_id rows items)
              (chunk_results-Slice ids run_id rows items known)
              (
                save_result-status run_id row,
                rw (final_record-id (external_message_id item) rows row e) k,
              ))
      ]
    where
      added :
          (r : SaveResult) (m : Outcome (StoreError X) (List SaveResult))
          → Slice ids items m
          → IsReport ids r
          → Slice ids (item ∷ items) (m >>= λ results. ok (r ∷ results))
      added r (err e) h i = tt
      added r (ok results) (n, h) i = (ap suc n, (i, h))

module _ {F S X : Type 0} (sources : Sources S) (db : EmailDatabase S X) where
  with_rows-Slice :
      (ids : List Text) (run_id : Text) (chunk : List (PreparedEmail F))
      (answer : Outcome X (List EmailRecord) × S)
      → All (IsKnown ids) chunk
      → Slice ids chunk (with_rows sources db run_id chunk answer).0
  with_rows-Slice ids run_id chunk (err e, s) known = tt
  with_rows-Slice ids run_id chunk (ok rows, s) known =
      chunk_results-Slice X ids run_id rows chunk known

  with_commit-Slice :
      (ids : List Text) (user_id : ℕ) (run_id : Text) (chunk : List (PreparedEmail F)) (before : S)
      (answer : Outcome X (Unit {0}) × S)
      → All (IsKnown ids) chunk
      → Slice ids chunk (with_commit sources db user_id run_id chunk before answer).0
  with_commit-Slice ids user_id run_id chunk before (err e, s) known = tt
  with_commit-Slice ids user_id run_id chunk before (ok u, s) known =
      with_rows-Slice ids run_id chunk (db.find user_id (map external_message_id chunk) s) known

  with_insert-Slice :
      (ids : List Text) (user_id : ℕ) (run_id : Text) (chunk : List (PreparedEmail F)) (before : S)
      (answer : Outcome X (Unit {0}) × S)
      → All (IsKnown ids) chunk
      → Slice ids chunk (with_insert sources db user_id run_id chunk before answer).0
  with_insert-Slice ids user_id run_id chunk before (err e, s) known = tt
  with_insert-Slice ids user_id run_id chunk before (ok u, s) known =
      with_commit-Slice ids user_id run_id chunk before (db.commit s) known

  save_prepared_emails-Slice :
      (ids : List Text) (user_id : ℕ) (source : EmailSource) (chunk : List (PreparedEmail F))
      (s : S)
      → All (IsKnown ids) chunk
      → Slice ids chunk (save_prepared_emails sources db user_id source chunk s).0
  unfolding save_prepared_emails
  save_prepared_emails-Slice ids user_id source chunk s known =
      with_insert-Slice ids user_id _ chunk _ _ known

module _ {F X : Type 0} where
  by_chunk-Reports :
      (ids : List Text) (n : ℕ) (chunk : List (PreparedEmail F))
      (answer : Outcome (StoreError X) (List SaveResult)) (results : List SaveResult)
      (failures : List MessageFailure)
      → Slice ids chunk answer
      → Reports {X = StoreError X} ids n (ok (results, failures))
      → Reports ids (n + length chunk) (by_chunk chunk answer (results, failures))
  unfolding build_chunk_save_failures
  by_chunk-Reports ids n chunk (ok saved) results failures (m, h) (c, k) = (
    omega (arith, m, c, length-append results saved),
    All-append (IsReport ids) results saved k h,
  )
  by_chunk-Reports ids n chunk (err (insert_failed e)) results failures h (c, k) = (
    omega (arith, c, length-append failures (map _ chunk), length-map chunk_save_failure chunk),
    k,
  )
  by_chunk-Reports ids n chunk (err _) results failures h (c, k) = tt

module _ {F S X : Type 0} (sources : Sources S) (db : EmailDatabase S X) where
  save_chunks-Reports :
      (ids : List Text) (n : ℕ) (user_id : ℕ) (source : EmailSource)
      (slices : List (List (PreparedEmail F))) (sofar : List SaveResult × List MessageFailure)
      (s : S)
      → All (IsKnown ids) (concat slices)
      → Reports {X = StoreError X} ids n (ok sofar)
      → Reports ids
          (n + length (concat slices))
          (save_chunks sources db user_id source slices sofar s).0
  unfolding save_chunks concat
  save_chunks-Reports ids n user_id source [] sofar s known (c, k) = (omega (arith, c), k)
  save_chunks-Reports ids n user_id source (chunk ∷ rest) (results, failures) s known h =
      let (here, later) = All-split (IsKnown ids) chunk (concat rest) known in
      let (answer, s') = save_prepared_emails sources db user_id source chunk s in
      next (λ m so_far. save_chunks-Reports ids m user_id source rest so_far)
        (by_chunk chunk answer (results, failures)) s'
        (by_chunk-Reports ids n chunk answer results failures
          (save_prepared_emails-Slice sources db ids user_id source chunk s here) h)
        later
    where
      next :
          ((m : ℕ) (sofar : List SaveResult × List MessageFailure) (s : S)
            → All (IsKnown ids) (concat rest)
            → Reports {X = StoreError X} ids m (ok sofar)
            → Reports ids
                (m + length (concat rest))
                (save_chunks sources db user_id source rest sofar s).0)
          → (m : Outcome (StoreError X) (List SaveResult × List MessageFailure)) (s' : S)
          → Reports ids (n + length chunk) m
          → All (IsKnown ids) (concat rest)
          → Reports ids
              (n + length (chunk ++ concat rest))
              (next_chunk (save_chunks sources db user_id source rest) m s').0
      next ih (err e) s' h later = tt
      next ih (ok sofar) s' h later =
          subst (λ total. Reports ids total (save_chunks sources db user_id source rest sofar s').0)
            (omega (arith, length-append chunk (concat rest)))
            (ih (n + length chunk) sofar s' later h)

module _ (F : Type 0) {X : Type 0} (marshal : List Text → Outcome X Text) where
  -- Each e-mail is prepared or has a failure, and what is prepared has the id of one of them.
  abbrev Prepares :
      List Text → ℕ → Outcome (StoreError X) (List (PreparedEmail F) × List MessageFailure) → Type 0
  Prepares ids n (err e) = Unit
  Prepares ids n (ok (prepared, failures)) =
      (length prepared + length failures ≡ n) × All (IsKnown ids) prepared

  add_failure-Prepares :
      (ids : List Text) (n : ℕ) (f : MessageFailure)
      (m : Outcome (StoreError X) (List (PreparedEmail F) × List MessageFailure))
      → Prepares ids n m
      → Prepares ids (suc n) (m >>= add_failure f)
  add_failure-Prepares ids n f (err e) h = tt
  add_failure-Prepares ids n f (ok (prepared, failures)) (c, k) = (omega (arith, c), k)

  with_email-Prepares :
      (ids : List Text) (n : ℕ) (id : Text) (made : Outcome EmailError (Email F))
      (m : Outcome (StoreError X) (List (PreparedEmail F) × List MessageFailure))
      → ((email : Email F) → made ≡ ok email → has_key email.external_message_id ids ≡ true)
      → Prepares ids n m
      → Prepares ids (suc n) (with_email marshal id made m)
  with_email-Prepares ids n id (err e) m known h = add_failure-Prepares ids n _ m h
  with_email-Prepares ids n id (ok email) m known h = elim (Outcome-cases (marshal email.to)) [
    | inr (e, refused) ↦ rw refused tt
    | inl (json, encoded) ↦ rw encoded (added json m h)
  ]
    where
      added :
          (json : Text) (m : Outcome (StoreError X) (List (PreparedEmail F) × List MessageFailure))
          → Prepares ids n m
          → Prepares ids (suc n) (m >>= add_prepared (record { email = email; to_json = json }))
      added json (err e) h = tt
      added json (ok (prepared, failures)) (c, k) = (omega (arith, c), (known email refl, k))

  new_email-id :
      (user_id : ℕ) (dto : FetchedEmail) (email : Email F)
      → new_email_from_fetched_dto user_id dto ≡ ok email
      → email.external_message_id ≡ trim_space dto.id
  unfolding new_email_from_fetched_dto
  new_email-id user_id dto email h =
      let (valid, made) =
        >>-eq-ok (validate (email_of {F = F} user_id dto)) (ok (email_of {F = F} user_id dto)) h in
      ap (λ (e : Email F). e.external_message_id) (sym (eq_of_ok made))

  prepare_emails-Prepares :
      (ids : List Text) (user_id : ℕ) (seen : List Text) (dtos : List FetchedEmail)
      → All (λ (d : FetchedEmail). has_key (trim_space d.id) ids ≡ true) dtos
      → Prepares ids (length dtos) (prepare_emails marshal user_id seen dtos)
  unfolding prepare_emails
  prepare_emails-Prepares ids user_id seen [] known = (refl, tt)
  prepare_emails-Prepares ids user_id seen (dto ∷ dtos) (k, known) =
      let id = trim_space dto.id in
      let rest = prepare_emails {F = F} marshal user_id (seen_after seen id) dtos in
      let ih = prepare_emails-Prepares ids user_id (seen_after seen id) dtos known in
      if-Prepares (is_empty id) _ _ (add_failure-Prepares ids (length dtos) _ rest ih) (
        if-Prepares (has_key id seen) _ _ (add_failure-Prepares ids (length dtos) _ rest ih) (
          with_email-Prepares ids (length dtos) id
            (new_email_from_fetched_dto user_id (record dto { id = id })) rest
            (λ email made.
              rw (new_email-id user_id (record dto { id = id }) email made, trim_space_idem dto.id)
                k)
            ih))
    where
      if-Prepares :
          (b : Bool) (x y : Outcome (StoreError X) (List (PreparedEmail F) × List MessageFailure))
          → Prepares ids (suc (length dtos)) x
          → Prepares ids (suc (length dtos)) y
          → Prepares ids (suc (length dtos)) (if b then x else y)
      if-Prepares true x y h k = h
      if-Prepares false x y h k = k

has_key-keys :
    (dtos : List FetchedEmail)
    → All (λ (d : FetchedEmail). has_key (trim_space d.id) (keys dtos) ≡ true) dtos
unfolding has_key
has_key-keys [] = tt
has_key-keys (dto ∷ dtos) = (
  rw (eq_text_refl (trim_space dto.id)) refl,
  All-imp _ _ (λ d h. rw h (or_true _)) dtos (has_key-keys dtos),
)
  where
    or_true : (b : Bool) → (b || true) ≡ true
    or_true true = refl
    or_true false = refl

module _ (F : Type 0) {S X : Type 0} (sources : Sources S) (db : EmailDatabase S X)
    (marshal : List Text → Outcome X Text) where
  with_prepared-Reports :
      (ids : List Text) (n user_id : ℕ) (source : EmailSource)
      (m : Outcome (StoreError X) (List (PreparedEmail F) × List MessageFailure)) (s : S)
      → Prepares F marshal ids n m
      → Reports ids n (with_prepared sources db user_id source m s).0
  with_prepared-Reports ids n user_id source (err e) s h = tt
  with_prepared-Reports ids n user_id source (ok ([], failures)) s (c, k) = (c, tt)
  with_prepared-Reports ids n user_id source (ok (item ∷ items, failures)) s (c, k) =
      added (save_prepared_email_chunks sources db user_id source (item ∷ items) s) (
        unfold save_prepared_email_chunks in
        subst
          (λ total.
            Reports ids total
              (save_prepared_email_chunks sources db user_id source (item ∷ items) s).0)
          (omega (arith, ap length (concat-chunks (item ∷ items)).0))
          (save_chunks-Reports sources db ids 0 user_id source (chunks (item ∷ items)) ([], []) s
            (subst (All (IsKnown ids)) (sym (concat-chunks (item ∷ items)).0) k) (refl, tt)))
    where
      added :
          (m : Outcome (StoreError X) (List SaveResult × List MessageFailure) × S)
          → Reports ids (length (item ∷ items)) m.0
          → Reports ids n (with_failures failures m).0
      added (err e, s) h = tt
      added (ok (results, save_failures), s) (d, h) =
          (omega (arith, c, d, length-append failures save_failures), h)

  with_source-Reports :
      (user_id : ℕ) (source : EmailSource) (valid : Outcome SourceError (Unit {0}))
      (dtos : List FetchedEmail) (s : S)
      → Reports
          (keys dtos)
          (length dtos)
          (with_source F sources db marshal user_id source valid dtos s).0
  with_source-Reports user_id source (err e) dtos s = tt
  with_source-Reports user_id source (ok u) [] s = (refl, tt)
  with_source-Reports user_id source (ok u) (dto ∷ dtos) s =
      with_prepared-Reports (keys (dto ∷ dtos)) (length (dto ∷ dtos)) user_id source _ s (
        prepare_emails-Prepares F marshal (keys (dto ∷ dtos)) user_id [] (dto ∷ dtos)
          (has_key-keys (dto ∷ dtos)))

  -- When SaveAllIfAbsent succeeds, each e-mail has one result or one failure: they are together as
  -- many as the e-mails, and each result has the id of one of them and is created or existing.
  pub save_all_if_absent-Reports :
      (user_id : ℕ) (source : EmailSource) (dtos : List FetchedEmail) (s s' : S)
      (results : List SaveResult) (failures : List MessageFailure)
      → save_all_if_absent F sources db marshal user_id source dtos s ≡ (ok (results, failures), s')
      → (length results + length failures ≡ length dtos) × All (IsReport (keys dtos)) results
  unfolding save_all_if_absent
  save_all_if_absent-Reports user_id source dtos s s' results failures h =
      subst
        (λ (m : Outcome (StoreError X) (List SaveResult × List MessageFailure) × S).
          Reports (keys dtos) (length dtos) m.0)
        h (with_source-Reports user_id source (validate_source source) dtos s)
