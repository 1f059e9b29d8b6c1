-- ===== src/MailFetch/Accounts.antt =====
-- What becomes of each fetched e-mail (useCase.Execute of internal/mailfetch/application/
-- usecase.go).
use mathlib.Core.Path.{subst}
use billingrse_backend.Prelude.{
  ℕ, suc, ◌+◌, ◌≡◌, ◌≢◌, refl, sym, ap, ◌∙◌, true, false, ◌||◌, none, some, List, [], ◌∷◌, ◌++◌,
  All, All-append, length, length-append, is_empty, Outcome, ok, err, Bool-cases, Option-cases,
  Outcome-cases, inl, inr, arith,
}
use billingrse_backend.GoText.{Text, trim_space, eq_text, has_key}
use billingrse_backend.GoText.Trim.{eq_text_sound}
use billingrse_backend.GoTime.{is_zero}
use billingrse_backend.GoContext.{Context, nil_context, live}
use billingrse_backend.Domain.Email.{FetchedEmail}
use billingrse_backend.MailFetch.Types.{
  MessageFailure, EmailSource, ConnectionRef, source, SaveResult, normalize_condition, Command,
  CreatedEmail, Result, CommandError, status_created, status_existing,
}
use billingrse_backend.MailFetch.Targets.{
  IsSaveTarget, sort_fetched-count, sort_fetched-IsSaveTarget, ids,
}
use billingrse_backend.MailFetch.{
  Fetch, Parts, sort_fetched, target_by_message_id, created_email, append_saved, append_all_saved,
  fetched_result, validate_command, with_saved, with_fetched, with_connection, execute,
}

-- A save result with one of the two statuses, for one of the targets.
abbrev pub IsSaved : List FetchedEmail → SaveResult → Type 0
IsSaved targets r =
    ((eq_text r.status status_created || eq_text r.status status_existing) ≡ true)
    × (has_key r.external_message_id (ids targets) ≡ true)

-- How many e-mails a result tells of.
abbrev told : Result → ℕ
told r = length r.created_emails + (length r.existing_email_ids + length r.failures)

target_by_message_id-found :
    (id : Text) (targets : List FetchedEmail)
    → has_key id (ids targets) ≡ true
    → target_by_message_id id targets ≢ none
unfolding target_by_message_id has_key
target_by_message_id-found id [] h k = cc
target_by_message_id-found id (t ∷ targets) h k = elim (Bool-cases (eq_text id t.id)) [
  | inl e ↦ absurd (ground arith)
  | inr e ↦ target_by_message_id-found id targets (ground arith) (ground arith)
]

append_saved-told :
    (targets : List FetchedEmail) (r : Result) (saved : SaveResult)
    → IsSaved targets saved
    → told (append_saved targets r saved) ≡ suc (told r)
unfolding append_saved
append_saved-told targets r saved (status, known) =
    elim (Bool-cases (eq_text saved.status status_created)) [
      | inl e ↦ elim (Option-cases (target_by_message_id saved.external_message_id targets)) [
        | inl missing ↦
            absurd (target_by_message_id-found saved.external_message_id targets known missing)
        | inr (dto, found) ↦
            rw (e, found)
              (omega (arith, length-append r.created_emails (created_email saved dto ∷ [])))
      ]
      | inr e ↦ elim (Bool-cases (eq_text saved.status status_existing)) [
        | inl f ↦
            rw (e, f) (omega (arith, length-append r.existing_email_ids (saved.email_id ∷ [])))
        | inr f ↦ absurd (cc (sym status, ap (λ b. b || eq_text saved.status status_existing) e, f))
      ]
    ]

append_all_saved-told :
    (targets : List FetchedEmail) (r : Result) (results : List SaveResult)
    → All (IsSaved targets) results
    → told (append_all_saved targets r results) ≡ told r + length results
unfolding append_all_saved
append_all_saved-told targets r [] h = omega arith
append_all_saved-told targets r (saved ∷ results) (k, h) = omega (
  arith,
  append_all_saved-told targets (append_saved targets r saved) results h,
  append_saved-told targets r saved k,
)

append_saved-matched :
    (targets : List FetchedEmail) (r : Result) (saved : SaveResult)
    → (append_saved targets r saved).matched_message_count ≡ r.matched_message_count
unfolding append_saved
append_saved-matched targets r saved = elim (Bool-cases (eq_text saved.status status_created)) [
  | inl e ↦ elim (Option-cases (target_by_message_id saved.external_message_id targets)) [
    | inl missing ↦ rw (e, missing) refl
    | inr (dto, found) ↦ rw (e, found) refl
  ]
  | inr e ↦ elim (Bool-cases (eq_text saved.status status_existing)) [
    | inl f ↦ rw (e, f) refl
    | inr f ↦ rw (e, f) refl
  ]
]

append_all_saved-matched :
    (targets : List FetchedEmail) (r : Result) (results : List SaveResult)
    → (append_all_saved targets r results).matched_message_count ≡ r.matched_message_count
unfolding append_all_saved
append_all_saved-matched targets r [] = refl
append_all_saved-matched targets r (saved ∷ results) =
    append_all_saved-matched targets (append_saved targets r saved) results
    ∙ append_saved-matched targets r saved

-- A created e-mail with an id that is not blank, a date and the digest of its body.
abbrev pub IsAnalysable : (Text → Text) → CreatedEmail → Type 0
IsAnalysable sum256_hex e =
    (is_empty (trim_space e.external_message_id) ≡ false)
    × (is_zero e.date ≡ false)
    × (e.body_digest ≡ sum256_hex e.body)

target_by_message_id-IsSaveTarget :
    (sum256_hex : Text → Text) (id : Text) (targets : List FetchedEmail) (dto : FetchedEmail)
    → All (IsSaveTarget sum256_hex) targets
    → target_by_message_id id targets ≡ some dto
    → (dto.id ≡ id) × IsSaveTarget sum256_hex dto
unfolding target_by_message_id
target_by_message_id-IsSaveTarget sum256_hex id [] dto h found = cc
target_by_message_id-IsSaveTarget sum256_hex id (t ∷ targets) dto (k, h) found =
    elim (Bool-cases (eq_text id t.id)) [
      | inl e ↦
          let same : t ≡ dto = ground arith in
          subst (λ (d : FetchedEmail). (d.id ≡ id) × IsSaveTarget sum256_hex d) same
            (sym (eq_text_sound id t.id e), k)
      | inr e ↦ target_by_message_id-IsSaveTarget sum256_hex id targets dto h (ground arith)
    ]

append_saved-IsAnalysable :
    (sum256_hex : Text → Text) (targets : List FetchedEmail) (r : Result) (saved : SaveResult)
    → All (IsSaveTarget sum256_hex) targets
    → All (IsAnalysable sum256_hex) r.created_emails
    → All (IsAnalysable sum256_hex) (append_saved targets r saved).created_emails
unfolding append_saved
append_saved-IsAnalysable sum256_hex targets r saved h k =
    elim (Bool-cases (eq_text saved.status status_created)) [
      | inl e ↦ elim (Option-cases (target_by_message_id saved.external_message_id targets)) [
        | inl missing ↦ rw (e, missing) k
        | inr (dto, found) ↦
            let (same, (full, trimmed, dated, digest)) =
              target_by_message_id-IsSaveTarget sum256_hex saved.external_message_id targets dto h
                found in
            rw (e, found)
              (All-append (IsAnalysable sum256_hex) r.created_emails (created_email saved dto ∷ [])
                k ((rw (← same, trimmed) full, dated, digest), tt))
      ]
      | inr e ↦ elim (Bool-cases (eq_text saved.status status_existing)) [
        | inl f ↦ rw (e, f) k
        | inr f ↦ rw (e, f) k
      ]
    ]

append_all_saved-IsAnalysable :
    (sum256_hex : Text → Text) (targets : List FetchedEmail) (r : Result)
    (results : List SaveResult)
    → All (IsSaveTarget sum256_hex) targets
    → All (IsAnalysable sum256_hex) r.created_emails
    → All (IsAnalysable sum256_hex) (append_all_saved targets r results).created_emails
unfolding append_all_saved
append_all_saved-IsAnalysable sum256_hex targets r [] h k = k
append_all_saved-IsAnalysable sum256_hex targets r (saved ∷ results) h k =
    append_all_saved-IsAnalysable sum256_hex targets (append_saved targets r saved) results h
      (append_saved-IsAnalysable sum256_hex targets r saved h k)

module _ {S X : Type 0} (sum256_hex : Text → Text) (parts : Parts S X) where
  -- What holds of the result, when there is one.
  abbrev After : (Result → Type 0) → Outcome (CommandError X) Result → Type 0
  After P (ok r) = P r
  After P (err e) = Unit

  with_saved-IsAnalysable :
      (targets : List FetchedEmail) (r : Result)
      (answer : Outcome X (List SaveResult × List MessageFailure) × S)
      → All (IsSaveTarget sum256_hex) targets
      → r.created_emails ≡ []
      → After
          (λ r. All (IsAnalysable sum256_hex) r.created_emails)
          (with_saved sum256_hex parts targets r answer).0
  with_saved-IsAnalysable targets r (err e, s) h empty = tt
  with_saved-IsAnalysable targets r (ok (results, failures), s) h empty =
      append_all_saved-IsAnalysable sum256_hex targets
        (record r { failures = r.failures ++ failures }) results h (rw empty tt)

  with_fetched-IsAnalysable :
      (user_id : ℕ) (conn : ConnectionRef)
      (answer : Outcome X (List FetchedEmail × List MessageFailure) × S)
      → After
          (λ r. All (IsAnalysable sum256_hex) r.created_emails)
          (with_fetched sum256_hex parts user_id conn answer).0
  with_fetched-IsAnalysable user_id conn (err e, s) = tt
  with_fetched-IsAnalysable user_id conn (ok (dtos, failures), s) =
      with_saved-IsAnalysable (sort_fetched sum256_hex [] dtos).0 _ _
        (sort_fetched-IsSaveTarget sum256_hex [] dtos) refl

  with_connection-IsAnalysable :
      (cmd : Command) (answer : Outcome X ConnectionRef × S)
      → After
          (λ r. All (IsAnalysable sum256_hex) r.created_emails)
          (with_connection sum256_hex parts cmd answer).0
  with_connection-IsAnalysable cmd (err e, s) = tt
  with_connection-IsAnalysable cmd (ok conn, s) = elim (Outcome-cases (parts.create_fetcher conn)) [
    | inr (e, h) ↦ rw h tt
    | inl (fetch, h) ↦ rw h (with_fetched-IsAnalysable cmd.user_id conn _)
  ]

  execute-After :
      (P : Result → Type 0) (ctx : Context) (cmd : Command) (s : S)
      → After P
          (with_connection sum256_hex parts cmd
            (parts.find_usable_connection cmd.user_id cmd.connection_id s)).0
      → After P (execute sum256_hex parts ctx cmd s).0
  unfolding execute
  execute-After P nil_context cmd s h = tt
  execute-After P live cmd s h = elim (Outcome-cases (validate_command {X = X} cmd)) [
    | inr (e, refused) ↦ rw refused tt
    | inl (u, valid) ↦ rw valid h
  ]

  -- Each e-mail that a successful Execute reports as created has a message id that is not blank, a
  -- date and the digest of its body.
  pub execute-IsAnalysable :
      (ctx : Context) (cmd : Command) (s s' : S) (r : Result)
      → execute sum256_hex parts ctx cmd s ≡ (ok r, s')
      → All (IsAnalysable sum256_hex) r.created_emails
  execute-IsAnalysable ctx cmd s s' r h =
      subst
        (λ (m : Outcome (CommandError X) Result × S).
          After (λ r. All (IsAnalysable sum256_hex) r.created_emails) m.0)
        h
        (execute-After (λ r. All (IsAnalysable sum256_hex) r.created_emails) ctx cmd s
          (with_connection-IsAnalysable cmd _))

  module _
      (reports : (user_id : ℕ) (source : EmailSource) (targets : List FetchedEmail) (s s' : S)
          (results : List SaveResult) (failures : List MessageFailure)
        → All (IsSaveTarget sum256_hex) targets
        → parts.save_all_if_absent user_id source targets s ≡ (ok (results, failures), s')
        → (length results + length failures ≡ length targets) × All (IsSaved targets) results) where
    abbrev Tells : ℕ → ℕ → Result → Type 0
    Tells fetched failed r = (r.matched_message_count ≡ fetched) × (told r ≡ fetched + failed)

    with_saved-Tells :
        (n m : ℕ) (targets : List FetchedEmail) (r : Result)
        (answer : Outcome X (List SaveResult × List MessageFailure) × S)
        → ((results : List SaveResult) (failures : List MessageFailure) (s' : S)
            → answer ≡ (ok (results, failures), s')
            → (length results + length failures ≡ length targets) × All (IsSaved targets) results)
        → r.matched_message_count ≡ n
        → told r + length targets ≡ n + m
        → After (Tells n m) (with_saved sum256_hex parts targets r answer).0
    with_saved-Tells n m targets r (err e, s) facts matched total = tt
    with_saved-Tells n m targets r (ok (results, failures), s) facts matched total =
        let (count, saved) = facts results failures s refl in
        (
          append_all_saved-matched targets (record r { failures = r.failures ++ failures }) results
              ∙ matched,
          omega (
            arith,
            append_all_saved-told targets (record r { failures = r.failures ++ failures }) results
                saved,
            length-append r.failures failures,
            count,
            total,
          ),
        )

    -- When the repository gives one result or failure for each target, each fetched e-mail and each
    -- failure of the fetcher is told of once by a successful Execute: the created and the existing
    -- e-mails and the failures are together as many.
    pub execute-told :
        (ctx : Context) (cmd : Command) (s s1 s2 s' : S) (r : Result) (conn : ConnectionRef)
        (fetch : Fetch S X) (dtos : List FetchedEmail) (failures : List MessageFailure)
        → parts.find_usable_connection cmd.user_id cmd.connection_id s ≡ (ok conn, s1)
        → parts.create_fetcher conn ≡ ok fetch
        → fetch (normalize_condition cmd.condition) s1 ≡ (ok (dtos, failures), s2)
        → execute sum256_hex parts ctx cmd s ≡ (ok r, s')
        → (r.matched_message_count ≡ length dtos)
          × (length r.created_emails + (length r.existing_email_ids + length r.failures)
              ≡ length dtos + length failures)
    execute-told ctx cmd s s1 s2 s' r conn fetch dtos failures found made fetched h =
        subst
          (λ (m : Outcome (CommandError X) Result × S).
            After (Tells (length dtos) (length failures)) m.0)
          h
          (execute-After (Tells (length dtos) (length failures)) ctx cmd s (
            rw (found, made, fetched)
              (let (targets, faults) = sort_fetched sum256_hex [] dtos in
                with_saved-Tells (length dtos) (length failures) targets
                  (fetched_result conn dtos (failures ++ faults)) _
                  (λ results failures s'.
                    reports cmd.user_id (source conn) targets s2 s' results failures
                      (sort_fetched-IsSaveTarget sum256_hex [] dtos))
                  refl
                  (omega (
                    arith,
                    length-append failures faults,
                    sort_fetched-count sum256_hex [] dtos,
                  )))))
