-- ===== src/EmailStore/Stage.antt =====
-- The mail fetch stage (internal/mailfetch/application/usecase.go) with the repository of
-- internal/mailfetch/infrastructure/email_repository.go behind it.
use mathlib.Core.Path.{subst}
use billingrse_backend.Prelude.{ℕ, ◌+◌, ◌≡◌, refl, List, [], ◌∷◌, All, length, Outcome, ok}
use billingrse_backend.GoText.{Text}
use billingrse_backend.GoSources.{Sources}
use billingrse_backend.GoContext.{Context}
use billingrse_backend.Domain.Email.{FetchedEmail}
use billingrse_backend.MailFetch.Types.{
  MessageFailure, ConnectionRef, normalize_condition, Command, Result,
}
use billingrse_backend.MailFetch.Targets.{IsSaveTarget, ids}
use billingrse_backend.MailFetch.Accounts.{execute-told}
use billingrse_backend.MailFetch.{Fetch, Parts, execute}
use billingrse_backend.EmailStore.{EmailDatabase, StoreError, save_all_if_absent}
use billingrse_backend.EmailStore.Reports.{keys, IsReport, save_all_if_absent-Reports}

keys-ids :
    (sum256_hex : Text → Text) (targets : List FetchedEmail)
    → All (IsSaveTarget sum256_hex) targets
    → keys targets ≡ ids targets
keys-ids sum256_hex [] h = refl
keys-ids sum256_hex (t ∷ targets) ((full, trimmed, dated, digest), h) =
    cc (trimmed, keys-ids sum256_hex targets h)

module _ (F : Type 0) {S X : Type 0} (sum256_hex : Text → Text) (sources : Sources S)
    (db : EmailDatabase S X) (marshal : List Text → Outcome X Text)
    (find_usable_connection : ℕ → ℕ → S → Outcome (StoreError X) ConnectionRef × S)
    (create_fetcher : ConnectionRef → Outcome (StoreError X) (Fetch S (StoreError X))) where
  -- The use case as it is wired to the repository.
  abbrev pub wired : Parts S (StoreError X)
  wired = record {
    find_usable_connection = find_usable_connection;
    create_fetcher = create_fetcher;
    save_all_if_absent = save_all_if_absent F sources db marshal;
  }

  -- With the repository behind the stage, each fetched e-mail and each failure of the fetcher is
  -- told of once by a successful Execute, whatever the database does: the created and the existing
  -- e-mails and the failures are together as many.
  pub execute-wired :
      (ctx : Context) (cmd : Command) (s s1 s2 s' : S) (r : Result) (conn : ConnectionRef)
      (fetch : Fetch S (StoreError X)) (dtos : List FetchedEmail) (failures : List MessageFailure)
      → find_usable_connection cmd.user_id cmd.connection_id s ≡ (ok conn, s1)
      → create_fetcher conn ≡ ok fetch
      → fetch (normalize_condition cmd.condition) s1 ≡ (ok (dtos, failures), s2)
      → execute sum256_hex wired ctx cmd s ≡ (ok r, s')
      → (r.matched_message_count ≡ length dtos)
        × (length r.created_emails + (length r.existing_email_ids + length r.failures)
            ≡ length dtos + length failures)
  execute-wired =
      execute-told sum256_hex wired (λ user_id source targets s s' results failures h saved.
        let (count, reports) =
          save_all_if_absent-Reports F sources db marshal user_id source targets s s' results
            failures saved in
        (count, subst (λ ks. All (IsReport ks) results) (keys-ids sum256_hex targets h) reports))
