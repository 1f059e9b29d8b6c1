-- ===== src/Lib.antt =====
-- A model of the billing back end: e-mails are fetched from a mail account, analysed, assigned to
-- vendors, judged for eligibility and turned into billings, and one workflow runs these stages and
-- records what happened.
--
-- Parts and files. Paths of the program are from the repository's root.
--
--   Prelude         the result type of Go functions that return an error, Boolean tests, lists
--   GoText, GoTime, GoContext, GoSources, Goroutines, Numbers
--                   what the program uses of strings, unicode, fmt, time, context, uuid, goroutines,
--                   float64 and shopspring/decimal. A string is its list of code points. The Unicode
--                   case tables, float64, decimal, the clock and the source of fresh ids are
--                   interfaces (CaseTable, Floats, FloatMath, Decimals, Sources). Goroutines that
--                   write each to an index of its own are run in the order of a schedule, the order in
--                   which they finish
--   Domain          internal/common/domain: value objects (Money, PaymentCycle, InvoiceNumber,
--                   BillingNumber), Optional (normalization of optional fields), Email (the entity and
--                   NewEmailFromFetchedDTO), ParsedEmail, LineItem, Billing (NewBilling, Validate),
--                   Eligibility (the policy), VendorResolution (the policy over alias candidates, its
--                   Search the fetch plan)
--   MailFetch       internal/mailfetch/application: Execute is `execute`, its loop over the fetched
--                   e-mails `sort_fetched`, over the saved ones `append_saved`. Gmail has the fetcher,
--                   its factory and the reader of the connection from internal/mailfetch/infrastructure
--   EmailStore      internal/mailfetch/infrastructure/email_repository.go: SaveAllIfAbsent is
--                   `save_all_if_absent`, over the statements of a database (EmailDatabase); Stage puts
--                   it behind the fetch stage
--   MailAnalysis    internal/mailanalysis/application: Execute is `execute`, the body of its loop
--                   `settle`, the goroutines `analyze_emails_concurrently`; Drafts is
--                   internal/mailanalysis/domain/parsed_email.go
--   ParsedEmailStore
--                   internal/mailanalysis/infrastructure/parsed_email_repository.go: SaveAll
--   VendorResolutionStage
--                   internal/vendorresolution/application: Execute is `execute`, the body of its loop
--                   `settle`, resolveTarget is `resolve_target`, over the two repositories as functions
--   EligibilityStage
--                   internal/billingeligibility: Execute is `execute`, the body of its loop `judge`
--   BillingStage    internal/billing: Execute is `execute`, the body of its loop `create`; the
--                   repository's SaveIfAbsent is a function on the state of the store
--   BillingStore    internal/billing/infrastructure/repository.go: SaveIfAbsent is `save_if_absent`,
--                   over the statements of a database (Database) whose unique index is a hypothesis
--                   (Index.IsIndexed)
--   Workflow        internal/manualmailworkflow/application: validation of jobs, progress rows,
--                   messages, status, and Execute. Run.execute takes its five stages and the history
--                   repository as functions on a state, each of which returns a value, an error or
--                   panics, Fail included; the repetition of mark, call and save in Execute is
--                   `run_stage`.
--                   Start.start is Start, which queues a run and hands it to the dispatcher.
--                   Listing is the list of stored runs with its query.
--                   StatusRepository and History have the checks and the rows of
--                   internal/manualmailworkflow/infrastructure/workflow_status_repository.go over
--                   the statements of a database (HistoryDatabase, Lifecycle.IsDatabase), Adapters
--                   the five adapters of that directory between the workflow and the stages above, the
--                   first three in Adapters.Intake. Protocol is the order of calls as an automaton
--   Examples        concrete tables and numbers, and each theorem at a concrete input
--
-- Numbers: identifiers and counts are natural numbers, of which the program only tests equality
-- with zero, counts list elements, or adds two lengths, so the width of uint and int is not
-- reached; the position base, which may be negative, is an integer. Unsigned numbers are printed
-- with twenty digits of fuel, which is enough for 64 bits. The loop of EmailStore.Chunks runs on
-- fuel, as much as there are elements, and each round takes one at least; all other loops are
-- structural recursion on a list. The bound on amounts is stated over a reading of float64 in whole
-- units (MailAnalysis.Drafts.Bounds.IsReading).
--
-- Not modelled: logging, the database itself (its statements are parameters), HTTP, authentication,
-- external services (mail provider, language model) and the code that prepares calls of them (the
-- builder of the Gmail session, the prompt and the parsing of the model's answer), the repositories
-- of vendors, and the queries behind the screens. Copies of slices and pointers are
-- the values themselves, since nothing is written after it is copied.
pub mod Prelude
pub mod GoText
pub mod GoTime
pub mod Numbers
pub mod GoContext
pub mod Domain
pub mod EligibilityStage
pub mod BillingStage
pub mod BillingStore
pub mod EmailStore
pub mod GoSources
pub mod Goroutines
pub mod MailAnalysis
pub mod MailFetch
pub mod ParsedEmailStore
pub mod VendorResolutionStage
pub mod Workflow
pub mod Examples
