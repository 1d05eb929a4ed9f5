-- ===== src/Lib.antt =====
-- A model of the backend of the extended producer responsibility service: the waste balance of an
-- accreditation, the packaging recycling notes (PRNs) that are issued against it, the statuses of
-- organisations and of summary logs, and the reports of operators with their reporting periods.
--
-- Parts and files. Paths of the program are from the repository's root.
-- * WasteBalances models src/waste-balances. The balance is event-sourced: each accreditation has a
--   ledger of numbered events. Schema is ledger-schema.js and ledger-validation.js; Repository is
--   ledger-inmemory.js, where the store is the array `storage`; ClosingBalance and Commands are the
--   pure domain (ledger-closing-balance.js, commands.js); CurrentBalance is
--   current-waste-balance.js; Service is waste-balance-service.js: `fold`, `append`,
--   `runPrnCommand` and `commitSummaryLogSubmittedEvent`. A command makes two reads and a write,
--   and other writers may run between them, so `prn_command` takes the three stores that they meet.
-- * PackagingRecyclingNotes models src/packaging-recycling-notes. Model is domain/model.js,
--   Numbers is domain/prn-number-generator.js, Projection is fold-prn-from-tail-events.js, Reading
--   is get-projected-prn.js, Store is repository/inmemory.plugin.js and watermark-guard.js,
--   BalanceEffects is update-status-balance-effects.js, and Issuance and UpdateStatus are
--   update-status.js, over a World of the ledger, the PRN documents and the cancellation events
--   raised. A status change runs a balance command of WasteBalances, folds its event onto the PRN
--   and stores the document.
-- * Organisations models src/domain/organisations/model.js and status.js; the changes that bypass
--   the transition tables, as the cascade of a cancelled registration, are not modelled.
-- * SummaryLogs models src/domain/summary-logs/status.js (Status),
--   src/repositories/summary-logs/inmemory.js (Store: `find_log` reads the storage or the replica
--   that lags behind it) and src/application/summary-logs/mark-as-failed.js (Failure).
-- * Reports models src/reports. Calendar is the date arithmetic of JavaScript behind formatDateISO
--   in src/common/helpers/date-formatter.js. Periods, ReportStatus, Stale, Merging, Calendars,
--   Submitted and Compliance are the files of src/reports/domain; Model is the documents of
--   repository/port.js and domain/resubmission.js. PeriodicReports is `groupAsPeriodicReports` of
--   repository/helpers.js and application/submission-lookup.js; Store and Flagging are
--   repository/inmemory.js over the list of the stored reports; Service is
--   create-report-validation.js, report-service.js and resubmission-service.js of
--   src/reports/application; Routes is the handlers of src/reports/routes that write and the two
--   event handlers that flag reports. A handler runs as a whole, and Lifecycle runs handlers one
--   after another. The handlers read the periodic view of the store and write through its adapter.
-- * Decimals models src/common/helpers/decimal-utils.js over decimal.js, which is a parameter.
-- * Prelude holds the shared numbers, lists and results. A call that may throw returns a Result,
--   with the error that is thrown.
-- In each part the modules that define nothing of the code hold theorems, and Tests the concrete
-- runs.
--
-- Choices. Ids are numbers, since the code only compares them. Tonnages are integers, the count of
-- a fixed decimal unit; decimal.js adds and subtracts them exactly. An instant is a number. A date
-- stands for its text YYYY-MM-DD and has a year of four digits; where the code compares an instant
-- with dates, the instant is known by its UTC date. The figures of a report are a number. Joi
-- schemas are kept as far as their numeric bounds. The figures that are aggregated from waste
-- records, the changes of a patch and the check that a report is complete are parameters. The
-- issuance retry runs over the list of its 27 attempts. Only the decimal digits of a number n are
-- written on fuel, n + 1, which is enough since each digit divides the number by ten.
--
-- Not modelled: HTTP routes, plugins, queues, the MongoDB adapters (the in-memory adapters have
-- their contract), logs, metrics and audits; the validation and sync of summary logs, credited
-- tonnage, the aggregation and monitoring of reports, waste records, overseas sites, exports and
-- form submissions.
pub mod Prelude
pub mod Decimals
pub mod WasteBalances
pub mod Organisations
pub mod PackagingRecyclingNotes
pub mod SummaryLogs
pub mod Reports
