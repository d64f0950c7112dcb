-- ===== src/Lib.antt =====
-- The control platform of the repository, app/: a Cloudflare Worker for clinics whose phone calls
-- an AI receptionist answers. The voice provider reports each call to a webhook, the clinic's staff
-- watch the calls, take them over or hang up, owners manage the logins, and the platform's
-- administrators suspend and block clients. An organization signs up, and staff may sign in, with
-- Google. Beside it stands the call-back worker of the demo site, demo/heartbeat/src/: on a timer it
-- has the receptionist phone the visitors who left a number, in South African calling hours, and
-- follows each call up.
--
-- The state is the database, one list of rows for each table (Schema). A handler is an action
-- `Db → Result A × Db` (Http): a `throw` of the source is an error as a result, and what the handler
-- had written before it stays. A `do` block has the source's statements in the source's order, a
-- query is a `select`, a statement that writes a `write`, and one batch of statements is one `write`.
-- A handler takes the time as an argument, one reading for the whole request, and the ids, tokens and
-- codes that it would draw. Requests that follow each other are sequences of actions; a request that
-- runs while another waits is what the awaited service does to the database.
--
-- The call-back worker has no handler of its own: its state is the table of leads behind a REST
-- interface, and a run is a task over a world (Callbacks.World) that holds the table, what Vapi and
-- the mail service answer, and the turns of the others. Between any two requests of a run a turn
-- changes the table as other runs and the website may, and any request may fail.
--
-- Which file models what:
--   Base        names shared by all modules; Compare, Lists, Texts and Int are its parts: tests,
--               tables, texts as sequences of code units, whole numbers
--   Schema      app/worker/lib/db.ts, the rows
--   Http        app/worker/lib/http.ts, errors and actions; Body is readBodyText; Keeps, Post and
--               Returns are the rules for proofs about handlers
--   Permissions, Audit, Crypto, Stats
--               app/worker/lib/permissions.ts, db.ts (writeAudit), crypto.ts, statsCache.ts
--   Vapi        app/worker/lib/vapi.ts: Json (reading of untyped values), Event (normalizeEvent),
--               Outcome (deriveOutcome), Phone (toE164), Verify (verifyWebhook), Control (the calls
--               of the provider)
--   Calls       app/worker/routes/calls.ts, and of webhook.ts upsertCall and finalizeCall: Status,
--               Upsert, Finalize, Transcript, Routes (handleTakeover, handleEndCall), Listing
--               (handleListCalls); Advance and Takeover hold the proofs on the order of its states
--   Webhook     app/worker/routes/webhook.ts, the whole handler; Keeps, Once (what may happen between
--               two requests) and Replay hold its proofs
--   Lifecycle   deliveries, takeovers and hang-ups in any order; Race is the overlap of a takeover
--   Auth        app/worker/lib/auth.ts (Session, Limiter), routes/auth.ts (Login, handleLogin) and
--               routes/twoFactor.ts (Second, handleChallengeVerify)
--   TwoFactor   app/worker/lib/twoFactor.ts, challenges and (Backup) backup codes; Bounds and
--               Backup.Once hold the proofs
--   Enrolment   app/worker/routes/twoFactor.ts, the handlers that set a second factor up and switch it
--               off; Proof holds the proofs
--   Password    app/shared/password.ts; Change is handleChangePassword and handleLogout of
--               app/worker/routes/auth.ts, Changed holds the proofs
--   Totp        app/worker/lib/totp.ts, the check of authenticator codes
--   RateLimit   app/worker/lib/rateLimit.ts
--   Platform    app/worker/routes/platform.ts and lib/platform.ts: Address (canonicalEmail,
--               parseReason), Batches and Enforcement (handleAdminOrgAction,
--               handleAdminAccountAction)
--   Team        app/worker/routes/users.ts, handleUpdateTeamMember
--   Billing     app/worker/lib/billing.ts, the rounding rule, over lengths that are fractions of
--               seconds; Ceiling holds the proofs
--   Routing     app/worker/index.ts, handleApi, and of lib/http.ts assertTrustedOrigin: the gates, and
--               (Table) the routes; a request ends in the choice of a handler, whose code is in the
--               modules above and below. Gates and Cleared hold the proofs
--   Google      app/worker/lib/google.ts, the exchange of a code and the claims of a token; Genuine
--               holds the proofs
--   GoogleAuth  app/worker/routes/googleAuth.ts: handleGoogleStart, handleGoogleCallback; Keeps,
--               Single, Vouched and Opens hold the proofs
--   Signup      app/worker/routes/signup.ts and lib/notices.ts: handleSignupStart,
--               createPendingOrganization; Slug (slugify) and Terms (recordConsent,
--               hasCurrentConsent); Consent and Made hold the proofs
--   Callbacks   demo/heartbeat/src/callbacks.ts: World (the table and the requests), Number
--               (southAfricanNumber), Outcome (outcomeOf), Letters (the mails), FollowUp (followUp),
--               Start (skip, startCall), Run (startCalls, runCallbacks); Clean is `clean` of
--               callbackAssistant.ts; Moves, Keeps and the parts of Run, Number and Clean hold the
--               proofs
--   Sast        demo/heartbeat/src/sast.ts: the calendar, the public holidays and the calling hours;
--               Easter and Hours hold the proofs
--   Samples, Execution, and a module Tests in each part: concrete inputs
--
-- Parameters, since their code is the runtime's, a service's or a thin wrapper of one: SHA-256, HMAC
-- and PBKDF2, JSON.parse, Number and Date.parse, the voice provider (Vapi.Control.Provider), mail, the
-- encryption of a stored secret, Google's token endpoint and the decoding of a token's segment,
-- decodeURIComponent, the classes of Unicode, and how Intl writes a time. A test of a theorem gives
-- each a concrete function.
--
-- The loops go through lists and texts. One definition runs on fuel, the decimal spelling of a number
-- n (Callbacks.Letters), on n + 1: a number has at most that many digits. Times and counts are natural
-- numbers. Of the numbers in a message of the provider (Vapi.Json) those are read that are whole and
-- not negative, so a call whose length it reports in fractions of seconds, or whose end it reports as
-- before its start, is outside the model of the webhook; Billing takes any length. The decryption of
-- a stored secret may fail, as decryptSecret throws; what it gives is taken to be base 32, as
-- generateSecret made it, so that base32Decode does not throw. Letter case is that of ASCII. The id of a row is taken to be fresh where a row is added,
-- and where a proof needs that ids are distinct it says so.
--
-- Not modelled: cookies and headers, logging, the redirect to HTTPS and the serving of assets,
-- the diagnostics of the Google configuration, the other read-only queries, the single-page application,
-- what the receptionist says on a call-back, and the pages and libraries of the demo site in demo/src/,
-- where the visitors' requests are written.
pub mod Base
pub mod Schema
pub mod Http
pub mod Callbacks
pub mod Calls
pub mod Vapi
pub mod Stats
pub mod Crypto
pub mod Webhook
pub mod Permissions
pub mod Auth
pub mod Audit
pub mod Lifecycle
pub mod RateLimit
pub mod Totp
pub mod TwoFactor
pub mod Platform
pub mod Team
pub mod Billing
pub mod Execution
pub mod Samples
pub mod Sast
pub mod Google
pub mod GoogleAuth
pub mod Enrolment
pub mod Password
pub mod Routing
pub mod Signup
