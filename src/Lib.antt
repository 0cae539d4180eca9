-- ===== src/Lib.antt =====
-- A model of the Settlr payment platform and the theorems that make it correct. Settlr is a set of
-- Node services over PostgreSQL, Redis and Kafka: payment-service moves money between accounts,
-- fraud-service scores a payment before it is made, webhook-service tells merchants about its
-- outcome, and the packages hold what they share.
--
-- Payments. services/payment-service/src/services/payment.service.ts, initiatePayment, is
-- Payment/Initiate.antt: the idempotency cache is read, the request is validated, the locks of both
-- accounts are taken, the fraud check runs, and up to three attempts are made at one transaction;
-- after the commit the result is cached, the read caches are deleted and PAYMENT_COMPLETED is
-- published. Its `try`, `catch` and `finally` are those of Action.antt. The transaction itself is
-- Payment/Transfer.antt, its statements (repositories/payment.repository.ts, ledger.repository.ts
-- and services/ledger.service.ts) are Payment/Repository.antt, and the retry loop is
-- Payment/Attempts.antt. getTransaction and getTransactionDetails are Payment/Query.antt.
-- POST /payments with its middleware and error handler is Payment/Handler.antt; the listing of
-- src/handlers/payment.handler.ts is Payment/Listing.antt.
-- Payment/Transfer/, Payment/Query/, Payment/Handler/, Payment/Listing/ and Payment/Initiate/ hold
-- the proofs.
--
-- Books. Books.antt sums what the transactions and the ledger say of an account, as
-- scripts/fix-balances.js does, and serves a list of payment requests. Books/Bank.antt is what
-- payment-service promises: a bank of balances without rows, locks, caches and events.
--
-- Gateway. services/api-gateway, for POST /api/v1/payments, is Gateway.antt: the rate limit, the
-- token, the schema of the body, the idempotency header and the proxy in front of Payment/Handler.
--
-- Redis. packages/redis/client.ts is Redis.antt (the commands, as an interface with the laws of
-- their documented effects), Redis/Lock.antt (the account locks) and Redis/RateLimit.antt;
-- Redis/Memory.antt is a server that satisfies the interface.
-- Redis/Contention.antt interleaves the commands of several payments: a payment is a program counter,
-- and a step sends one command of acquireAccountLocks or releaseAllLocks.
--
-- Kafka. packages/kafka/producer.ts is Kafka.antt, packages/kafka/consumer.ts is
-- Kafka/Consumer.antt: the deduplication of delivered events.
--
-- Fraud. services/fraud-service/src/engine is Fraud.antt (what the rules keep in Redis),
-- Fraud/Rules.antt (the six rules) and Fraud/Engine.antt (the score and the action). The decisions
-- of an administrator, src/routes/fraud.routes.ts, are Fraud/Review.antt.
--
-- Mails. services/notification-service/src/emailService.ts is Notification.antt.
--
-- Authentication. services/account-service/src/services/auth.service.ts and
-- repositories/auth.repository.ts are Auth.antt and Auth/Profile.antt; Auth/Race.antt is a logout in the
-- middle of a refresh.
--
-- Accounts. The paged histories of services/account-service/src/services/account.service.ts and
-- repositories/account.repository.ts are Account.antt, the chart is Account/Chart.antt, and creation,
-- lookup and the weekly sums are Account/Directory.antt. Account/Freshness.antt is about both
-- services on one Redis.
--
-- Webhooks. services/webhook-service/src is Webhook.antt, Webhook/Repository.antt,
-- Webhook/Dispatcher.antt (dispatcher.ts), Webhook/RetryWorker.antt (retryWorker.ts) and
-- Webhook/Handlers.antt (handlers/webhook.handler.ts).
-- Webhook/RetryWorker/Posts.antt and its children count the requests that a delivery takes.
--
-- Names and screens. toCamelCase and toSnakeCase of packages/types/index.ts are Keys.antt; exportToCSV
-- of settlr-ui/src/lib/export.ts is Export.antt.
-- Of settlr-ui/src, Ui/Connection.antt is hooks/useWebSocket.ts, Ui/Confirm.antt is the confirmation of
-- a payment (components/sendmoney/ReviewAndConfirm.tsx, api/payment.api.ts, api/client.ts), and
-- Ui/ConfirmStep.antt its older form (components/send/ConfirmStep.tsx); Ui/Recipients.antt is
-- components/sendmoney/RecipientSearch.tsx, and Ui/SendMoney.antt is pages/SendMoneyPage.tsx with
-- components/sendmoney/AmountInput.tsx; Ui/History.antt is pages/TransactionsPage.tsx with getTransactions
-- of api/payment.api.ts. A walk over its pages takes as much fuel as pages are visited: fuel for every
-- 20 matching transactions is enough.
--
-- Shared. packages/types/errors.ts is Errors.antt; the rows of packages/types/index.ts and of the
-- migrations are Database.antt; Prelude.antt passes on the library names and the lemmas on lists and
-- texts. Tests.antt and its children run the theorems at concrete inputs.
--
-- State and time. A service is a function from a state to a result and a state; an awaited call that
-- may throw returns an error value. One call runs from its start to its end: interleavings of two
-- requests appear only where a file says so. A database table is a list of rows and a transaction
-- that throws leaves the tables as they were. Amounts and balances are natural numbers of paise;
-- JavaScript's safe-integer bound is tested where the source tests it, and a sum above it is exact, where
-- JavaScript would round. Of the types of columns, the bounds of the idempotency key, the currency and the
-- version of an account are modelled. Each statement of payment-service is answered; those of
-- webhook-service may not be, whether or not they took effect. Lists are sorted stably; only
-- Payment/Listing.antt lets PostgreSQL choose the order of equal times for each page. No loop of the
-- source needs fuel: the retry loop counts down its three rounds, and the others run over lists.
--
-- Not part of the repository, and so parameters: PostgreSQL's reading of a uuid, the rows that other
-- sessions lock, random uuids and secrets, the clock, JSON, HMAC, bcrypt, the signing of tokens, and
-- the replies of Redis, of the broker, of fraud-service, of a merchant's endpoint and of the mail
-- provider; whether a call of the gateway reaches a service; JavaScript's functions on floating-point
-- numbers, the formatters of dates and amounts, ILIKE, and the order in which rows are found; and, for the client, the order in which the
-- browser runs its handlers, and the statuses for which a promise of axios resolves.
--
-- Not modelled: log lines and message texts; the bootstrap of the services and the connection
-- handling of their clients; the other routes of api-gateway, which only proxy; floating-point
-- statistics (success rates, weekly changes, latencies, fraud averages);
-- admin-service, which only proxies; the HTML of the mails; what the React pages render, and the hooks
-- that only fetch; the scripts that write sample data.
pub mod Prelude
pub mod Errors
pub mod Action
pub mod Redis
pub mod Database
pub mod Kafka
pub mod Payment
pub mod Books
pub mod Keys
pub mod Export
pub mod Gateway
pub mod Notification
pub mod Fraud
pub mod Webhook
pub mod Account
pub mod Auth
pub mod Tests
pub mod Ui
