-- ===== src/Lib.antt =====
-- Envelope, a self-hosted multi-tenant email platform, modelled part by part.
--
-- Mail from outside enters by the inbound SMTP session, which asks the directory for the
-- recipients' vhosts, the filter for a verdict, and writes the message to the store. Mail of a
-- vhost's own users enters by the submission session, which signs it, stages it in the store and
-- puts one job for each recipient into the queue. The deliverer takes due jobs from the queue,
-- tries the hosts of the recipient's domain, and completes, reschedules or bounces them. Each of the
-- three fires events, which the webhook dispatcher fans out to the subscriptions of the vhost
-- through a retry queue of its own.
--
-- The files, with the code that they model (paths under internal/):
--   Queue, Queue/Claims    queue/jobs.go, queue/memory.go: a backend is a map of jobs and a map of
--                          claims; Enqueue, Dequeue, Complete, Fail, Count and Empty are enqueue,
--                          dequeue, complete, fail, count and is_empty. webhook/memory_queue.go is
--                          the same text over another type of job, so Claims is generic.
--   Queue/Backoff          queue/backoff.go: FullJitter, with the rounding of float64 as a parameter.
--   Deliverer              deliverer: Config and withDefaults (Config), error classes (Classify),
--                          lookupMX, dial, sendToHost and send (Send), bounces (Bounce), the
--                          semaphores by domain as a step relation (Semaphore), attempt and handle
--                          (Handle), one turn of Run (Handle/Retries).
--   Filter                 filter: Pipeline.Evaluate, decide, Aligned, the wrappers of SPF, DKIM
--                          and DMARC.
--   Smtp/Inbound           platform/smtp/inbound.go: Mail, Rcpt, Data and Reset are mail, rcpt,
--                          receive and reset.
--   Smtp/Submission        platform/smtp/submission.go: Auth, Mail, Rcpt, Data and Reset are auth,
--                          mail, rcpt, submit and reset.
--   Webhook                webhook/event.go, store.go, delivery.go: the shared types.
--   Webhook/Memory         webhook/memory.go: subscriptions and delivery attempts.
--   Webhook/Dispatch       webhook/dispatcher.go, signer.go: Enqueue, Redrive, deliverOne and send
--                          are enqueue_event, redrive, deliver_one and send.
--   Retention              retention/retention.go: purgeVhost and Sweep; the fuel of sweep counts
--                          pages, and more fuel than vhosts is enough (Retention/Pages).
--   Api/Auth               api/auth.go: authenticate and the checks of access to accounts and vhosts.
--   InternalApi            internalapi/wire.go: the bodies and the codec. InternalApi/Server and
--                          InternalApi/Client are server.go and client.go, composed by a network that
--                          can lose a request or a reply.
--   Queue/Postgres         queue/postgres.go and webhook/postgres_queue.go: a table of rows, with the
--                          database's error as an argument. Queue/Contract is the contract of
--                          queue/backend.go on what a caller can tell of a queue.
--   RateLimit              ratelimit/tokenbucket.go; RateLimit/Postgres is ratelimit/postgres.go. A
--                          float64 of tokens is a number of units, so that sums are exact; the fuel of
--                          Allow is its three attempts. What a timestamptz keeps of an instant
--                          is a parameter, and transactions do not overlap but on a first row.
--   Imap                   platform/imap/session.go: Login, Select, Status, Unselect, Fetch and Store
--                          are login, select, status, unselect, fetch and store.
--   Storage/Maildir        storage/maildir/maildir.go: the flags in a file name; Storage/Maildir/Backend
--                          is Write, Read, List, UpdateFlags and Delete on a list of files.
--   Api/Tokens             apiauth/memory.go: CreateToken, Authenticate, ListTokens, ListTokensPage and
--                          RevokeToken are create_token, authenticate, list_tokens, list_tokens_page and
--                          revoke_token. Api/Tokens/Postgres is the same contract on the table of
--                          apiauth/postgres.go, with the database's error as an argument.
--   MailBuild              mailbuild/mailbuild.go: Build, its header, its bodies and attachments.
--   Storage, Directory     the contracts of storage/store.go and directory/directory.go, which the
--                          clients take as parameters, and ParseAddress.
--   Context                Go's errors as chains, results, and contexts with a correlation ID.
--   Prelude, Uuids, Samples: shared lemmas, fresh identifiers, and the data of the tests.
--
-- Stateful code passes its state: an operation takes the state and returns its result with the
-- state after. Where the Go code holds a mutex for a whole method, the method is one step. Failures
-- are values of Result or Option Error. Go's int is an unbounded integer: counts of attempts stay
-- far below 2 ^ 63, and durations are whole nanoseconds. A float64 is a number without rounding but
-- in FullJitter: spam scores are only compared. The printing of decimals has the number itself as its fuel. The clock,
-- UUIDs, random draws, and the answers of DNS, of peers and of endpoints are arguments, and so are
-- the errors of databases and of the operating system. DKIM, SPF, DMARC lookup, rspamd, HMAC, HTTP,
-- encoding/json, filepath.Join, go-imap, and Go's SMTP client are parameters.
--
-- Not modelled: log lines and metrics; the message store, the webhook subscriptions and the directory
-- on Postgres, which are SQL around the contracts modelled here; the migrations; Maildir's ListVhost,
-- which walks the tree; the services, the HTTP controllers, ACME, key management and the command,
-- which are translation and glue around libraries.
pub mod Prelude
pub mod Context
pub mod Uuids
pub mod Queue
pub mod Storage
pub mod Directory
pub mod Webhook
pub mod Deliverer
pub mod Samples
pub mod Filter
pub mod Smtp
pub mod Retention
pub mod Api
pub mod InternalApi
pub mod RateLimit
pub mod Imap
pub mod MailBuild
