-- ===== src/Lib.antt =====
-- Cloudmini Reseller: models of its Go services and packages, and what is proved of them.
--
-- The program sells proxies and virtual servers. Each service owns a schema of one PostgreSQL
-- database: billing-service keeps the wallets, proxy-service and vps-service keep orders and pay
-- for them by requests to billing-service, and call the providers that run what is sold.
--
-- The parts and their files:
--   Common: Boolean tests and lists over the native numbers, tables (first row, UPDATE), signed
--     integers, and the operations that may fail (Common.Action).
--   Breaker: pkg/circuitbreaker/circuitbreaker.go. The mutex makes beforeRequest and afterRequest
--     atomic, so an interleaving is a sequence of these two (Limits); Execute is both, with the
--     protected call between them (Sequence). Time is a number that callers pass.
--   Billing: services/billing-service. Entity and Action hold the rows and what a use case runs on,
--     Repo the repositories of repository/postgres/billing_repo.go with the CHECK constraints of
--     migrations/000003_create_billing_schema.sql, Wallet the operations of
--     usecase/wallet_usecase.go, Pricing and Payments the two halves of usecase/pricing_usecase.go.
--   Proxy: services/proxy-service. Entity and World as above, Repo the order queries of
--     repository/postgres/proxy_repo.go, Orders the saga of CreateOrder, Lifecycle the other methods
--     of usecase/order_usecase.go with lock_usecase.go and webhook_usecase.go, Expiry the jobs of
--     expiry_usecase.go. The requests that an order sends to billing-service are a log;
--     Lifecycle/Refund carries such a log out on the wallet operations of Billing.
--   Vps: services/vps-service. Entity, World and Repo as above, Provision the two phases of
--     usecase/provision_usecase.go, Instances the operations of usecase/instance_usecase.go and its
--     hourly meter, Histories what all of these do together, each run to its end before the next.
--   Users: services/user-service. Entity, World and Repo as above, Auth the sessions of
--     usecase/auth_usecase.go, Profile the operations of usecase/user_usecase.go.
--   Resellers: services/reseller-service. Entity, World and Repo as above, Accounts and Keys the two
--     parts of usecase/reseller_usecase.go, Webhooks usecase/webhook_usecase.go.
--   Web: what the handlers of all services share: Auth and RequireRole of
--     pkg/middleware/middleware.go with the answers of pkg/apierror/apierror.go (Guards says what
--     they establish), the decoding of bodies (Json), and pkg/pagination/pagination.go (Pages).
--   Billing/Http, Proxy/Http, Vps/Http, Users/Http, Resellers/Http: of each service its
--     internal/handler/http/handler.go. An endpoint is a constructor with the texts of its path and
--     query; a request is an endpoint with its Authorization header and its body; `serve` is
--     NewRouter, that is the guard of the endpoint before its handler. Billing/Http/Client is the
--     client of billing-service, services/proxy-service/internal/usecase/billing_client.go.
--   Logs: services/log-service/cmd/server/main.go, the entries made of events, the subscribers
--     (Hub) and the query (Queries).
--   Retry: pkg/retry/retry.go. Do is a recursion over the attempts that are left, as many as the
--     configuration allows.
--   Pool: ListNodes and SelectBestNode of infrastructure/proxmox/pool/pool.go.
--
-- How code becomes a definition: an operation takes its surroundings (`Env`) and a world, and gives
-- a result or an error with the world it leaves, so what was done before an error stays done. Every
-- statement to the database and every request to another service has a number, and `Env.fails`
-- says which of them fail; a theorem without a hypothesis on it holds whatever fails. The other
-- fields of `Env` are what the program asks from outside: UUIDs, clocks, random draws, providers'
-- answers, encryption. Rounding of decimals is a record of operations and laws that Pricing
-- takes as a parameter (Pricing/Decimal).
--
-- Bounds: a decimal is an integer in the smallest unit of its column, ten-thousandths or for the
-- rates of servers millionths, without the upper limit of the column. Counters of the breaker and
-- ids are natural numbers, quantities and sizes are signed integers without wrap-around. A time is a
-- number of seconds or of the breaker's ticks, in UTC, a delay of the retries one of nanoseconds.
-- The page parameters of a query are ints of 64 bits; the offset made of them and the sum of NewMeta
-- wrap around.
-- Loops run over lists; waitForIP polls as often as a field of the surroundings says, the retries
-- and the delivery of webhooks recur on the attempts that are left, so no fuel is chosen.
--
-- Not modelled: the frontend, the matching of paths by chi, logging, metrics, configuration, the
-- message bus behind the publishers, the rate limiter, the gateway, the notification service, the
-- HTTP clients of the providers and of Proxmox, and of the handlers of proxy-service those that ask
-- a provider for its groups and options, and the webhook of proxy-cheap.
-- The verification of tokens and the parsing of UUIDs, decimals and times are what the libraries
-- answer (Web.Libraries).
-- Row locks that last beyond their statement do not occur in the modelled code, and columns that no
-- modelled operation reads are left out.
mod Common
pub mod Breaker
pub mod Billing
pub mod Proxy
pub mod Vps
pub mod Users
pub mod Resellers
pub mod Retry
pub mod Pool
pub mod Web
pub mod Logs
