-- ===== src/Lib.antt =====
-- TriAD-Backend: the core of a shop's back end in TypeScript: orders, their events, and accounts.
--
-- The program is an Express server over PostgreSQL (Prisma). A request of a customer reaches a
-- service; the service works on domain aggregates (`Order`, `Cart`), on value objects, and, inside a
-- transaction, on tables; the aggregates raise domain events, which the transaction stores in an
-- outbox next to the rows that they are about. Relays take the events from the outbox to the handlers
-- of an event bus, some of which write projections. Requests are authenticated by tokens.
--
-- The parts and their files:
-- * Base (with Base/Tests, Base/Lists, Base/Int): names of the libraries, tests on numbers,
--   signed integers.
-- * Shared (src/shared): Shared/Errors has the errors of domain-error.ts and application-error.ts and
--   the result of a call that may throw; Shared/Number has JavaScript numbers as callers pass
--   them; Shared/Money is value-objects/money.ts; Shared/Text and Shared/ValueObjects are email.ts,
--   address.ts, order-number.ts and phone-number.ts, texts being lists of character codes;
--   Shared/Events and Shared/Aggregate are domain/events and domain/aggregate-root.ts.
-- * Orders (src/modules/orders/domain/order.entity.ts): Orders/Order has the order, its items and
--   its money, Orders/Lifecycle has `place`, the status machine and `hydrate`. A method is a
--   function from the order to a result with the order afterwards; each method throws before its
--   first assignment, so an error leaves the order as it was.
-- * Cart (src/modules/cart/domain/cart.entity.ts): the cart in the same way, its map as a list of
--   items in insertion order.
-- * Checkout (src/modules/checkout): Checkout/Db has the tables as lists of rows and the
--   transaction as a computation that passes them on (infrastructure/prisma-checkout-unit-of-work.ts),
--   Checkout/Stock is services/stock-reservation.service.ts, Checkout/Pricing is
--   services/pricing.service.ts, Checkout/Save stores an order and commits or rolls back,
--   Checkout/Service is checkout.service.ts. `checkout` reserves stock, builds, prices and places
--   an order and stores it with its events, in one transaction, retried on conflicts.
-- * Users (src/modules/users/domain/user.entity.ts): the account in the same way.
-- * Products (src/modules/products/domain/product.entity.ts): the product in the same way.
-- * Sagas (src/shared/application/saga/saga-state.ts): `executeSagaStep`, on any world that its
--   operation changes. An operation that the timer cuts off has its effect before the next attempt.
--   Sagas/Cancellation is src/modules/orders/application/cancellation-refund.saga.ts, its ports and
--   its store answering as they like.
--   Sagas/Checkout is src/modules/checkout/application/checkout.saga.ts: its block of steps, its
--   compensations, and the state that it stores after each step, in the same way.
-- * Outbox (src/core/outbox, src/shared/domain/event-bus): Outbox/Bus is event-bus.ts with
--   outbox-handler-tracker.ts; Outbox/Schema is outbox-event-schema.ts with
--   persist-domain-events.ts, over the JSON values of Outbox/Json; Outbox/Table is
--   prisma-outbox-relay.store.ts, the requests of all relays to the table of rows being a list of
--   actions; Outbox/Relay is outbox-relay.ts, one
--   relay whose polls claim rows, publish them on the bus and settle them, while the requests of
--   other relays and its own heartbeat come in between; Outbox/Maintenance is
--   outbox-maintenance.service.ts, less its cleanup of published rows; Outbox/Projections is
--   the writer of order histories in projection-writer.ts.
-- * Auth (src/modules/auth): Auth/Claims and Auth/TokenService are services/token.service.ts,
--   Auth/RefreshTokens is the table of refresh tokens in
--   infrastructure/repositories/prisma-auth.repository.ts. An operation is a function from the
--   tables and the store of keys to a result with both afterwards. Auth/TwoFactor is
--   services/two-factor.service.ts on top of them.
--
-- Bounds and fuel: natural numbers are unbounded, and where the source asks for safe integers the
-- test against 2^53 - 1 is written out. The only loops that are not over a list are the retries of a
-- checkout, by the five that `MAX_RETRIES` allows, the attempts of a saga's step, by the
-- `maxAttempts` of its policy, and those of the relay to publish an event, by its two retries; all are
-- the source's own bounds, and there is no other fuel.
--
-- What stands outside: PostgreSQL's unique indexes and its atomic commit are modelled as documented,
-- a serialization failure is an input of an attempt, and what other requests commit between two
-- attempts is an arbitrary function of the tables. Floating-point arithmetic
-- (`Checkout.Pricing.Doubles`), Unicode's case mappings (`Shared.Text.Unicode`) and the texts of
-- dates (`Outbox.Json.Dates`) are parameters, and so are the packages for retries, web tokens,
-- digests and one-time passwords (`Outbox.Relay.Environment`, `Auth.TokenService.Environment`,
-- `Auth.TwoFactor.Totp`). A stored JSON value is the value that JSON keeps of what was written, without
-- the order of its keys. Redis keeps a key until its time to live has run out. Times, identifiers and
-- order numbers are inputs; spans, counters, logs and delays are left out.
pub mod Base
pub mod Shared
pub mod Orders
pub mod Cart
pub mod Products
pub mod Checkout
pub mod Sagas
pub mod Users
pub mod Auth
pub mod Outbox
