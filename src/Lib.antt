-- ===== src/Lib.antt =====
-- NovaPay, a payment platform: merchants place orders, payment providers report on them, the ledger
-- books what is paid and refunded, and the merchants are told by callbacks. This library models the
-- services under lib/ that carry this, as functions on a shared database state, and the payouts and the
-- review of the plugin registry under apps/registry.
--
-- The parts, and where they stand:
-- Base: lists as tables (Rows), JSON values, texts, sorting, and the integers with their laws.
-- Store: the rows of prisma/schema.prisma (Schema); the database and what is asked of the
--   surroundings (World); calls that read and write it, and return or throw (Monad); what one update
--   does (Frame); what holds at the end of a call (Ends); sample data (Sample).
-- Orders: lib/orders/status.ts is Status; of lib/orders/service.ts, applyPaymentNotification is
--   Notify with the check of the amount in Notify.Amount, the lookups and syncPaymentOrderFromProvider
--   are Provider, expirePaymentOrderIfNeeded and closeExpiredPaymentOrders are Expiry, and
--   closeMerchantPaymentOrder is Close, and allocateCtfPayableAmount is Slots. createPaymentOrder is
--   Create, with the rows that it writes in Create.Record and what a provider quotes in Create.Quote.
--   Paid is about all that changes an order.
-- Merchants: lib/merchant-profile-completion.ts is Profile, with the two checks of a merchant in
--   createPaymentOrder.
-- Callbacks: lib/callbacks/service.ts, in the order of its functions: Config, Claim, Plan (the request
--   to send), Dispatch and Worker.
-- EasyPay: lib/easypay/order-marker.ts is Marker, lib/easypay/notify.ts is Notify, lib/easypay/sign.ts
--   is Sign, without the building of the signed URL.
-- Finance: lib/finance/calculations.ts is Calculations.Fees, Digest and Balances;
--   lib/finance/ledger.ts is Ledger, with Prisma's upsert in Ledger.Upsert.
-- Refunds: lib/refunds/status.ts is Status; of lib/refunds/service.ts, the reserved sum and the
--   reserving transaction are Amount, applyPaymentRefundNotificationById is Notify, the rest is Service.
-- Idempotency: lib/idempotency/service.ts; Begin is the loop that starts a command, Finish records its
--   end.
-- Permissions: lib/rbac.ts.
-- Payments: lib/payments/channel-codes.ts is ChannelCodes; of lib/payments/provider-accounts.ts,
--   selectProviderAccountForOrder is Routes.
-- CtfBills: of lib/ctf-bill-capture/service.ts, findMatchingPaymentOrder and matchCtfBillCaptureEvent are
--   Match, ingestCtfBillCaptureEvent with its fingerprint is Ingest, runDueCtfBillCaptureMatches is
--   Worker; the table of the bills stands beside the database.
-- Registry: apps/registry/lib/payouts/balance-ledger.ts is Payouts, with its in-memory ledger in
--   Payouts.Memory and the one on Prisma in Payouts.Stored; apps/registry/lib/review/state-machine.ts is
--   Review, with the states that apps/registry/lib/runtime/state.ts registers a version in.
-- Names are the source's, in snake case; a long function is cut into one definition for each stretch
-- of it, from one early return to the next.
--
-- How the parts meet: Orders.Notify dispatches callbacks and posts to the ledger; Expiry, Close and
-- Provider come to it with what a provider answered, CtfBills.Match with a captured bill;
-- Refunds.Notify posts to the ledger. Orders.Create asks Payments.Routes for the account and Orders.Slots
-- for the amount.
--
-- The model:
-- A service call runs alone from its start to its end, a throw keeping what was written before it.
--   Claims of callbacks are single `updateMany` statements, and a theorem speaks of sequences of them.
--   In Idempotency.Begin other requests may change the table before and after the write of each round.
-- The clock, the providers, the HTTP client, secrets, the settings and the printing of numbers and
--   dates are fields of Store.World.Env. Each question gets the tick at which it is asked, so that two
--   answers may differ. A provider may answer or fail in any way, and
--   a secret may fail to decrypt.
-- Amounts are exact: cents in columns Decimal(18, 2), millionths in Decimal(24, 6) and in what a
--   provider reports, ten-thousandths for rates. The source computes them as doubles, and its rounding
--   to cents is that of exact halves.
-- An external key of the ledger is data with the kind of the key and the id, in place of the text
--   made of them. Identifiers are texts.
-- An update of a missing row throws, as Prisma's does; the rows that foreign keys guarantee are
--   hypotheses where a theorem needs them. A create whose foreign key is to no row throws in the stored
--   ledger of the payouts.
-- The functions are structural, without fuel, but for the loop of Idempotency.Begin, which makes one
--   round for each element of a list; two are enough where no row of the key is deleted between them, and
--   no service deletes one.
--
-- Not modelled: settlements, the parsing of CTF bills, the merchants' roles and signed requests, the rest
-- of the EasyPay interface, sessions and secrets, the marketplace, the plugins of the providers, the
-- rest of the registry, the routes and the pages.
pub mod Base
pub mod Store
pub mod Orders
pub mod Refunds
pub mod Finance
pub mod Payments
pub mod Merchants
pub mod EasyPay
pub mod Callbacks
pub mod Idempotency
pub mod Permissions
pub mod CtfBills
pub mod Registry
mod Tests
