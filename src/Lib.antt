-- ===== src/Lib.antt =====
-- TradeTrack API: the synchronization of trades from MetaApi, TradeLocker and cTrader into the
-- database of a trading journal, and the ingestion of historical candles.
--
-- The program's parts and the files that model them (paths from the repository's root):
--
-- Trades (src/trades/metrics.ts): rounding, outcome, profit percentage and R-multiple. JavaScript
-- numbers are the parameter JsNumber (Number), whose operations are the ones that the program calls;
-- Number/Fixed is one concrete choice, used to evaluate the definitions.
--
-- Store (prisma/schema.prisma, model Trade): the rows and the unique key (user, terminal, id). The
-- database is the parameter TradeTable: find_unique, upsert and update_many, with what Prisma
-- documents of each as laws. Store/Memory is one concrete choice. Store/Settle holds what the three
-- writers share about closes that are repeated or followed by other writes. Store/Chains is their serialize:
-- the calls made with a key, each a read and a write of their own, and the entry that the map has.
--
-- Metaapi: Writer is src/metaapi/trade-writer.service.ts (writePosition is write_position,
-- writeUnrealized is write_unrealized); Aggregator is src/metaapi/deal-aggregator.ts
-- (aggregateDeals is aggregate_deals) and the run and watermark of src/metaapi/backfill.service.ts;
-- Listener is src/metaapi/sync-listener.ts, each callback a step of handle on the listener's state
-- and the table; Client is src/metaapi/client.ts. The aggregator's positions go into the writer, from the backfill and the listener. Manager is
-- src/metaapi/connection-manager.service.ts and src/metaapi/constants.ts: Accounts has the rows and
-- loadAccounts, Cloud the SDK as the parameter MetaApi with findByName and destroyCloudAccount, World the
-- state, Failure teardown and handleFailure, Ensure ensureAccount, Open open (open_account), Reconcile
-- reconcile, bootstrap and shutdown. The accounts' table is the parameter AccountTable; Memory is a
-- concrete choice of both. Where open awaits a call, an argument says what the rest of the service does
-- before the call takes effect and after.
--
-- Tradelocker: Writer is src/tradelocker/trade-writer.service.ts (writeOpen, writeClosed,
-- writeUnrealized); History is src/tradelocker/history.ts (fetchClosedTrades is fetch_closed_trades), with
-- the server and the row schema as parameters. Client is src/tradelocker/client.ts from the parsed replies
-- on; Connection is src/tradelocker/connection.ts and src/tradelocker/stream.schema.ts. Manager is
-- src/tradelocker/connection-manager.service.ts: Accounts has loadAccounts and matchToken, Rest the pacer and
-- userAuth, Sessions connect, scheduleReconnect, handleLost and reconcile, Stream handlePosition and
-- handleAccountStatus, Closes finalizeClose with its callers topUpClose, retryPendingCloses and
-- backfillCloses. Sessions, Stream and Closes each have the part of the manager's state that they use, and a
-- type of events for what reaches it and for the ends of its awaits.
--
-- Ctrader: Types is src/ctrader/types.ts; Writer is src/ctrader/ctrader-trade-writer.ts (record is
-- record_event, applyClose is apply_close, writeBackfill is write_backfill); Deals and Backfill
-- are src/ctrader/backfill.service.ts, from the replies of the connection to the writes of run. Pool is
-- src/ctrader/ctrader-connection-manager.ts: the sessions and their reconnects in Pool, the accounts
-- (loadAccounts, dedupeByCtid, computeSignature) in Pool/Accounts, applyReconcile and reconcile in
-- Pool/Reconcile; Pool/Events gathers what reaches the manager into one type of events.
--
-- Candles: Calendar and Buckets are src/candles/buckets.ts; Aggregate is src/candles/aggregate.ts;
-- Bi5 is src/candles/bi5.ts with the LZMA decoder as a parameter; Archive is
-- src/candles/archive-client.service.ts and src/candles/constants.ts with the object store as a
-- parameter; Ingest and Worker are src/candles/ingest-worker.service.ts and
-- src/candles/chunk-writer.service.ts. The queue is the parameter JobTable (Jobs); Jobs/Memory is
-- one concrete choice. Worker/Drain is drain, the pass over the queue, and Lanes is
-- mapWithConcurrency as a step relation on its lanes.
--
-- Tests applies the theorems to concrete inputs.
--
-- Times are natural numbers of milliseconds from 1970 on; a difference of two times stops at 0, and a
-- definition where that matters says so. The present time is an argument of each operation.
--
-- Bounds and fuel: decode_from runs on the number of bytes plus one, which is more than the number of
-- 24-byte records of a file; days_from runs on the number of days from 1970 to the end of the span plus
-- one, which is more than the number of midnights in the span; walk runs on the number of pages that the source allows;
-- drain_on runs on the number of rows plus one, since every batch claims a row that the pass has not
-- claimed before.
--
-- Not modelled: callbacks that interleave at their awaits, but for open of the MetaApi manager, the calls of
-- a chain, and the closes of the TradeLocker manager; the interleaving of the
-- jobs of a batch, and of the days of a span but for the order of their results; rejections inside
-- mapWithConcurrency; the firing of the retry timers of the MetaApi manager; the authentication of the
-- accounts inside connectEnv of the cTrader manager, and its start; the start of the TradeLocker manager and
-- the sharing of its stream logins; the timers that race with the opening of a TradeLocker socket and with
-- its ack; the connection and the HTTP calls of cTrader; the envelopes of the TradeLocker report;
-- configuration, encryption, health checks and the wiring of the application.
pub mod Prelude
pub mod Number
pub mod Trades
pub mod Store
pub mod Metaapi
pub mod Tradelocker
pub mod Ctrader
pub mod Candles
pub mod Tests
