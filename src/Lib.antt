-- ===== src/Lib.antt =====
-- HotDrop: orders for limited food drops, carried out by an orchestrated saga over services that
-- each own a database and talk through a broker.
--
-- The parts. The order service (apps/order-service) keeps the orders and, for each, a saga row;
-- its orchestrator answers the replies of the participants with the next command, undoes what was
-- acquired when a step fails, and serves cancellations. The participants are the kitchen (portion
-- inventory, apps/kitchen-service), the payment service (apps/payment-service) and dispatch
-- (couriers, apps/dispatch-service). Every write of a message is a row in the writer's outbox, in
-- the transaction of the change that it announces; a relay (packages/messaging) publishes the
-- rows, and every reader records the ids of the messages that it has handled in its inbox. The
-- bodies and routing keys are shared (packages/contracts).
--
-- The files.
--   Base, Result: tests, lists as tables, errors and the transaction monad `Tx`.
--   Contracts: packages/contracts/src, statuses, commands, replies, events, keys and queues.
--   Prisma: the database client, a parameter `db` of the services, with its documented behaviour
--     `Documented` and a client `in_memory` that has it. A table is the list of its rows. The
--     order of listed rows is a parameter too (Ordering), sorting by insertion an instance of it.
--   Messaging: packages/messaging/src, a service's database `Store` (its tables, outbox and
--     inbox), the relay (Relay, Prefix), its store and runner in a service (Outbox,
--     Outbox/Drained), and the inbox guard (Inbox, Guard).
--   Order: apps/order-service. Orchestrator.antt is orchestrator.service.ts, function by function;
--     Orchestrator/Plan.antt is what it promises, a table from replies and order rows to plans;
--     Writes, Worked and Refinement relate the two; Live and Safety are about runs of many calls,
--     Journey and Forward about the run in which every step goes well, Races about a cancellation
--     during a step. Service.antt is
--     order.service.ts with its gRPC controller, Service/Placing.antt the placing and reading of
--     an order, Service/Listing.antt the list of a customer's orders; Http.antt is
--     order.controller.ts.
--   Participant: the method `consume` that the three participants share.
--   Kitchen: kitchen.service.ts (Service) and the sweep with reservation.sweeper.ts (Sweeper);
--     Inventory, Reserving, Commands and Sweeps give each handler's outcome, Swept the count of a
--     sweep, Totals a reservation against the sums of its lines, Accounts, Conservation, Kept and
--     Portions the inventory over any run, Races an acceptance after a release. Seed and Seed/Reset
--     are prisma/seed.ts.
--   Payment: payment.service.ts (Service), the outcome of its commands (Outcomes, Commands), its
--     payments over any run (Holds), and a refund before a capture (Unchecked).
--   Dispatch: dispatch.service.ts (Service), the offers (Offers), the outcomes (Assigning,
--     Commands), the deliveries and their events over any run (Announced).
--   The Consumer files of Order, Kitchen, Payment and Dispatch, over Participant/Delivery: the
--     handlers of the queues and the acknowledgement of a message. Kitchen/Query: the reading and
--     listing of drops.
--   Saga: the services joined by the rows of their outboxes. Saga/Answers and Saga/Reserving are
--     about the step from the placed order to the kitchen's answer. Saga/System is the four services
--     as one step relation, in which a row may be delivered late, again and in any order; Saga/Ties
--     is what all of them hold of one order: Tables and World say it, Plans, Orders, Kitchen,
--     Payments and Dispatch are about one service's transactions, Interleaving about all, Charges
--     about the payments. Saga/Completion is the run of an order that goes well: the order service's
--     transactions (Orders, Stages), the participants' (Participants), the deliveries (Run), all of
--     them (Completed).
--   Telemetry: packages/telemetry, the trace and the span in which a message is handled, for
--     the consumers of the saga's services (Rows, Commands, Traced). OpenTelemetry is a parameter
--     (`OpenTelemetry`), with what its propagator documents (`Propagates`).
--   Ratings: apps/ratings-service, ratings, their lists and support tickets (Once, Listing).
--   Notifications: apps/notifications-service, the line that each event leaves in the log.
--   Gateway: apps/gateway. Http: what a controller answers, the mapping of gRPC errors, the
--     caller. Grpc and Clients: src/clients, over the services' own controllers. Dto and Mappers:
--     src/contract/dto and mappers.ts, Dto/Validation the decorators of the accepted bodies and
--     Dto/Bounds what they ensure. Orders, Drops, Support: the controllers. Rating and Pricing:
--     the rating and the placing of an order over the services' databases. Tracking: src/tracking,
--     Filter: src/common/all-exceptions.filter.ts. The decoding of gRPC, class-validator and
--     socket.io are parameters (`Wire`, `ClassValidator`, `SocketServer`) with their documented
--     behaviour; what arrives for a number that is not an int32 is left open.
--   Examples files: each theorem with hypotheses, applied to concrete rows.
--
-- How the code is written down. An async method is a function from the database to its result and
-- the database after it; a $transaction is `Tx`, whose failure undoes its writes. Transactions of
-- one database are taken to happen one after another, so that interleavings are sequences of
-- calls. What a method reads of the world (the clock, fresh ids, the trace context, Math.random())
-- is an argument. Ids and times are numbers, and the empty string is 0 where the code tests an id
-- for it. Loops are over lists, so no fuel is used, and the three offers of a courier match are
-- counted down.
--
-- A file that several services hold with the same text (the outbox store and its runner, the
-- exceptions filter) is modelled once.
--
-- Not modelled: latencies, logging (but for the notifications), configuration, health
-- checks, bootstrap, the texts of HTTP errors, and the broker itself. The timers'
-- intervals are timing, and their rounds may come at any point. The database's integers are taken
-- without their 32-bit bound. A test of a unique column that two open transactions race for is the
-- database's, and appears as the error that the later one gets.
pub mod Base
pub mod Contracts
pub mod Result
pub mod Prisma
pub mod Messaging
pub mod Order
pub mod Participant
pub mod Kitchen
pub mod Payment
pub mod Dispatch
pub mod Saga
pub mod Telemetry
pub mod Ratings
pub mod Notifications
pub mod Gateway
pub mod Examples
