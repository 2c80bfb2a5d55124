-- ===== src/Gateway.antt =====
-- apps/gateway/src, the public edge over the kitchen, order and ratings services: its gRPC clients
-- (clients), the bodies it accepts and returns (contract/dto, contract/mappers.ts), its controllers
-- (contract), who is calling (auth) and the tracking of orders (tracking). The texts of errors are
-- not modelled, and times stay numbers.
pub mod Http
pub mod Grpc
pub mod Clients
pub mod Dto
pub mod Mappers
pub mod Orders
pub mod Drops
pub mod Support
pub mod Tracking
pub mod Filter
pub mod Rating
pub mod Pricing
mod Examples
