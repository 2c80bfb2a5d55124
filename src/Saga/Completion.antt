-- ===== src/Saga/Completion.antt =====
-- An order that goes well, over the four services.
pub mod Orders
pub mod Participants
pub mod Run
pub mod Stages
pub mod Completed
pub mod Examples
