-- ===== src/Server.antt =====
-- nn_fuzz/src/connector/server.rs: the service that a neural network connects to.
pub mod Frame
pub mod Service
pub mod Bridge
pub mod Task
