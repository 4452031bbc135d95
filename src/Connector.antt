-- ===== src/Connector.antt =====
-- nn_connector: the client of the neural network's side.
pub mod Error
pub mod Frame
pub mod Events
pub mod Connect
pub mod Python
