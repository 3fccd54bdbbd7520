-- ===== src/Controller.antt =====
-- packages/controller: the control service.
pub mod Modes
pub mod Edge
pub mod Droop
pub mod DataConnector
pub mod Runtime
pub mod Loop
pub mod Build
pub mod ConfigClient
pub mod HttpApi
