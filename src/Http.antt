-- ===== src/Http.antt =====
-- mymuduo/http: requests, responses and the server over a connection.
pub mod Headers
pub mod Request
pub mod Context
pub mod Response
pub mod Server
pub mod Session
pub mod Samples
mod Tests
mod PieceTests
mod SetupTests
mod SessionTests
mod EventTests
mod ConversationTests
