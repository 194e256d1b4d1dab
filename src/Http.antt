-- ===== src/Http.antt =====
-- The HTTP front of the dispatch service, server/src/net/http: requests (`Http.Request`), the
-- incremental parser (`Http.Context`) and the handler of a read (`Http.Server`).
pub mod Request
pub mod Keys
pub mod Context
pub mod Lines
pub mod Rounds
pub mod Parse
pub mod Total
pub mod Response
pub mod Decimal
pub mod Answers
pub mod Server
pub mod Serving
