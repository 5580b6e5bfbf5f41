-- ===== src/Http.antt =====
-- src/goblin/http: keys, requests and responses of the HTTP front end.
pub mod Keys
pub mod Request
pub mod Response
pub mod Dispatch
