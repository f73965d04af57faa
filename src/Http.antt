-- ===== src/Http.antt =====
-- HTTP: src/httplib/httplib.cc, src/httplib/util.cc and include/angel/httplib.h.
pub mod Uri
pub mod Integers
pub mod Status
pub mod Message
pub mod Response
pub mod Ranges
pub mod Validators
pub mod Request
pub mod Server
pub mod Client
pub mod Tests
