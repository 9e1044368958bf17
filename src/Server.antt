-- ===== src/Server.antt =====
-- The gateway that the web client calls: internal. A Go string is the list of its bytes.
pub mod Acl
pub mod Content
pub mod Listing
pub mod Objects
pub mod Proxy
pub mod RateLimit
pub mod Replies
pub mod Session
pub mod Stats
pub mod Strings
pub mod Utf8
