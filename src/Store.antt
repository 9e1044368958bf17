-- ===== src/Store.antt =====
-- web/src/store: the listing of a bucket and the list of buckets.
pub mod Browser
pub mod Buckets
