-- ===== src/View.antt =====
-- What the components under web/src/components compute for display.
pub mod Bytes
pub mod Cards
pub mod Crumbs
pub mod Downloads
pub mod Messages
pub mod Meta
pub mod Objects
pub mod Pages
pub mod Rows
pub mod Shell
pub mod Sider
pub mod Uploads
