-- ===== src/Preview.antt =====
-- The file preview: web/src/components/previewKind.ts and FilePreview.tsx.
pub mod Body
pub mod Kind
pub mod Lifecycle
pub mod Table
pub mod Window
