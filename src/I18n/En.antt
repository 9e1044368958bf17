-- ===== src/I18n/En.antt =====
-- The bundle of web/src/i18n/en.ts.
use pier_s3_gateway.Prelude.{[], ◌∷◌}
use pier_s3_gateway.I18n.{Bundle}

unfoldable pub bundle : Bundle
bundle =
    (
      "common",
      ("appName", "Pier S3")
          ∷ ("nativeName", "English")
          ∷ ("size", "Size")
          ∷ ("name", "Name")
          ∷ ("lastModified", "Last modified")
          ∷ ("actions", "Actions")
          ∷ ("cancel", "Cancel")
          ∷ ("delete", "Delete")
          ∷ ("download", "Download")
          ∷ ("info", "Info")
          ∷ ("retry", "Retry")
          ∷ ("loadMore", "Load more")
          ∷ ("search", "Search by name...")
          ∷ ("empty", "Nothing here yet")
          ∷ ("downloadFile", "Download {{name}}")
          ∷ ("moreActions", "More actions for {{name}}")
          ∷ ("openFolder", "Open folder {{name}}")
          ∷ ("showInfo", "Show info for {{name}}")
          ∷ ("objects", "{{count}} objects")
          ∷ ("objects_one", "{{count}} object")
          ∷ ("objects_other", "{{count}} objects")
          ∷ ("dash", "-")
          ∷ ("language", "Language")
          ∷ [],
    )
    ∷ (
      "nav",
      ("buckets", "Buckets")
          ∷ ("allBuckets", "All buckets")
          ∷ ("menu", "Open menu")
          ∷ ("resize", "Resize sidebar")
          ∷ [],
    )
    ∷ (
      "theme",
      ("label", "Theme") ∷ ("system", "System") ∷ ("light", "Light") ∷ ("dark", "Dark") ∷ [],
    )
    ∷ (
      "auth",
      ("title", "Pier S3")
          ∷ ("subtitle", "Sign in to access your storage.")
          ∷ ("signIn", "Sign in with Keycloak")
          ∷ ("logout", "Log out")
          ∷ [],
    )
    ∷ (
      "buckets",
      ("title", "Buckets")
          ∷ ("readWrite", "R/W")
          ∷ ("read", "R")
          ∷ ("writeOnly", "W")
          ∷ ("access", "Access")
          ∷ ("quotaUsage", "{{used}} of {{quota}} used")
          ∷ [],
    )
    ∷ (
      "browser",
      ("upload", "Upload")
          ∷ ("dropHint", "Drag files here or click to select")
          ∷ ("dropSubHint", "Your files will be uploaded to this folder")
          ∷ ("deleteTitle", "Delete confirmation")
          ∷ ("deleteConfirm", "Delete file \"{{name}}\"?")
          ∷ (
            "searchTruncated",
            "Search covers only loaded objects. Click \"Load more\" to expand the selection.",
          )
          ∷ ("emptyTitle", "This folder is empty")
          ∷ ("emptyHint", "Upload files to get started")
          ∷ ("writeOnlyTitle", "Upload-only bucket")
          ∷ (
            "writeOnlyHint",
            "You can upload files here, but listing and downloading are not permitted for your access level.",
          )
          ∷ [],
    )
    ∷ (
      "meta",
      ("title", "Object metadata")
          ∷ ("key", "Key")
          ∷ ("contentType", "Content-Type")
          ∷ ("size", "Size")
          ∷ ("etag", "ETag")
          ∷ ("lastModified", "Last modified")
          ∷ [],
    )
    ∷ (
      "preview",
      ("title", "Preview")
          ∷ ("open", "Preview {{name}}")
          ∷ ("unsupported", "Preview is not available for this file type")
          ∷ ("tooLarge", "This file is too large to preview")
          ∷ ("downloadToView", "Download to view it")
          ∷ ("failed", "Failed to load preview")
          ∷ ("modeRendered", "Rendered")
          ∷ ("modeSource", "Source")
          ∷ ("modeTable", "Table")
          ∷ ("modeFormatted", "Formatted")
          ∷ ("tableTruncated", "Large file: the table preview is truncated")
          ∷ [],
    )
    ∷ ("messages", ("uploaded", "{{name}} uploaded") ∷ ("deleted", "File deleted") ∷ [])
    ∷ (
      "errors",
      ("generic", "Error")
          ∷ ("loadBuckets", "Failed to load buckets")
          ∷ ("loadObjects", "Failed to load objects")
          ∷ ("loadMore", "Failed to load more")
          ∷ ("loadMeta", "Failed to load metadata")
          ∷ ("deleteFailed", "Failed to delete")
          ∷ ("downloadFailed", "Failed to download")
          ∷ ("uploadFailed", "Failed to upload {{name}}")
          ∷ ("forbidden", "You do not have permission for this operation")
          ∷ [],
    )
    ∷ []
