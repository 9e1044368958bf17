-- ===== src/View/Messages.antt =====
-- The message of a failed request, as web/src/components/UploadZone.tsx and ObjectBrowser.tsx choose it.
use pier_s3_gateway.Prelude.{none, some, ◌==◌, if◌then◌else◌, Text}
use pier_s3_gateway.Client.{Failure, axios, other, error_message}

pub data Message : Type 0 where
  forbidden : Message
  because : Text → Message

-- A response with the status 403 has a message of its own; else the server's text or the fallback.
unfoldable pub failure_message : Text → Failure → Message
failure_message fallback (axios (some response)) =
    if response.status == 403
    then forbidden
    else because (error_message (axios (some response)) fallback)
failure_message fallback (axios none) = because (error_message (axios none) fallback)
failure_message fallback other = because (error_message other fallback)
