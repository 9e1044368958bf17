-- ===== src/Server/Replies.antt =====
-- `writeJSON` and `writeError` of internal/webui/auth.go: what a handler answers.
use pier_s3_gateway.Prelude.{ℕ, Text}

pub record ErrorReply : Type 0 where
  pub status : ℕ
  pub code : Text
  pub message : Text

pub data Reply {ℓ} (A : Type ℓ) : Type ℓ where
  ok : A → Reply A
  fail : ErrorReply → Reply A

abbrev pub error : {A : Type 0} → ℕ → Text → Text → Reply A
error status code message = fail (record { status = status; code = code; message = message })
