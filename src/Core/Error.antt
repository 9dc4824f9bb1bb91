-- ===== src/Core/Error.antt =====
-- silent/src/error/mod.rs. An error of another crate is carried as the text that it displays.
use silent.Prelude.{ℕ, ◌++◌}
use silent.Text.{Text, text}

pub data SilentError : Type 0 where
  io_error serde_json_error serde_de_error hyper_error file_empty : Text → SilentError
  body_empty json_empty content_type_error content_type_missing_error : SilentError
  params_empty params_not_found config_not_found : SilentError
  ws_error anyhow_error : Text → SilentError
  business_error : ℕ → Text → SilentError
  not_found : SilentError

pub data Result {ℓ} (A : Type ℓ) : Type ℓ where
  ok : A → Result A
  err : SilentError → Result A

infixl 5 ◌>>=◌
abbrev pub ◌>>=◌ {ℓ κ} : {A : Type ℓ} {B : Type κ} → Result A → (A → Result B) → Result B
ok a >>= f = f a
err e >>= f = err e

-- `status`
unfoldable pub status : SilentError → ℕ
status (business_error code msg) = code
status (serde_de_error e) = 422
status (serde_json_error e) = 422
status not_found = 404
status content_type_error = 400
status body_empty = 400
status json_empty = 400
status _ = 500

-- `message`: for an error that has no text of its own, what its `#[error(…)]` line displays.
unfoldable pub message : SilentError → Text
message (business_error code msg) = msg
message (serde_de_error e) = e
message (serde_json_error e) = e
message (io_error e) = text "io error"
message (hyper_error e) = text "the data for key `" ++ (e ++ text "` is not available")
message (file_empty e) = text "upload file read error `" ++ (e ++ text "`")
message body_empty = text "body is empty"
message json_empty = text "json is empty"
message content_type_error = text "content-type is error"
message content_type_missing_error = text "content-type is missing"
message params_empty = text "params is empty"
message params_not_found = text "params not found"
message config_not_found = text "config not found"
message (ws_error e) = text "websocket error: " ++ e
message (anyhow_error e) = e
message not_found = text "not found"
