-- ===== src/Error.antt =====
-- aegis-rust/src/error.rs. The errors of `std::io` and `serde_json` are known by their texts.
use aegis_sdk.Prelude.{String, concat}

pub data AegisError : Type 0 where
  connection registration io json : String → AegisError
  timeout : AegisError

-- `Display`, from the `#[error]` attributes
unfoldable pub to_string : AegisError → String
to_string (connection m) = concat "connection error: " m
to_string (registration m) = concat "registration error: " m
to_string (io e) = concat "I/O error: " e
to_string (json e) = concat "JSON error: " e
to_string timeout = "read timeout"
