-- ===== src/Httpapi/Decode.antt =====
-- internal/httpapi/handler.go: `decodeAuditedBody`, `readBounded` and `encodingError`. A reader of
-- the compression libraries is what it yields in the end: all its bytes, or an error.
use llm_security_audit_gatew.Base.{
  ℕ, String, List, [], ◌∷◌, Option, none, some, Bool, true, false, ◌||◌, str_eq, ltb, length, take,
  ◌+◌, Bytes, if◌then◌else◌,
}
use llm_security_audit_gatew.Base.Result.{Result, ok, err}
pub mod Limits

pub data DecodeError : Type 0 where
  unsupported_encoding : DecodeError
  malformed_encoding : DecodeError
  decoded_body_too_large : DecodeError

-- What a reader yields: its bytes up to the end, or up to an error.
pub data Stream : Type 0 where
  whole : Bytes → Stream
  failing : Bytes → Stream

-- `gzip.NewReader` and `zlib.NewReader` fail on a bad header.
pub record Decoders : Type 0 where
  pub normal : String → String
  pub gzip : Bytes → Option Stream
  pub zlib : Bytes → Option Stream
  pub flate : Bytes → Stream
  pub brotli : Bytes → Stream

abbrev pub max_decoded_body_bytes : ℕ
max_decoded_body_bytes = 67108864

-- `io.ReadAll` of an `io.LimitReader`: an error behind the limit is never met.
abbrev pub read_all_limited : ℕ → Stream → Option Bytes
read_all_limited limit (whole bs) = some (take limit bs)
read_all_limited limit (failing bs) = if ltb (length bs) limit then none else some (take limit bs)

abbrev pub bounded : ℕ → Option Bytes → Result DecodeError Bytes
bounded limit none = err malformed_encoding
bounded limit (some decoded) =
    if ltb limit (length decoded) then err decoded_body_too_large else ok decoded

-- `readBounded`, with its limit as an argument.
unfoldable pub read_bounded : ℕ → Stream → Result DecodeError Bytes
read_bounded limit reader = bounded limit (read_all_limited (limit + 1) reader)

module _ (decoders : Decoders) (limit : ℕ) where
  open decoders use {normal, gzip, zlib, flate, brotli}

  abbrev pub from_gzip : Option Stream → Result DecodeError Bytes
  from_gzip none = err malformed_encoding
  from_gzip (some reader) = read_bounded limit reader

  abbrev pub from_zlib : Bytes → Option Stream → Result DecodeError Bytes
  from_zlib body none = read_bounded limit (flate body)
  from_zlib body (some reader) = read_bounded limit reader

  unfoldable pub decode_as : String → Bytes → Result DecodeError Bytes
  decode_as encoding body =
      if str_eq encoding "" || str_eq encoding "identity"
      then ok body
      else if str_eq encoding "gzip"
      then from_gzip (gzip body)
      else if str_eq encoding "deflate"
      then from_zlib body (zlib body)
      else if str_eq encoding "br" || str_eq encoding "brotli"
      then read_bounded limit (brotli body)
      else err unsupported_encoding

  -- `strings.ToLower(strings.TrimSpace(encoding))` is `normal`.
  unfoldable pub decode_audited_body : Bytes → String → Result DecodeError Bytes
  unfolding decode_as
  decode_audited_body body encoding = decode_as (normal encoding) body

abbrev pub encoding_error : DecodeError → ℕ × String
encoding_error unsupported_encoding = (415, "unsupported_content_encoding")
encoding_error decoded_body_too_large = (413, "request_too_large")
encoding_error malformed_encoding = (400, "invalid_content_encoding")
