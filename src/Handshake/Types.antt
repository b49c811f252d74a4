-- ===== src/Handshake/Types.antt =====
-- `TLSHandshake` and `CertInfo` of parser/internal/models/session.go, and the state of the parser of
-- parser/internal/tlsparser/handshake.go. An instant is a number, 0 for the zero `time.Time`.
use secure_mail_scope_sih.Common.{ℕ, Bool, false, List, [], Text}

pub record TlsHandshake : Type 0 where
  pub client_hello_version : Text
  pub server_hello_version : Text
  pub negotiated_version : Text
  pub negotiated_cipher : Text
  pub negotiated_cipher_hex : ℕ
  pub cipher_suites_offered : List Text
  pub sni : Text
  pub has_forward_secrecy : Bool
  pub key_exchange : Text
  pub compression_method : ℕ
  pub supported_versions : List Text

-- `&models.TLSHandshake{}`
abbrev pub no_handshake : TlsHandshake
no_handshake = record {
  client_hello_version = [];
  server_hello_version = [];
  negotiated_version = [];
  negotiated_cipher = [];
  negotiated_cipher_hex = 0;
  cipher_suites_offered = [];
  sni = [];
  has_forward_secrecy = false;
  key_exchange = [];
  compression_method = 0;
  supported_versions = [];
}

pub record CertInfo : Type 0 where
  pub subject : Text
  pub issuer : Text
  pub serial_number : Text
  pub not_before : ℕ
  pub not_after : ℕ
  pub public_key_algorithm : Text
  pub public_key_bit_length : ℕ
  pub signature_algorithm : Text
  pub is_self_signed : Bool
  pub is_expired : Bool
  pub is_weak_key : Bool
  pub is_weak_signature : Bool
  pub dns_names : List Text
  pub version : ℕ

-- `ParseResult`
pub record ParseResult : Type 0 where
  pub handshake : TlsHandshake
  pub certificates : List CertInfo
  pub is_complete : Bool

-- `Parser`: what was read of the client's side and of the server's.
pub record Parser : Type 0 where
  pub client_result : ParseResult
  pub server_result : ParseResult

-- `NewParser`
unfoldable pub new_parser : Parser
new_parser = record {
  client_result = record { handshake = no_handshake; certificates = []; is_complete = false };
  server_result = record { handshake = no_handshake; certificates = []; is_complete = false };
}

-- The errors that the parse functions return, one for each message.
pub data ParseError : Type 0 where
  record_too_short : ℕ → ParseError
  record_truncated : ℕ → ℕ → ParseError
  handshake_too_short client_hello_too_short server_hello_too_short : ParseError
  certificate_too_short : ParseError
