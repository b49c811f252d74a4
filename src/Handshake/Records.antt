-- ===== src/Handshake/Records.antt =====
-- `ProcessRecord`, `parseHandshake` and `GetResult` of parser/internal/tlsparser/handshake.go.
use secure_mail_scope_sih.Common.{
  ℕ, ◌+◌, ◌-◌, ◌%◌, not, ◌&&◌, ◌||◌, Option, none, some, List, ltb, ◌==◌, if◌then◌else◌, length,
  is_empty, Bytes, Go, returns, ◌>>=◌, index, slice, uint16_at, uint24_at,
}
use secure_mail_scope_sih.Handshake.Types.{
  TlsHandshake, CertInfo, Parser, ParseError, record_too_short, record_truncated,
  handshake_too_short,
}
use secure_mail_scope_sih.Handshake.Hello.{parse_client_hello, parse_server_hello}
use secure_mail_scope_sih.Handshake.Certificates.{parse_certificate_message}

abbrev pub content_type_handshake : ℕ
content_type_handshake = 22

abbrev handshake_type_client_hello : ℕ
handshake_type_client_hello = 1

abbrev handshake_type_server_hello : ℕ
handshake_type_server_hello = 2

abbrev handshake_type_certificate : ℕ
handshake_type_certificate = 11

-- The parser after a call, and the error that the call returned.
abbrev pub Processed : Type 0
Processed = Parser × Option ParseError

unfoldable pub client_hello : Parser → Bytes → Go Processed
client_hello p hs_data = do
  (hs, err) ← parse_client_hello hs_data p.client_result.handshake
  returns (record p { client_result = record (p.client_result) { handshake = hs } }, err)

unfoldable pub server_hello : Parser → Bytes → Go Processed
server_hello p hs_data = do
  (hs, complete, err) ← parse_server_hello hs_data p.server_result.handshake
  let complete' = p.server_result.is_complete || complete
  let result = record (p.server_result) { handshake = hs; is_complete = complete' }
  returns (record p { server_result = result }, err)

unfoldable pub certificate : (Bytes → CertInfo) → Parser → Bytes → Go Processed
certificate info p hs_data = do
  (certs, err) ← parse_certificate_message info hs_data p.server_result.certificates
  returns (record p { server_result = record (p.server_result) { certificates = certs } }, err)

-- The `switch hsType` of `parseHandshake`.
unfoldable pub dispatch : (Bytes → CertInfo) → Parser → ℕ → Bytes → Go Processed
dispatch info p hs_type hs_data =
    if hs_type == handshake_type_client_hello
    then client_hello p hs_data
    else if hs_type == handshake_type_server_hello
    then server_hello p hs_data
    else if hs_type == handshake_type_certificate
    then certificate info p hs_data
    else returns (p, none)

-- `parseHandshake`: only the first message of the record is read.
unfoldable pub parse_handshake : (Bytes → CertInfo) → Parser → Bytes → Go Processed
parse_handshake info p d = if ltb (length d) 4 then returns (p, some handshake_too_short) else do
  hs_type ← index d 0
  declared ← uint24_at d 1
  let hs_len = if ltb (length d) (4 + declared) then length d - 4 else declared
  hs_data ← slice d 4 (4 + hs_len)
  dispatch info p hs_type hs_data

-- `5 + recordLen`, a uint16 sum
abbrev pub record_end : ℕ → ℕ
record_end record_len = (5 + record_len) % 65536

-- `ProcessRecord`, which does not use its flag `isServer` but to pass it on.
unfoldable pub process_record : (Bytes → CertInfo) → Parser → Bytes → Go Processed
process_record info p d =
    if ltb (length d) 5 then returns (p, some (record_too_short (length d))) else do
      content_type ← index d 0
      record_len ← uint16_at d 3
      if ltb (length d) (record_end record_len)
          then returns (p, some (record_truncated (record_end record_len) (length d)))
          else do
            payload ← slice d 5 (record_end record_len)
            if content_type == content_type_handshake
                then parse_handshake info p payload
                else returns (p, none)

-- `GetResult`
unfoldable pub get_result : Parser → TlsHandshake × List CertInfo
get_result p =
    let client = p.client_result.handshake in
    let server = p.server_result.handshake in
    let version =
      if is_empty server.negotiated_version && not (is_empty server.server_hello_version)
      then server.server_hello_version
      else server.negotiated_version in
    (
      record {
        client_hello_version = client.client_hello_version;
        server_hello_version = server.server_hello_version;
        negotiated_version = version;
        negotiated_cipher = server.negotiated_cipher;
        negotiated_cipher_hex = server.negotiated_cipher_hex;
        cipher_suites_offered = client.cipher_suites_offered;
        sni = client.sni;
        has_forward_secrecy = server.has_forward_secrecy;
        key_exchange = server.key_exchange;
        compression_method = server.compression_method;
        supported_versions = client.supported_versions;
      },
      p.server_result.certificates,
    )
