-- ===== src/Handshake/Total.antt =====
-- The record parser of parser/internal/tlsparser/handshake.go returns: no slice is out of range, and
-- every loop ends.
use secure_mail_scope_sih.Common.{
  ℕ, ◌+◌, ◌-◌, ◌*◌, ◌≤◌, ◌<◌, ◌≡◌, List, [], arith, ltb, if◌then◌else◌, length, take, drop, Bytes,
  panics, byte_at,
}
use secure_mail_scope_sih.Handshake.Names.{
  tls_version_name, cipher_suite_name, has_forward_secrecy, key_exchange_type,
}
use native.Mathlib.Decide.{dec_le}
use secure_mail_scope_sih.Handshake.Types.{TlsHandshake, CertInfo, Parser}
use secure_mail_scope_sih.Handshake.Hello.{
  client_extension, parse_client_hello, server_extension, parse_server_hello, at_most,
  client_extensions, client_compression, client_suites, server_extensions, server_compression,
  server_suite,
}
use secure_mail_scope_sih.Handshake.Certificates.{parse_certificate_message}
use secure_mail_scope_sih.Handshake.Records.{
  record_end, client_hello, server_hello, certificate, dispatch, parse_handshake, process_record,
}
use secure_mail_scope_sih.Handshake.Loops.{
  Total, Total-bind, Total-returns, suites_loop-Total, certificates_loop-Total,
  client_extension-Total, server_extension-Total, at_most-le, hello_extensions-Total,
}

module _ (d : Bytes) (offset : ℕ) (hs : TlsHandshake) where
  client_extensions-Total : Total (client_extensions d offset hs)
  unfolding client_extensions
  client_extensions-Total = elim (dec_le (offset + 2) (length d)) [
    | no short ↦ ground arith
    | yes long ↦
        let n = offset + 2 + (256 * byte_at d offset + byte_at d (offset + 1)) in
        let (hs', e) =
          hello_extensions-Total client_extension client_extension-Total d offset n hs long in
        ground (arith, e)
  ]

  server_extensions-Total : Total (server_extensions d offset hs)
  unfolding server_extensions
  server_extensions-Total = elim (dec_le (offset + 2) (length d)) [
    | no short ↦ ground arith
    | yes long ↦
        let n = offset + 2 + (256 * byte_at d offset + byte_at d (offset + 1)) in
        let (hs', e) =
          hello_extensions-Total server_extension server_extension-Total d offset n hs long in
        ground (arith, e)
  ]

client_compression-Total :
    (d : Bytes) (offset : ℕ) (hs : TlsHandshake) → Total (client_compression d offset hs)
unfolding client_compression
client_compression-Total d offset hs =
    ground (arith, client_extensions-Total d (offset + 1 + byte_at d offset) hs)

client_suites-Total :
    (d : Bytes) (offset : ℕ) (hs : TlsHandshake) → Total (client_suites d offset hs)
unfolding client_suites
client_suites-Total d offset hs = elim (dec_le (offset + 2) (length d)) [
  | no short ↦ ground arith
  | yes long ↦
      let declared = 256 * byte_at d offset + byte_at d (offset + 1) in
      let len =
        if ltb (length d) (offset + 2 + declared) then length d - (offset + 2) else declared in
      let inside : offset + 2 + len ≤ length d = ground arith in
      let (suites, e) =
        Total-returns _
          (suites_loop-Total d (length d) (offset + 2) len 0 [] inside (omega arith)) in
      ground (
        arith,
        e,
        client_compression-Total d (offset + 2 + len)
            (record hs { cipher_suites_offered = suites }),
      )
]

parse_client_hello-Total : (d : Bytes) (hs : TlsHandshake) → Total (parse_client_hello d hs)
unfolding parse_client_hello
parse_client_hello-Total d hs =
    let version = tls_version_name (byte_at d 0) (byte_at d 1) in
    ground (
      arith,
      client_suites-Total d (34 + 1 + byte_at d 34) (record hs { client_hello_version = version }),
    )

server_compression-Total :
    (d : Bytes) (offset : ℕ) (hs : TlsHandshake) → Total (server_compression d offset hs)
unfolding server_compression
server_compression-Total d offset hs = ground (
  arith,
  server_extensions-Total d offset hs,
  server_extensions-Total d (offset + 1) (record hs { compression_method = byte_at d offset }),
)

server_suite-Total : (d : Bytes) (offset : ℕ) (hs : TlsHandshake) → Total (server_suite d offset hs)
unfolding server_suite
server_suite-Total d offset hs =
    let code = 256 * byte_at d offset + byte_at d (offset + 1) in
    let name = cipher_suite_name code in
    let hs' = record hs {
      negotiated_cipher = name;
      negotiated_cipher_hex = code;
      has_forward_secrecy = has_forward_secrecy name;
      key_exchange = key_exchange_type name;
    } in
    ground (arith, server_compression-Total d (offset + 2) hs')

parse_server_hello-Total : (d : Bytes) (hs : TlsHandshake) → Total (parse_server_hello d hs)
unfolding parse_server_hello
parse_server_hello-Total d hs =
    let version = tls_version_name (byte_at d 0) (byte_at d 1) in
    ground (
      arith,
      server_suite-Total d (34 + 1 + byte_at d 34) (record hs { server_hello_version = version }),
    )

parse_certificate_message-Total :
    (info : Bytes → CertInfo) (d : Bytes) (certs : List CertInfo)
    → Total (parse_certificate_message info d certs)
unfolding parse_certificate_message
parse_certificate_message-Total info d certs = elim (dec_le 3 (length d)) [
  | no short ↦ ground arith
  | yes long ↦
      let total_len = 65536 * byte_at d 0 + 256 * byte_at d (0 + 1) + byte_at d (0 + 2) in
      let bounded = at_most (length d - 3) total_len in
      let bound = at_most-le (length d - 3) total_len in
      let (certs', e) = Total-returns _ (
        certificates_loop-Total d info (length d) (3 + bounded) 3 certs (omega (arith, bound))
          (omega (arith, bound))) in
      ground (arith, e)
]

module _ (info : Bytes → CertInfo) (p : Parser) where
  client_hello-Total : (d : Bytes) → Total (client_hello p d)
  unfolding client_hello
  client_hello-Total d =
      Total-bind _ _ (parse_client_hello-Total d p.client_result.handshake) (λ r. tt)

  server_hello-Total : (d : Bytes) → Total (server_hello p d)
  unfolding server_hello
  server_hello-Total d =
      Total-bind _ _ (parse_server_hello-Total d p.server_result.handshake) (λ r. tt)

  certificate-Total : (d : Bytes) → Total (certificate info p d)
  unfolding certificate
  certificate-Total d =
      Total-bind _ _ (parse_certificate_message-Total info d p.server_result.certificates) (λ r. tt)

  dispatch-Total : (t : ℕ) (d : Bytes) → Total (dispatch info p t d)
  unfolding dispatch
  dispatch-Total t d =
      ground (arith, client_hello-Total d, server_hello-Total d, certificate-Total d)

  -- Every handshake message is parsed to its end, or to an error that is returned.
  pub parse_handshake-Total : (d : Bytes) → Total (parse_handshake info p d)
  unfolding parse_handshake
  parse_handshake-Total d =
      let declared = 65536 * byte_at d 1 + 256 * byte_at d (1 + 1) + byte_at d (1 + 2) in
      let len = if ltb (length d) (4 + declared) then length d - 4 else declared in
      ground (arith, dispatch-Total (byte_at d 0) (take (4 + len - 4) (drop 4 d)))

  -- A record whose length field is at most 65530 is processed without a panic.
  pub process_record-Total :
      (d : Bytes) → 256 * byte_at d 3 + byte_at d (3 + 1) ≤ 65530 → Total (process_record info p d)
  unfolding process_record
  process_record-Total d h =
      let len = record_end (256 * byte_at d 3 + byte_at d (3 + 1)) in
      ground (arith, parse_handshake-Total (take (len - 5) (drop 5 d)))

  -- A record of at least five bytes with a larger length field panics: the sum wraps.
  pub process_record_panics :
      (d : Bytes)
      → 5 ≤ length d
      → 65531 ≤ 256 * byte_at d 3 + byte_at d (3 + 1)
      → 256 * byte_at d 3 + byte_at d (3 + 1) < 65536
      → process_record info p d ≡ panics
  unfolding process_record
  process_record_panics d h lo hi = ground arith
