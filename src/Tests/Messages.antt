-- ===== src/Tests/Messages.antt =====
-- A ServerHello and the output of TShark for two streams.
use secure_mail_scope_sih.Common.{
  arith, ◌≡◌, refl, none, [], ◌∷◌, List, Text, codes, Bytes, returns, nat_key, lookup,
}
use secure_mail_scope_sih.X509.{failed}
use secure_mail_scope_sih.Handshake.Types.{CertInfo, new_parser}
use secure_mail_scope_sih.Handshake.Certificates.{parse_der_certificate}
use secure_mail_scope_sih.Handshake.Records.{process_record}
use secure_mail_scope_sih.Handshake.RoundTrip.{ServerHello, encode, expected}
use secure_mail_scope_sih.Handshake.Framing.{record_of, message_of, process_record-encode}
use secure_mail_scope_sih.Inspect.Aggregate.{Layers, add_packets}
use secure_mail_scope_sih.Inspect.PerStream.{packets_of, lookup-packets_of}

abbrev zeros : Bytes
zeros =
    0 ∷ 0 ∷ 0 ∷ 0 ∷ 0 ∷ 0 ∷ 0 ∷ 0 ∷ 0 ∷ 0 ∷ 0 ∷ 0 ∷ 0 ∷ 0 ∷ 0 ∷ 0 ∷ 0 ∷ 0 ∷ 0 ∷ 0 ∷ 0 ∷ 0 ∷ 0 ∷ 0
    ∷ 0 ∷ 0 ∷ 0 ∷ 0 ∷ 0 ∷ 0 ∷ 0 ∷ 0 ∷ []

abbrev picked : ServerHello
picked = record {
  major = 3;
  minor = 3;
  random = zeros;
  session_id = 7 ∷ 8 ∷ [];
  suite_high = 0xC0;
  suite_low = 0x2F;
  compression = 0;
}

abbrev read_nothing : Bytes → CertInfo
read_nothing der = parse_der_certificate (λ _. failed []) 0 der

process_record-encode_example :
    process_record read_nothing new_parser (record_of (message_of 2 (encode picked)))
    ≡ returns (
      record new_parser {
        server_result = record (new_parser.server_result) {
          handshake = expected picked new_parser.server_result.handshake;
        };
      },
      none,
    )
process_record-encode_example =
    process_record-encode read_nothing new_parser picked refl (omega arith)

abbrev hello_of : Text → Text → Layers
hello_of stream suite = record {
  tcp_stream = stream ∷ [];
  ip_src = [];
  ip_dst = [];
  ipv6_src = [];
  ipv6_dst = [];
  tcp_src_port = [];
  tcp_dst_port = [];
  tls_record_content_type = [];
  tls_handshake_type = codes "2" ∷ [];
  tls_record_version = [];
  tls_handshake_version = [];
  tls_supported_version = [];
  tls_cipher_suite = suite ∷ [];
  tls_server_name = [];
  tls_alpn = [];
  tls_key_share_group = [];
  tls_sig_hash_alg = [];
  tls_certificate = [];
  tls_alert_message = [];
}

abbrev two_streams : List Layers
two_streams =
    hello_of (codes "0") (codes "0xc02f")
    ∷ hello_of (codes "1") (codes "0x1301")
    ∷ hello_of (codes "0") (codes "0x009c")
    ∷ []

lookup-packets_of_example :
    lookup 0 (add_packets two_streams []) ≡ lookup 0 (add_packets (packets_of 0 two_streams) [])
lookup-packets_of_example = lookup-packets_of 0 two_streams
