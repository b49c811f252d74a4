-- ===== src/Analysis/Pipeline/Build.antt =====
-- Step 5 of `ExecutePipeline` of backend/internal/analysis/service.go: the session of a stream, its
-- TLS data, certificate and findings.
use secure_mail_scope_sih.Common.{
  ℕ, suc, ◌+◌, Bool, true, false, ◌||◌, Option, none, some, List, [], ◌∷◌, ◌++◌, ltb, if◌then◌else◌,
  any, length, Text, codes, contains, decimal, text_key, lookup, insert,
}
use secure_mail_scope_sih.Models.{
  EmailProtocol, unknown_protocol, ForwardSecrecyStatus, fs_unknown, StartTlsInfo, TlsInfo,
  CertificateInfo, Analysis, EmailSession, other_severity,
}
use secure_mail_scope_sih.Session.Keys.{make_connection_key}
use secure_mail_scope_sih.Session.Reassembler.{ReassembledStream}
use secure_mail_scope_sih.Protocol.Detector.{detect}
use secure_mail_scope_sih.Protocol.Timeline.{analyze}
use secure_mail_scope_sih.Inspect.Values.{assess_forward_secrecy}
use secure_mail_scope_sih.Certificate.{CertificateResult, ok, err, parse_hex_strings, parse_raw_der}
use secure_mail_scope_sih.Risk.Policy.{default_policy}
use secure_mail_scope_sih.Risk.Engine.{assess}
use secure_mail_scope_sih.Analysis.Scores.{populate_flat_fields}
use secure_mail_scope_sih.Analysis.Pipeline.World.{Outside}

unfoldable pub is_mail : EmailProtocol → Bool
is_mail unknown_protocol = false
is_mail _ = true

-- Whether a stream is one of a mail protocol, in either order of its ports
unfoldable pub is_email_stream : ReassembledStream → Bool
is_email_stream stream =
    is_mail (detect stream.client_port stream.server_port stream.full_payload).protocol
    || is_mail (detect stream.server_port stream.client_port stream.full_payload).protocol

-- The loop that sets `hasEmail`
unfoldable pub has_email : List ReassembledStream → Bool
unfolding is_email_stream is_mail
has_email streams = any is_email_stream streams

unfoldable pub is_live : Analysis → Bool
is_live analysis = contains analysis.pcap_path (codes "live-capture")

-- `%03d`
unfoldable pub three_digits : ℕ → Text
three_digits n =
    if ltb n 10
    then codes "00" ++ decimal n
    else if ltb n 100
    then codes "0" ++ decimal n
    else decimal n

-- The session's identifier; `idx` counts the streams from 0.
unfoldable pub new_session_id : Outside → Analysis → Text → ℕ → ReassembledStream → Text
unfolding is_live three_digits
new_session_id outside analysis id idx stream =
    if is_live analysis
    then codes "live-"
      ++ (stream.client_ip
          ++ (codes "-"
              ++ (decimal stream.client_port
                  ++ (codes "-"
                      ++ (stream.server_ip
                          ++ (codes "-"
                              ++ (decimal stream.server_port
                                  ++ (codes "-" ++ decimal (outside.unix stream.start_time)))))))))
    else id ++ (codes "-S" ++ three_digits (idx + 1))

-- The loop that fills `tlsByKey`; of two entries with one key the later stays.
unfoldable pub put_tls : List TlsInfo → List (Text × TlsInfo) → List (Text × TlsInfo)
put_tls [] m = m
put_tls (t ∷ ts) m =
    put_tls ts
      (insert (make_connection_key t.client_ip t.client_port t.server_ip t.server_port) t m)

-- `tlsByKey`: it is empty where TShark is not available.
unfoldable pub tls_by_key : Outside → Text → List (Text × TlsInfo)
unfolding put_tls
tls_by_key outside path = elim (outside.tshark path) [ none ↦ [] | some found ↦ put_tls found [] ]

-- "fallback if only 1 TLS stream in entire PCAP and somehow key mismatch"
only_entry : List (Text × TlsInfo) → Option TlsInfo
only_entry ((key, t) ∷ []) = some t
only_entry _ = none

-- "Match TShark TLS data to this stream using ConnectionKey"
unfoldable pub match_tls : Text → List (Text × TlsInfo) → Option TlsInfo
unfolding only_entry
match_tls key m = elim (lookup key m) [ some t ↦ some t | none ↦ only_entry m ]

-- The TLS data of a session whose stream TShark says nothing of, but whose STARTTLS succeeded
observed_tls : TlsInfo
observed_tls = record {
  version = [];
  cipher_suite = [];
  server_name = [];
  alpn = [];
  key_exchange_group = [];
  signature_algorithm = [];
  alert_count = 0;
  stream_id = 0;
  client_ip = [];
  client_port = 0;
  server_ip = [];
  server_port = 0;
  tls_observed = true;
  server_hello_seen = false;
  certificate_seen = false;
  handshake_failed = false;
  handshake_completed = false;
  app_data_observed = false;
  raw_certificates = [];
}

session_tls : Option TlsInfo → StartTlsInfo → Option TlsInfo
unfolding observed_tls
session_tls (some t) info = some t
session_tls none info = if info.tls_established then some observed_tls else none

session_secrecy : Option TlsInfo → ForwardSecrecyStatus
session_secrecy none = fs_unknown
session_secrecy (some t) = assess_forward_secrecy t.version t.cipher_suite t.key_exchange_group

parsed_or_none : CertificateResult → Option CertificateInfo
parsed_or_none (ok cert) = some cert
parsed_or_none (err text) = none

-- "Attempt certificate parsing from TShark raw output first, then raw payload"
unfoldable pub session_certificate :
    Outside → Option TlsInfo → ReassembledStream → Option CertificateInfo
unfolding parsed_or_none
session_certificate outside none stream =
    parsed_or_none (parse_raw_der outside.parse_certificate outside.now stream.server_payload)
session_certificate outside (some t) stream =
    if ltb 0 (length t.raw_certificates)
    then parsed_or_none (
        parse_hex_strings outside.parse_certificate outside.now outside.hex_decode
          t.raw_certificates)
    else parsed_or_none (parse_raw_der outside.parse_certificate outside.now stream.server_payload)

-- `emailSession` before the risk engine: the fields that are not set yet have their zero values.
unfoldable pub found_session :
    Outside → Analysis → Text → List (Text × TlsInfo) → ℕ → ReassembledStream → EmailSession
unfolding new_session_id match_tls session_tls session_secrecy session_certificate
found_session outside analysis id tls_map idx stream =
    let proto = (detect stream.client_port stream.server_port stream.full_payload).protocol in
    let (protocol_events, start_tls) = analyze proto stream.start_time stream.chunks in
    let tls_info = match_tls stream.key tls_map in
    record {
      id = new_session_id outside analysis id idx stream;
      analysis_id = id;
      client = record { ip = stream.client_ip; port = stream.client_port };
      server = record { ip = stream.server_ip; port = stream.server_port };
      protocol = proto;
      start_time = stream.start_time;
      end_time = stream.end_time;
      packet_count = stream.packet_count;
      client_bytes = stream.client_bytes;
      server_bytes = stream.server_bytes;
      stream_complete = stream.stream_complete;
      reassembly_gap = stream.reassembly_gap;
      start_tls = start_tls;
      tls = session_tls tls_info start_tls;
      certificate = session_certificate outside tls_info stream;
      forward_secrecy = session_secrecy tls_info;
      findings = [];
      protocol_events = protocol_events;
      session_id = [];
      src_ip = [];
      dst_ip = [];
      tls_version = [];
      negotiated_cipher = [];
      signature_algorithm = [];
      risk_score = 0;
      severity = other_severity [];
      has_forward_secrecy = false;
      is_anomalous = false;
      anomaly_score = codes "0";
      scores = record {
        tls_version = 0;
        cipher_strength = 0;
        key_exchange = 0;
        certificate = 0;
        signature_algorithm = 0;
      };
      remediations = [];
      ai_assessment = [];
      ai_assessment_structured = none;
    }

-- One round of the loop over the streams
unfoldable pub build_session :
    Outside → Analysis → Text → List (Text × TlsInfo) → ℕ → ReassembledStream → EmailSession
unfolding found_session
build_session outside analysis id tls_map idx stream =
    let s = found_session outside analysis id tls_map idx stream in
    populate_flat_fields
      (record s { findings = assess outside.format_date outside.format_time default_policy s })

-- The loop over the streams, from the number `idx`
unfoldable pub build_sessions :
    Outside
    → Analysis
    → Text
    → List (Text × TlsInfo)
    → ℕ
    → List ReassembledStream
    → List EmailSession
unfolding build_session
build_sessions outside analysis id tls_map idx [] = []
build_sessions outside analysis id tls_map idx (stream ∷ streams) =
    build_session outside analysis id tls_map idx stream
    ∷ build_sessions outside analysis id tls_map (idx + 1) streams

-- `fsCount`
unfoldable pub fs_count : List EmailSession → ℕ
fs_count [] = 0
fs_count (s ∷ ss) = let rest = fs_count ss in if s.has_forward_secrecy then suc rest else rest
