-- ===== src/Inspect/Aggregate.antt =====
-- `parseOutput` of backend/internal/tlsinspect/inspector.go, behind the decoding of the JSON: one
-- result for each TCP stream, updated packet by packet. A numeric field is read by its decimal digits.
use secure_mail_scope_sih.Common.{
  ℕ, ◌+◌, ◌-◌, ◌*◌, Bool, true, false, not, ◌&&◌, ◌||◌, Option, none, some, List, [], ◌∷◌, ◌++◌,
  ltb, leb, if◌then◌else◌, length, any, Text, codes, text_eq, is_empty,
}
use secure_mail_scope_sih.Common.{nat_key, lookup, insert}
use secure_mail_scope_sih.Models.{TlsInfo}
use secure_mail_scope_sih.Inspect.Values.{
  normalize_tls_version, format_cipher_suite, format_key_exchange_group, is_grease,
}

-- The `Layers` of a `tsharkFlatPacketJSON`.
pub record Layers : Type 0 where
  pub tcp_stream : List Text
  pub ip_src : List Text
  pub ip_dst : List Text
  pub ipv6_src : List Text
  pub ipv6_dst : List Text
  pub tcp_src_port : List Text
  pub tcp_dst_port : List Text
  pub tls_record_content_type : List Text
  pub tls_handshake_type : List Text
  pub tls_record_version : List Text
  pub tls_handshake_version : List Text
  pub tls_supported_version : List Text
  pub tls_cipher_suite : List Text
  pub tls_server_name : List Text
  pub tls_alpn : List Text
  pub tls_key_share_group : List Text
  pub tls_sig_hash_alg : List Text
  pub tls_certificate : List Text
  pub tls_alert_message : List Text

-- `StreamTLSResult`
pub record StreamTlsResult : Type 0 where
  pub stream_id : ℕ
  pub src_ip : Text
  pub dst_ip : Text
  pub src_port : Text
  pub dst_port : Text
  pub tls_version : Text
  pub cipher : Text
  pub server_name : Text
  pub alpn : Text
  pub key_exchange_grp : Text
  pub sig_alg : Text
  pub certificates : List Text
  pub alert_count : ℕ
  pub tls_observed : Bool
  pub server_hello_seen : Bool
  pub certificate_seen : Bool
  pub handshake_failed : Bool
  pub handshake_completed : Bool
  pub app_data_observed : Bool

-- `&StreamTLSResult{StreamID: streamID}`
abbrev pub new_result : ℕ → StreamTlsResult
new_result stream_id = record {
  stream_id = stream_id;
  src_ip = [];
  dst_ip = [];
  src_port = [];
  dst_port = [];
  tls_version = [];
  cipher = [];
  server_name = [];
  alpn = [];
  key_exchange_grp = [];
  sig_alg = [];
  certificates = [];
  alert_count = 0;
  tls_observed = false;
  server_hello_seen = false;
  certificate_seen = false;
  handshake_failed = false;
  handshake_completed = false;
  app_data_observed = false;
}

-- `xs[0]` where `len(xs) > 0`, and else the value given.
unfoldable pub first_or : Text → List Text → Text
first_or s [] = s
first_or s (x ∷ xs) = x

-- `xs[0]`, else `ys[0]`, else the value given
unfoldable pub either_first : Text → List Text → List Text → Text
either_first s [] ys = first_or s ys
either_first s (x ∷ xs) ys = x

-- The decimal digits at the head of a text: what `Sscanf("%d")` reads.
scan_go : ℕ → Text → ℕ
scan_go acc [] = acc
scan_go acc (c ∷ s) =
    let rest = scan_go (acc * 10 + (c - b'0')) s in if leb b'0' c && leb c b'9' then rest else acc

unfoldable pub scan_int : Text → ℕ
unfolding scan_go
scan_int s = scan_go 0 s

-- Into an uint16: a number that does not fit leaves 0.
unfoldable pub scan_uint16 : Text → ℕ
scan_uint16 s = if ltb (scan_int s) 65536 then scan_int s else 0

-- The loop over `TLSHandshakeType`: what each type sets.
unfoldable pub note_types : List Text → StreamTlsResult → StreamTlsResult
note_types types r = record r {
  server_hello_seen = r.server_hello_seen || any (text_eq (codes "2")) types;
  certificate_seen = r.certificate_seen || any (text_eq (codes "11")) types;
  handshake_completed = r.handshake_completed || any (text_eq (codes "20")) types;
}

unfoldable pub set_endpoints : Layers → StreamTlsResult → StreamTlsResult
set_endpoints l r = record r {
  src_ip = either_first r.src_ip l.ip_src l.ipv6_src;
  dst_ip = either_first r.dst_ip l.ip_dst l.ipv6_dst;
  src_port = first_or r.src_port l.tcp_src_port;
  dst_port = first_or r.dst_port l.tcp_dst_port;
}

-- `if !isGrease(v) { field = format(v) }` on `xs[0]`
unfoldable pub unless_grease : (Text → Text) → List Text → Text → Text
unless_grease format [] field = field
unless_grease format (v ∷ vs) field = if is_grease v then field else format v

-- The version that a ServerHello names: the extension hides the field of the record.
unfoldable pub hello_version : List Text → List Text → Text → Text
hello_version [] versions field = unless_grease normalize_tls_version versions field
hello_version (v ∷ vs) versions field = unless_grease normalize_tls_version (v ∷ vs) field

-- "Extract negotiated parameters strictly from ServerHello"
unfoldable pub set_negotiated : Layers → StreamTlsResult → StreamTlsResult
set_negotiated l r = record r {
  tls_version = hello_version l.tls_supported_version l.tls_handshake_version r.tls_version;
  cipher = unless_grease format_cipher_suite l.tls_cipher_suite r.cipher;
  key_exchange_grp =
      unless_grease format_key_exchange_group l.tls_key_share_group r.key_exchange_grp;
}

-- What the rest of the loop's body takes from any packet.
unfoldable pub set_common : Layers → StreamTlsResult → StreamTlsResult
set_common l r = record r {
  tls_version =
      if is_empty r.tls_version
      then unless_grease normalize_tls_version l.tls_record_version r.tls_version
      else r.tls_version;
  server_name = if is_empty r.server_name then first_or [] l.tls_server_name else r.server_name;
  alpn = if is_empty r.alpn then first_or [] l.tls_alpn else r.alpn;
  sig_alg = if is_empty r.sig_alg then first_or [] l.tls_sig_hash_alg else r.sig_alg;
  certificates = r.certificates ++ l.tls_certificate;
  alert_count = r.alert_count + (if ltb 0 (length l.tls_alert_message) then 1 else 0);
}

-- The body of the loop over the packets, on the result of the packet's stream. The flag is `!exists`.
unfoldable pub update_result : Bool → Layers → StreamTlsResult → StreamTlsResult
update_result is_new l r =
    let types = l.tls_handshake_type in
    let noted = note_types types r in
    let is_client_hello = any (text_eq (codes "1")) types in
    let placed = if is_new || is_client_hello then set_endpoints l noted else noted in
    let observed = record placed {
      tls_observed = true;
      app_data_observed =
          placed.app_data_observed || any (text_eq (codes "23")) l.tls_record_content_type;
    } in
    let negotiated =
      if any (text_eq (codes "2")) types then set_negotiated l observed else observed in
    set_common l negotiated

-- `streamMap`
abbrev pub StreamMap : Type 0
StreamMap = List (ℕ × StreamTlsResult)

unfoldable pub updated_result : ℕ → Layers → Option StreamTlsResult → StreamTlsResult
updated_result stream_id l (some r) = update_result false l r
updated_result stream_id l none = update_result true l (new_result stream_id)

-- One packet of the loop.
unfoldable pub add_packet : Layers → StreamMap → StreamMap
unfolding updated_result
add_packet l m =
    let stream_id = scan_int (first_or [] l.tcp_stream) in
    insert stream_id (updated_result stream_id l (lookup stream_id m)) m

unfoldable pub add_packets : List Layers → StreamMap → StreamMap
add_packets [] m = m
add_packets (l ∷ ls) m = add_packets ls (add_packet l m)

-- The `TLSInfo` of a result.
unfoldable pub tls_info : StreamTlsResult → TlsInfo
tls_info r = record {
  version = r.tls_version;
  cipher_suite = r.cipher;
  server_name = r.server_name;
  alpn = r.alpn;
  key_exchange_group = r.key_exchange_grp;
  signature_algorithm = r.sig_alg;
  alert_count = r.alert_count;
  stream_id = r.stream_id;
  client_ip = r.src_ip;
  client_port = scan_uint16 r.src_port;
  server_ip = r.dst_ip;
  server_port = scan_uint16 r.dst_port;
  tls_observed = r.tls_observed;
  server_hello_seen = r.server_hello_seen;
  certificate_seen = r.certificate_seen;
  handshake_failed = ltb 0 r.alert_count && not r.handshake_completed && not r.app_data_observed;
  handshake_completed = r.handshake_completed;
  app_data_observed = r.app_data_observed;
  raw_certificates = r.certificates;
}

-- "Convert map to slice": Go visits the map in any order, here it is that of insertion.
unfoldable pub to_tls_list : StreamMap → List TlsInfo
to_tls_list [] = []
to_tls_list ((stream_id, r) ∷ m) =
    if not (is_empty r.tls_version) || not (is_empty r.cipher)
    then tls_info r ∷ to_tls_list m
    else to_tls_list m

-- `parseOutput`
unfoldable pub parse_output : List Layers → List TlsInfo
parse_output packets = to_tls_list (add_packets packets [])
