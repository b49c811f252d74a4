-- ===== src/Tests/Api.antt =====
-- The handlers of backend/internal/api/handlers.go and the packets of backend/internal/capture/reader.go
-- on small inputs.
use secure_mail_scope_sih.Common.{
  ◌≡◌, refl, true, false, not, ◌&&◌, some, [], ◌∷◌, ◌++◌, Text, codes, text_eq, has_byte, is_empty,
  trim_space, ◌==◌,
}
use secure_mail_scope_sih.Models.{info}
use secure_mail_scope_sih.Api.Dashboard.{no_severities, get_dashboard_summary}
use secure_mail_scope_sih.Api.Label.{get_dashboard_summary-IsBlank}
use secure_mail_scope_sih.Api.Packets.{
  PacketSummary, packet_of_line, line_of_packet, packet_of_line-line_of_packet,
}
use secure_mail_scope_sih.Api.Sockets.{Sockets, broadcast, is_client, delivered, broadcast_lem}
use secure_mail_scope_sih.Capture.Reader.{Tcp, format_tcp_flags, format_tcp_flags_iff}
use secure_mail_scope_sih.Tests.Storage.{two_analyses}

get_dashboard_summary-IsBlank_example :
    let shown = (get_dashboard_summary two_analyses).0 in
    (shown.overall_severity ≡ info)
    × (shown.total_anomalies ≡ 0)
    × (shown.tls_version_breakdown ≡ [])
    × (shown.severity_breakdown ≡ no_severities)
get_dashboard_summary-IsBlank_example = get_dashboard_summary-IsBlank two_analyses

abbrev shown_packet : PacketSummary
shown_packet = record {
  packet_number = codes "1";
  timestamp = codes "0.5";
  source = codes "10.0.0.1";
  destination = codes "10.0.0.2";
  protocol = codes "eth:ip:tcp";
  length = codes "60";
  summary = codes "a|b";
}

packet_of_line-line_of_packet_example :
    packet_of_line (line_of_packet shown_packet) ≡ some shown_packet
unfolding has_byte codes line_of_packet trim_space is_empty
packet_of_line-line_of_packet_example =
    packet_of_line-line_of_packet shown_packet refl refl refl refl refl refl refl

abbrev three_clients : Sockets Text
three_clients = record { clients = 1 ∷ 2 ∷ 3 ∷ []; sent = [] }

broadcast_lem_example :
    let after = broadcast (λ c. c == 2) (codes "done") three_clients in
    (after.sent
      ≡ three_clients.sent ++ delivered (λ c. c == 2) (codes "done") three_clients.clients)
    × (is_client 2 after.clients ≡ is_client 2 three_clients.clients && not (2 == 2))
broadcast_lem_example = broadcast_lem (λ c. c == 2) (codes "done") three_clients 2

abbrev syn_packet : Tcp
syn_packet = record {
  src_port = 50000;
  dst_port = 25;
  seq = 1;
  ack_number = 0;
  syn = true;
  ack = false;
  fin = false;
  rst = false;
  psh = false;
  urg = false;
  ece = true;
  cwr = true;
  ns = false;
  payload = [];
}

format_tcp_flags_iff_example :
    (text_eq (format_tcp_flags syn_packet) (codes "SYN ")
      ≡ (true && (true && (true && (true && (true && true))))))
    × (format_tcp_flags (record syn_packet { ece = false; cwr = false; ns = true })
        ≡ format_tcp_flags syn_packet)
format_tcp_flags_iff_example = format_tcp_flags_iff syn_packet false false true
