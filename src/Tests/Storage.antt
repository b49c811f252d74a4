-- ===== src/Tests/Storage.antt =====
-- A small database of backend/internal/storage/sqlite.go.
use secure_mail_scope_sih.Common.{
  ℕ, ◌≡◌, refl, sym, ◌∙◌, ◌≢◌, true, false, none, some, List, [], ◌∷◌, inl, inr, Text, codes,
  text_eq, text_eq_iff, is_empty, text_key,
}
use mathlib.Core.Bool.{true≢false}
use secure_mail_scope_sih.Models.{
  info, high, critical, completed, queued, Finding, TlsInfo, EmailSession, FindingEvidence,
  AiAssessmentResult, CertificateInfo,
}
use secure_mail_scope_sih.Storage.Tables.{AnalysisRow, Database, no_rows, rows_where}
use secure_mail_scope_sih.Storage.Analyses.{
  Codec, is_final, get_analysis, delete_analysis, update_analysis_status,
}
use secure_mail_scope_sih.Storage.Sessions.{Codecs, save_session, has_finding_id, finding_row}
use secure_mail_scope_sih.Storage.Loads.{
  get_session, get_sessions_for_analysis, get_findings_for_analysis, has_content,
}
use secure_mail_scope_sih.Storage.Stored.{Reads, has_text, without_raw, stored_session}
use secure_mail_scope_sih.Storage.RoundTrip.{save_session-get_session}
use secure_mail_scope_sih.Storage.WellFormed.{WellFormed, is_some, status_set, Write-WellFormed}
use secure_mail_scope_sih.Storage.Isolation.{
  SameRows, delete_analysis-SameRows, delete_analysis-IsGone,
}
use secure_mail_scope_sih.Tests.Assessment.{plain_session, tls_of, sid}

-- A type of which one value is written and read.
abbrev pub codec_of : {A : Type 0} → A → Codec A
codec_of a = record { encode = λ b. codes "{1}"; fills = λ text. a; accepts = λ text. true }

abbrev pub cited : FindingEvidence
cited = record {
  packet_numbers = 4 ∷ [];
  session_id = sid;
  pcap = codes "capture.pcap";
  details = codes "RC4";
}

abbrev pub finding_1 : Finding
finding_1 = record {
  id = codes "F1";
  title = codes "Weak";
  severity = high;
  category = codes "TLS";
  session_id = sid;
  description = codes "weak <b>cipher</b>";
  confidence = codes "HIGH";
  evidence = cited;
  recommendation = codes "Use TLS 1.3";
}

abbrev pub finding_2 : Finding
finding_2 = record finding_1 { id = codes "F2"; severity = critical }

abbrev pub tls_seen : TlsInfo
tls_seen = record (tls_of (codes "RC4")) { raw_certificates = codes "30" ∷ [] }

abbrev pub saved_session : EmailSession
saved_session = record plain_session { tls = some tls_seen; findings = finding_1 ∷ finding_2 ∷ [] }

abbrev pub no_result : AiAssessmentResult
no_result = record {
  executive_interpretation = [];
  evidence_correlation = [];
  ai_reasoning = [];
  priority = [];
  recommended_actions = [];
}

abbrev pub no_certificate : CertificateInfo
no_certificate = record {
  subject = [];
  issuer = [];
  serial_number = [];
  not_before = 0;
  not_after = 0;
  key_algorithm = [];
  key_bits = 0;
  signature_algorithm = [];
  dns_names = [];
  expired = false;
  not_yet_valid = false;
  chain_verified = none;
  hostname_verified = none;
  parse_error = [];
  fingerprint = [];
}

abbrev pub breakdowns : Codec (List (Text × ℕ))
breakdowns = codec_of []

abbrev pub json : Codecs
json = record {
  start_tls = codec_of plain_session.start_tls;
  tls = codec_of (record tls_seen { raw_certificates = [] });
  certificate = codec_of no_certificate;
  scores = codec_of plain_session.scores;
  structured = codec_of no_result;
  remediations = codec_of [];
  evidence = codec_of cited;
  no_start_tls = plain_session.start_tls;
  no_scores = plain_session.scores;
}

abbrev analysis_row : Text → AnalysisRow
analysis_row id = record {
  id = id;
  pcap_path = codes "/data/analyses/a/capture.pcap";
  pcap_filename = codes "mail.pcap";
  status = queued;
  started_at = 5;
  finished_at = none;
  total_packets = 0;
  total_sessions = 0;
  overall_score = record { numerator = 0; denominator = 0 };
  overall_severity = info;
  forward_secrecy_pct = record { numerator = 0; denominator = 0 };
  severity_breakdown = codes "{}";
  error = [];
  global_ai_assessment = [];
}

-- Two analyses, and a driver that takes every statement
abbrev pub two_analyses : Database
two_analyses = record {
  analyses = analysis_row (codes "a") ∷ analysis_row (codes "b") ∷ [];
  sessions = [];
  findings = [];
  refusals = [];
}

-- The same, with a driver that refuses the first of the next two statements
abbrev pub refusing : Database
refusing = record two_analyses { refusals = true ∷ false ∷ [] }

ids_differ : codes "a" ≢ codes "b"
unfolding codes text_eq
ids_differ e = absurd (true≢false (sym ((text_eq_iff (codes "a") (codes "b")).1 e) ∙ refl))

pub two_analyses-WellFormed : WellFormed two_analyses
unfolding is_some is_final
two_analyses-WellFormed = record {
  timed = (refl, (refl, tt));
  analyses = ((λ e. ids_differ (sym e), tt), (tt, tt));
  sessions = tt;
  findings = tt;
}

saved_session-Reads : Reads json saved_session
unfolding has_text is_empty codes without_raw has_content text_eq
saved_session-Reads = record {
  start_tls = (refl, refl, refl);
  scores = (refl, refl, refl);
  tls = (refl, refl, refl);
  certificate = tt;
  structured = tt;
  remediations = (λ h. refl, refl);
  evidence = (refl, (refl, tt));
}

save_session-get_session_example :
    let (outcome, after) = save_session json saved_session two_analyses in
    (outcome ≡ none) × ((get_session json sid after).0 ≡ inr (stored_session saved_session))
unfolding has_finding_id finding_row rows_where text_eq codes
save_session-get_session_example =
    save_session-get_session json saved_session two_analyses refl saved_session-Reads
      (refl, (refl, tt)) (tt, ((refl, tt), tt)) refl

Write-WellFormed_example : WellFormed (update_analysis_status 9 (codes "a") completed [] refusing).1
Write-WellFormed_example =
    Write-WellFormed json breakdowns (status_set 9 (codes "a") completed [] refusing) (record {
      timed = two_analyses-WellFormed.timed;
      analyses = two_analyses-WellFormed.analyses;
      sessions = tt;
      findings = tt;
    })

delete_analysis-SameRows_example :
    SameRows (codes "b") (delete_analysis (codes "a") refusing).1 refusing
delete_analysis-SameRows_example =
    delete_analysis-SameRows (codes "a") (codes "b") refusing ids_differ

delete_analysis-IsGone_example :
    let (outcome, after) = delete_analysis (codes "a") two_analyses in
    (outcome ≡ none)
    × ((get_analysis breakdowns (codes "a") after).0 ≡ inl no_rows)
    × ((get_sessions_for_analysis json (codes "a") after).0 ≡ inr [])
    × ((get_findings_for_analysis json (codes "a") after).0 ≡ inr [])
delete_analysis-IsGone_example =
    delete_analysis-IsGone json breakdowns (codes "a") two_analyses refl
