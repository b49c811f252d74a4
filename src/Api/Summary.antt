-- ===== src/Api/Summary.antt =====
-- `GetAnalysisSummary` of backend/internal/api/handlers.go.
use secure_mail_scope_sih.Common.{
  ℕ, ◌+◌, Bool, not, Option, none, some, List, [], ◌∷◌, if◌then◌else◌, length, Text, codes,
  is_empty, text_key, lookup, insert,
}
use secure_mail_scope_sih.Models.{
  EmailProtocol, smtp, imap, pop3, unknown_protocol, TlsInfo, EmailSession,
}
use secure_mail_scope_sih.Storage.Tables.{Database}
use secure_mail_scope_sih.Storage.Sessions.{Codecs}
use secure_mail_scope_sih.Storage.Loads.{get_sessions_for_analysis}
use secure_mail_scope_sih.Analysis.Pipeline.Tally.{count_of, count_findings}
use secure_mail_scope_sih.Api.Response.{Response, ok, fails, panics}
use secure_mail_scope_sih.Api.Queries.{or_query_failed}

-- `AnalysisSummary`
pub record AnalysisSummary : Type 0 where
  pub analysis_id : Text
  pub total_sessions : ℕ
  pub protocol_counts : List (Text × ℕ)
  pub tls_version_counts : List (Text × ℕ)
  pub severity_counts : List (Text × ℕ)
  pub start_tls_counts : List (Text × ℕ)

unfoldable pub protocol_text : EmailProtocol → Text
protocol_text smtp = codes "SMTP"
protocol_text imap = codes "IMAP"
protocol_text pop3 = codes "POP3"
protocol_text unknown_protocol = codes "UNKNOWN"

-- `counts[key]++`
unfoldable pub count_key : Text → List (Text × ℕ) → List (Text × ℕ)
count_key key counts = insert key (count_of (lookup key counts) + 1) counts

unfoldable pub tls_version_key : Option TlsInfo → Text
tls_version_key none = codes "Plaintext / None"
tls_version_key (some t) = if not (is_empty t.version) then t.version else codes "Plaintext / None"

count_if : Bool → Text → List (Text × ℕ) → List (Text × ℕ)
count_if b key counts = if b then count_key key counts else counts

-- One round of the loop over the sessions
unfoldable pub count_session : EmailSession → AnalysisSummary → AnalysisSummary
unfolding protocol_text count_key tls_version_key count_if
count_session s summary = record summary {
  protocol_counts = count_key (protocol_text s.protocol) summary.protocol_counts;
  tls_version_counts = count_key (tls_version_key s.tls) summary.tls_version_counts;
  start_tls_counts =
      count_if s.start_tls.tls_established (codes "Established")
        (count_if s.start_tls.supported (codes "Supported") summary.start_tls_counts);
  severity_counts = count_findings s.findings summary.severity_counts;
}

unfoldable pub count_all : List EmailSession → AnalysisSummary → AnalysisSummary
unfolding count_session
count_all [] summary = summary
count_all (s ∷ ss) summary = count_all ss (count_session s summary)

unfoldable pub summarize : Text → List EmailSession → AnalysisSummary
unfolding count_all
summarize id sessions = count_all sessions (record {
  analysis_id = id;
  total_sessions = length sessions;
  protocol_counts = [];
  tls_version_counts = [];
  severity_counts = [];
  start_tls_counts = [];
})

unfoldable pub summary_of : Text → Response (List EmailSession) → Response AnalysisSummary
unfolding summarize
summary_of id (ok sessions) = ok (summarize id sessions)
summary_of id (fails status text) = fails status text
summary_of id panics = panics

-- `GetAnalysisSummary`
unfoldable pub get_analysis_summary : Codecs → Text → Database → Response AnalysisSummary × Database
unfolding summary_of or_query_failed
get_analysis_summary json id db =
    let (found, asked) = or_query_failed (get_sessions_for_analysis json id db) in
    (summary_of id found, asked)
