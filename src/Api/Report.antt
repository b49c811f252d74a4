-- ===== src/Api/Report.antt =====
-- `GetAnalysisReport`, `generatePDFReport` and the tables of `generateHTMLReport` of
-- backend/internal/api/handlers.go. A PDF is the sequence of the calls of gofpdf; how "%.1f" prints a
-- score, and the text of the instant, are arguments.
use secure_mail_scope_sih.Common.{
  ℕ, Bool, not, ◌||◌, List, [], ◌∷◌, ◌++◌, ltb, if◌then◌else◌, length, take, any, Text, codes,
  text_eq, is_empty, decimal,
}
use secure_mail_scope_sih.Models.{Finding, EmailSession, Analysis, Ratio, severity_text}
use secure_mail_scope_sih.Api.Response.{Response, ok, fails, panics}
use secure_mail_scope_sih.Api.Summary.{protocol_text}

-- The calls of gofpdf; a line break of -1 is the height of the last cell.
pub data PdfCall : Type 0 where
  set_font : Text → ℕ → PdfCall
  cell : ℕ → Text → PdfCall
  cell_format : ℕ → Text → PdfCall
  multi_cell : Text → PdfCall
  ln : ℕ → PdfCall
  ln_last : PdfCall

-- The cipher's column: a long name is cut.
unfoldable pub cipher_cell : Text → Text
cipher_cell cipher = if ltb 35 (length cipher) then take 32 cipher ++ codes "..." else cipher

unfoldable pub has_findings : EmailSession → Bool
has_findings s = ltb 0 (length s.findings)

-- "hasFindings" behind the loop over the sessions
unfoldable pub any_findings : List EmailSession → Bool
unfolding has_findings
any_findings sessions = any has_findings sessions

-- "%.1f" of a whole score
unfoldable pub whole_score : ℕ → Text
whole_score n = decimal n ++ codes ".0"

pdf_session_row : EmailSession → List PdfCall
unfolding whole_score
pdf_session_row s =
    cell_format 30 (protocol_text s.protocol)
    ∷ cell_format 30 s.tls_version
    ∷ cell_format 70 (cipher_cell s.negotiated_cipher)
    ∷ cell_format 20 (whole_score s.risk_score)
    ∷ cell_format 30 (severity_text s.severity)
    ∷ ln_last
    ∷ []

pdf_session_rows : List EmailSession → List PdfCall
unfolding pdf_session_row
pdf_session_rows [] = []
pdf_session_rows (s ∷ ss) = pdf_session_row s ++ pdf_session_rows ss

pdf_title : Finding → Text
pdf_title f =
    codes "["
    ++ (severity_text f.severity
        ++ (codes "] "
            ++ (f.title
                ++ (if not (is_empty f.confidence)
                    then codes " (" ++ (f.confidence ++ codes " CONF)")
                    else []))))

pdf_evidence : Finding → List PdfCall
pdf_evidence f =
    if not (is_empty f.evidence.details)
    then multi_cell (codes "Evidence: " ++ f.evidence.details) ∷ []
    else []

pdf_findings : List Finding → List PdfCall
unfolding pdf_title pdf_evidence
pdf_findings [] = []
pdf_findings (f ∷ fs) =
    set_font (codes "B") 10
    ∷ cell 6 (pdf_title f)
    ∷ ln 6
    ∷ set_font [] 10
    ∷ multi_cell (codes "Description: " ++ f.description)
    ∷ (pdf_evidence f
        ++ multi_cell (codes "Remediation: " ++ f.recommendation) ∷ ln 4 ∷ pdf_findings fs)

unfoldable pub session_title : EmailSession → Text
session_title s =
    codes "Session "
    ++ (s.id ++ (codes " (" ++ (s.src_ip ++ (codes " - " ++ (s.dst_ip ++ codes ")")))))

pdf_details : List EmailSession → List PdfCall
unfolding pdf_findings session_title
pdf_details [] = []
pdf_details (s ∷ ss) =
    let rest = pdf_details ss in
    if has_findings s
    then set_font (codes "B") 12
      ∷ cell 10 (session_title s)
      ∷ ln 8
      ∷ (pdf_findings s.findings ++ rest)
    else rest

module _ (one_decimal : Ratio → Text) (generated : Text) where
  -- `generatePDFReport`, up to the font "Arial" of every call; `short` is `analysis.ID[:8]`.
  unfoldable pub generate_pdf_report : Text → Analysis → List EmailSession → List PdfCall
  unfolding pdf_session_rows pdf_details
  generate_pdf_report short analysis sessions =
      set_font (codes "B") 20
      ∷ cell 10 (codes "SecureMailScope Forensic Report")
      ∷ ln 10
      ∷ set_font [] 12
      ∷ cell 10 (codes "Analysis ID: " ++ short)
      ∷ ln 10
      ∷ cell 10 (codes "Generated: " ++ generated)
      ∷ ln 10
      ∷ cell 10 (
          codes "Risk Score: "
          ++ (one_decimal analysis.overall_score
              ++ (codes "/10 - " ++ severity_text analysis.overall_severity)))
      ∷ ln 15
      ∷ set_font (codes "B") 16
      ∷ cell 10 (codes "Summary")
      ∷ ln 10
      ∷ set_font [] 12
      ∷ cell 10 (codes "Total Sessions: " ++ decimal analysis.total_sessions)
      ∷ ln 10
      ∷ cell 10 (codes "Anomalies Detected: " ++ decimal analysis.anomaly_count)
      ∷ ln 10
      ∷ cell 10
          (codes "Forward Secrecy: " ++ (one_decimal analysis.forward_secrecy_pct ++ codes "%"))
      ∷ ln 15
      ∷ set_font (codes "B") 16
      ∷ cell 10 (codes "Session Details")
      ∷ ln 10
      ∷ set_font (codes "B") 10
      ∷ cell_format 30 (codes "Protocol")
      ∷ cell_format 30 (codes "TLS Version")
      ∷ cell_format 70 (codes "Cipher")
      ∷ cell_format 20 (codes "Risk")
      ∷ cell_format 30 (codes "Severity")
      ∷ ln_last
      ∷ set_font [] 9
      ∷ (pdf_session_rows sessions
          ++ ln 15
            ∷ set_font (codes "B") 16
            ∷ cell 10 (codes "Detailed Findings")
            ∷ ln 10
            ∷ (pdf_details sessions
                ++ (if not (any_findings sessions)
                    then set_font (codes "I") 11
                      ∷ cell 10 (codes "No cryptographic vulnerabilities detected in this capture.")
                      ∷ ln 10
                      ∷ []
                    else [])))

-- The formats of a report, with the name of its file
pub data Report : Type 0 where
  json_report : Text → Analysis → List EmailSession → Report
  html_report : Text → Text → Report
  pdf_report : Text → List PdfCall → Report

-- `fmt.Sprintf("report_%s.…", id[:8])`
report_name : Text → Text → Text
report_name id ext = codes "report_" ++ (take 8 id ++ (codes "." ++ ext))

-- `GetAnalysisReport` behind its two queries; `html` prints the HTML report.
unfoldable pub get_analysis_report :
    (Ratio → Text)
    → Text
    → (Analysis → List EmailSession → Text)
    → Text
    → Text
    → Response Analysis
    → Response (List EmailSession)
    → Response Report
unfolding report_name
get_analysis_report one_decimal generated html id format (ok analysis) (ok sessions) =
    if text_eq format (codes "json")
    then (if ltb (length id) 8
        then panics
        else ok (json_report (report_name id (codes "json")) analysis sessions))
    else if text_eq format (codes "html")
    then (if ltb (length id) 8 || ltb (length analysis.id) 8
        then panics
        else ok (html_report (report_name id (codes "html")) (html analysis sessions)))
    else if text_eq format (codes "pdf")
    then (if ltb (length id) 8 || ltb (length analysis.id) 8
        then panics
        else ok (
            pdf_report (report_name id (codes "pdf"))
              (generate_pdf_report one_decimal generated (take 8 analysis.id) analysis sessions)))
    else fails 400 (codes "Supported formats: json, html, pdf")
get_analysis_report one_decimal generated html id format (ok analysis) (fails status text) =
    fails 500 text
get_analysis_report one_decimal generated html id format (ok analysis) panics = panics
get_analysis_report one_decimal generated html id format (fails status text) found =
    fails 404 (codes "Analysis not found")
get_analysis_report one_decimal generated html id format panics found = panics
