-- ===== src/Api/Html.antt =====
-- The tables of `generateHTMLReport` of backend/internal/api/handlers.go: one row for each session, and
-- the list of its findings. The values are written into the page as they are.
use secure_mail_scope_sih.Common.{
  ◌≡◌, sym, ap, ◌∙◌, true, not, List, [], ◌∷◌, ◌++◌, if◌then◌else◌, Text, codes, is_empty, to_lower,
  contains, contains-append,
}
use secure_mail_scope_sih.Common.{contains-behind}
use mathlib.Core.Path.{subst}
use mathlib.Core.List.{append_assoc}
use secure_mail_scope_sih.Models.{Severity, Finding, EmailSession, severity_text}
use secure_mail_scope_sih.Api.Summary.{protocol_text}
use secure_mail_scope_sih.Api.Report.{has_findings, any_findings, whole_score, session_title}

severity_class : Severity → Text
severity_class severity = codes "severity-" ++ to_lower (severity_text severity)

-- A text between two others
unfoldable pub between : Text → Text → Text → Text
between front text behind = front ++ (text ++ behind)

-- The row of a session
unfoldable pub html_session_row : EmailSession → Text
unfolding severity_class between
html_session_row s =
    between (codes "<tr><td>") (protocol_text s.protocol) (codes "</td><td>")
    ++ (s.tls_version
        ++ (between (codes "</td><td style=\"font-size:12px\">") s.negotiated_cipher
              (codes "</td><td>")
            ++ (whole_score s.risk_score
                ++ (between (codes "</td><td class=\"") (severity_class s.severity) (codes "\">")
                    ++ (severity_text s.severity ++ codes "</td></tr>")))))

unfoldable pub html_session_rows : List EmailSession → Text
unfolding html_session_row
html_session_rows [] = []
html_session_rows (s ∷ ss) = html_session_row s ++ html_session_rows ss

confidence_badge : Finding → Text
confidence_badge f =
    if not (is_empty f.confidence)
    then between
        (codes
          "<span style=\"font-size: 11px; padding: 2px 6px; background: #334155; border-radius: 4px; margin-left: 8px;\">")
        f.confidence (codes " CONFIDENCE</span>")
    else []

evidence_text : Finding → Text
evidence_text f =
    if not (is_empty f.evidence.details)
    then between
        (codes "<br/><span style=\"color: #cbd5e1; font-size: 13px;\"><strong>Evidence:</strong> ")
        f.evidence.details (codes "</span>")
    else []

-- The entry of a finding
unfoldable pub html_finding : Finding → Text
unfolding confidence_badge evidence_text severity_class between
html_finding f =
    between
      (codes "<li style=\"margin-bottom: 12px; padding-left: 20px;\">\n\t\t\t\t\t<strong class=\"")
      (severity_class f.severity) (codes "\">[")
    ++ (between (severity_text f.severity) (codes "] ") f.title
        ++ (codes "</strong>"
            ++ (confidence_badge f
                ++ (between
                      (codes "<br/>\n\t\t\t\t\t<span style=\"color: #94a3b8; font-size: 13px;\">")
                      f.description (codes "</span>")
                    ++ (evidence_text f
                        ++ between (codes "<br/>\n\t\t\t\t\t<strong>Remediation:</strong> ")
                            f.recommendation (codes "\n\t\t\t\t</li>"))))))

html_findings : List Finding → Text
unfolding html_finding
html_findings [] = []
html_findings (f ∷ fs) = html_finding f ++ html_findings fs

html_session_findings : List EmailSession → Text
unfolding html_findings
html_session_findings [] = []
html_session_findings (s ∷ ss) =
    let rest = html_session_findings ss in
    if has_findings s
    then between (codes "<h3>") (session_title s) (codes "</h3><ul>")
      ++ (html_findings s.findings ++ (codes "</ul>" ++ rest))
    else rest

-- "Add detailed findings section"
unfoldable pub html_findings_section : List EmailSession → Text
unfolding html_session_findings
html_findings_section sessions =
    between (codes "<div class=\"section\"><h2>Detailed Findings</h2>")
      (html_session_findings sessions)
      (if not (any_findings sessions)
        then codes
            "<p style=\"color: #22c55e;\">No cryptographic vulnerabilities detected in this capture.</p></div>"
        else codes "</div>")

between-contains :
    (front text behind rest : Text) → contains (between front text behind ++ rest) text ≡ true
unfolding between
between-contains front text behind rest =
    let e : between front text behind ++ rest ≡ front ++ (text ++ (behind ++ rest)) =
      append_assoc front (text ++ behind) rest
      ∙ ap (λ r. front ++ r) (append_assoc text behind rest) in
    subst (λ page. contains page text ≡ true) (sym e) (contains-append front text (behind ++ rest))

-- The HTML report writes a session's cipher and a finding's description into the page as they are, also
-- where they hold markup.
html-contains :
    (s : EmailSession) (f : Finding)
    → (contains (html_session_row s) s.negotiated_cipher ≡ true)
      × (contains (html_finding f) f.description ≡ true)
unfolding html_session_row html_finding
html-contains s f = (
  contains-behind _ _ _
      (contains-behind s.tls_version _ _ (between-contains _ s.negotiated_cipher _ _)),
  contains-behind _ _ _ (
      contains-behind _ _ _ (
        contains-behind (codes "</strong>") _ _
          (contains-behind (confidence_badge f) _ _ (between-contains _ f.description _ _)))),
)
