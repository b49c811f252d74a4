-- ===== src/Api/Queries.antt =====
-- The handlers of backend/internal/api/handlers.go that create, list, start and read analyses, sessions
-- and findings.
use secure_mail_scope_sih.Common.{
  ℕ, Bool, not, ◌&&◌, Option, none, some, List, [], ◌∷◌, inl, inr, if◌then◌else◌, Text, codes,
  text_eq,
}
use secure_mail_scope_sih.Models.{Analysis, EmailSession, Finding}
use secure_mail_scope_sih.Storage.Tables.{Database, Reply}
use secure_mail_scope_sih.Storage.Analyses.{Codec, get_analysis, list_analyses}
use secure_mail_scope_sih.Storage.Sessions.{Codecs}
use secure_mail_scope_sih.Storage.Loads.{
  get_sessions_for_analysis, get_session, get_findings_for_analysis, get_finding,
}
use secure_mail_scope_sih.Api.Response.{Response, ok, fails}

-- A query whose failure is the server's, and one whose failure means that the row is not there.
unfoldable pub or_query_failed {ℓ} : {A : Type ℓ} → Reply A × Database → Response A × Database
or_query_failed (inl e, db) = (fails 500 (codes "QUERY_FAILED"), db)
or_query_failed (inr a, db) = (ok a, db)

unfoldable pub or_not_found {ℓ} : {A : Type ℓ} → Reply A × Database → Response A × Database
or_not_found (inl e, db) = (fails 404 (codes "NOT_FOUND"), db)
or_not_found (inr a, db) = (ok a, db)

-- The tests of `UploadPCAP`: the file's extension, then whether it can be created and written.
unfoldable pub upload_pcap : Option Text → Bool → Bool → Text → Response Text
upload_pcap none created written save_path = fails 400 (codes "MISSING_FILE")
upload_pcap (some ext) created written save_path =
    if not (text_eq ext (codes ".pcap"))
      && (not (text_eq ext (codes ".pcapng")) && not (text_eq ext (codes ".cap")))
    then fails 400 (codes "INVALID_FILE_TYPE")
    else if not created
    then fails 500 (codes "SAVE_FAILED")
    else if not written
    then fails 500 (codes "SAVE_FAILED")
    else ok save_path

module _ (json : Codecs) (breakdowns : Codec (List (Text × ℕ))) where
  -- `ListAnalyses`
  unfoldable pub list_analyses_handler : Database → Response (List Analysis) × Database
  unfolding or_query_failed
  list_analyses_handler db = or_query_failed (list_analyses breakdowns db)

  -- `GetAnalysis`
  unfoldable pub get_analysis_handler : Text → Database → Response Analysis × Database
  unfolding or_not_found
  get_analysis_handler id db = or_not_found (get_analysis breakdowns id db)

  started : Text → Response Analysis × Database → Response Text × (Database × List Text)
  started id (ok a, db) = (ok id, (db, id ∷ []))
  started id (fails status text, db) = (fails status text, (db, []))
  started id (Response.panics, db) = (Response.panics, (db, []))

  -- `StartAnalysis`: the answer, and the analyses whose pipeline it starts.
  unfoldable pub start_analysis_handler : Text → Database → Response Text × (Database × List Text)
  unfolding get_analysis_handler started
  start_analysis_handler id db = started id (get_analysis_handler id db)

  -- `GetAnalysisSessions`
  unfoldable pub get_analysis_sessions_handler :
      Text → Database → Response (List EmailSession) × Database
  unfolding or_query_failed
  get_analysis_sessions_handler id db = or_query_failed (get_sessions_for_analysis json id db)

  -- `GetSessionDetail`
  unfoldable pub get_session_detail_handler : Text → Database → Response EmailSession × Database
  unfolding or_not_found
  get_session_detail_handler id db = or_not_found (get_session json id db)

  -- `GetAnalysisFindings`
  unfoldable pub get_analysis_findings_handler :
      Text → Database → Response (List Finding) × Database
  unfolding or_query_failed
  get_analysis_findings_handler id db = or_query_failed (get_findings_for_analysis json id db)

  -- `GetFindingDetail`
  unfoldable pub get_finding_detail_handler : Text → Database → Response Finding × Database
  unfolding or_not_found
  get_finding_detail_handler id db = or_not_found (get_finding json id db)
