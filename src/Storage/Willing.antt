-- ===== src/Storage/Willing.antt =====
-- A driver that takes every statement to come does so behind each operation of
-- backend/internal/storage/sqlite.go.
use secure_mail_scope_sih.Common.{ℕ, refl, ap, ◌∙◌, List, [], ◌∷◌, Text}
use secure_mail_scope_sih.Models.{Finding, EmailSession}
use secure_mail_scope_sih.Storage.Tables.{AnalysisRow, Database, exec}
use secure_mail_scope_sih.Storage.Analyses.{
  Codec, delete_analysis, delete_sessions, delete_findings, delete_analysis_row, get_analysis,
  update_analysis,
}
use secure_mail_scope_sih.Storage.Sessions.{
  Codecs, put_session, put_finding, session_row, finding_row, save_finding, save_findings,
  save_session,
}
use secure_mail_scope_sih.Storage.Statements.{
  and_then-Holds, IsWilling, exec-keeps_willing, query_row-IsWilling,
}

pub delete_analysis-IsWilling :
    (id : Text) (db : Database) → IsWilling db → IsWilling (delete_analysis id db).1
unfolding delete_analysis delete_sessions delete_findings delete_analysis_row
delete_analysis-IsWilling id db h =
    exec-keeps_willing (delete_analysis_row id) _ (λ d. refl)
      (exec-keeps_willing (delete_findings id) _ (λ d. refl)
        (exec-keeps_willing (delete_sessions id) db (λ d. refl) h))

pub update_analysis-IsWilling :
    (id : Text) (change : AnalysisRow → AnalysisRow) (db : Database)
    → IsWilling db
    → IsWilling (update_analysis id change db).1
unfolding update_analysis
update_analysis-IsWilling id change db h = exec-keeps_willing _ db (λ d. refl) h

pub get_analysis-IsWilling :
    (breakdowns : Codec (List (Text × ℕ))) (id : Text) (db : Database)
    → IsWilling db
    → IsWilling (get_analysis breakdowns id db).1
unfolding get_analysis
get_analysis-IsWilling breakdowns id db h = ap (λ r. r.1.refusals) (query_row-IsWilling _ db h) ∙ h

save_findings-IsWilling :
    (json : Codecs) (id : Text) (fs : List Finding) (db : Database)
    → IsWilling db
    → IsWilling (save_findings json id fs db).1
unfolding save_findings save_finding put_finding
save_findings-IsWilling json id [] db h = h
save_findings-IsWilling json id (f ∷ fs) db h =
    and_then-Holds IsWilling (save_finding json id f db) _
      (exec-keeps_willing (put_finding (finding_row json id f)) db (λ d. refl) h)
      (λ d k. save_findings-IsWilling json id fs d k)

pub save_session-IsWilling :
    (json : Codecs) (s : EmailSession) (db : Database)
    → IsWilling db
    → IsWilling (save_session json s db).1
unfolding save_session put_session
save_session-IsWilling json s db h =
    and_then-Holds IsWilling (exec (put_session (session_row json s)) db) _
      (exec-keeps_willing (put_session (session_row json s)) db (λ d. refl) h)
      (λ d k. save_findings-IsWilling json s.analysis_id s.findings d k)
