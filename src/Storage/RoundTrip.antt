-- ===== src/Storage/RoundTrip.antt =====
-- What `GetSession` of backend/internal/storage/sqlite.go reads of a session that `SaveSession` wrote.
use secure_mail_scope_sih.Common.{
  ◌≡◌, refl, sym, ap, ◌∙◌, true, none, List, [], ◌∷◌, ◌++◌, map, inr, All, Text, text_eq,
  text_eq_iff,
}
use mathlib.Core.Path.{subst}
use mathlib.Core.List.{append-nil, append_assoc}
use secure_mail_scope_sih.Models.{Finding, EmailSession}
use secure_mail_scope_sih.Storage.Tables.{
  FindingRow, Database, and_then, first_row, rows_where, delete_where, insert_or_replace,
}
use secure_mail_scope_sih.Storage.Sessions.{
  Codecs, session_row, finding_row, has_session_id, has_finding_id, finding_in_session, put_session,
  put_finding, save_finding, save_findings, save_session,
}
use secure_mail_scope_sih.Storage.Loads.{
  session_of, finding_of, get_findings_for_session, found_or_none, finish_session, get_session,
}
use secure_mail_scope_sih.Storage.Stored.{
  Reads, stored_session, session_of-session_row, finding_of-finding_row,
}
use secure_mail_scope_sih.Storage.Rows.{
  NoRow, rows_where-append, rows_where-delete_none, rows_where-insert_or_replace,
}
use secure_mail_scope_sih.Storage.Statements.{
  IsWilling, exec-IsWilling, query-IsWilling, query_row-IsWilling,
}

-- Each finding's id is new among the rows, and among the findings before it.
abbrev pub IsFresh : Codecs → Text → List Finding → List FindingRow → Type 0
IsFresh json id [] rows = Unit
IsFresh json id (f ∷ fs) rows =
    NoRow (has_finding_id f.id) rows × IsFresh json id fs (rows ++ finding_row json id f ∷ [])

-- The findings belong to the session.
abbrev pub AreIn : Text → List Finding → Type 0
AreIn session_id = All (λ f. text_eq f.session_id session_id ≡ true)

-- A new finding of the session gets the last row.
put_finding-rows :
    (json : Codecs) (id session_id : Text) (f : Finding) (db : Database)
    → text_eq f.session_id session_id ≡ true
    → NoRow (has_finding_id f.id) (rows_where (finding_in_session session_id) db.findings)
    → rows_where (finding_in_session session_id) (put_finding (finding_row json id f) db).findings
      ≡ rows_where (finding_in_session session_id) db.findings ++ finding_row json id f ∷ []
unfolding put_finding insert_or_replace finding_row finding_in_session rows_where
put_finding-rows json id session_id f db own fresh =
    let p = finding_in_session session_id in
    let row = finding_row json id f in
    rows_where-append p (delete_where (has_finding_id f.id) db.findings) (row ∷ [])
    ∙ rw (rows_where-delete_none p (has_finding_id f.id) db.findings fresh) (rw own refl)

-- The findings' rows stand behind those of the session that were there, and the driver took all.
save_findings-rows :
    (json : Codecs) (id session_id : Text) (fs : List Finding) (db : Database)
    → IsWilling db
    → AreIn session_id fs
    → IsFresh json id fs (rows_where (finding_in_session session_id) db.findings)
    → let (outcome, saved) = save_findings json id fs db in
      (outcome ≡ none)
      × IsWilling saved
      × (saved.sessions ≡ db.sessions)
      × (rows_where (finding_in_session session_id) saved.findings
          ≡ rows_where (finding_in_session session_id) db.findings ++ map (finding_row json id) fs)
unfolding save_findings save_finding put_finding
save_findings-rows json id session_id [] db w own fresh =
    (refl, w, refl, sym (append-nil (rows_where (finding_in_session session_id) db.findings)))
save_findings-rows json id session_id (f ∷ fs) db w own fresh =
    let behind = put_finding-rows json id session_id f db own.0 fresh.0 in
    let (taken, willing, kept, rows) =
      save_findings-rows json id session_id fs (put_finding (finding_row json id f) db) w own.1
        (subst (λ r. IsFresh json id fs r) (sym behind) fresh.1) in
    rw (exec-IsWilling (put_finding (finding_row json id f)) db w) (
      taken,
      willing,
      kept,
      rows
          ∙ ap (λ r. r ++ map (finding_row json id) fs) behind
          ∙ append_assoc (rows_where (finding_in_session session_id) db.findings)
              (finding_row json id f ∷ []) (map (finding_row json id) fs),
    )

-- The findings of the session that are read where the driver takes the query.
finish_session-rows :
    (json : Codecs) (s : EmailSession) (rows : List FindingRow) (db : Database)
    → IsWilling db
    → rows_where (finding_in_session s.id) db.findings ≡ rows
    → (finish_session json (inr s, db)).0 ≡ inr (record s { findings = map (finding_of json) rows })
unfolding finish_session get_findings_for_session found_or_none
finish_session-rows json s rows db w e =
    ap (λ r. inr (record s { findings = found_or_none r.0 }))
      (query-IsWilling
        (λ ready. map (finding_of json) (rows_where (finding_in_session s.id) ready.findings)) db w)
    ∙ ap (λ r. inr (record s { findings = map (finding_of json) r })) e

-- A session that is saved is read back: the driver takes the statements, no finding of the session is
-- stored yet, the session's findings are its own and have different ids, and JSON reads what it wrote.
pub save_session-get_session :
    (json : Codecs) (s : EmailSession) (db : Database)
    → IsWilling db
    → Reads json s
    → AreIn s.id s.findings
    → IsFresh json s.analysis_id s.findings []
    → rows_where (finding_in_session s.id) db.findings ≡ []
    → let (outcome, saved) = save_session json s db in
      (outcome ≡ none) × ((get_session json s.id saved).0 ≡ inr (stored_session s))
unfolding save_session get_session put_session and_then stored_session first_row has_session_id
    session_row
save_session-get_session json s db w reads own fresh none_there =
    let row = session_row json s in
    let put = put_session row db in
    let (taken, willing, kept, rows) =
      save_findings-rows json s.analysis_id s.id s.findings put w own
        (subst (λ r. IsFresh json s.analysis_id s.findings r) (sym none_there) fresh) in
    let saved = (save_findings json s.analysis_id s.findings put).1 in
    let the_row : rows_where (has_session_id s.id) saved.sessions ≡ row ∷ [] =
      ap (rows_where (has_session_id s.id)) kept
      ∙ rows_where-insert_or_replace (has_session_id s.id) row db.sessions
          ((text_eq_iff s.id s.id).1 refl) in
    rw (exec-IsWilling (put_session row) db w) (
      taken,
      ap (λ r. (finish_session json r).0) (query_row-IsWilling _ saved willing)
          ∙ ap (λ rs. (finish_session json (first_row (map (session_of json) rs), saved)).0) the_row
          ∙ ap (λ x. (finish_session json (inr x, saved)).0) (session_of-session_row json s reads)
          ∙ finish_session-rows json (record (stored_session s) { findings = [] }) _ saved willing
              (rows ∙ ap (λ r. r ++ map (finding_row json s.analysis_id) s.findings) none_there)
          ∙ ap (λ fs. inr (record (stored_session s) { findings = fs }))
              (finding_of-finding_row json s.analysis_id s.findings reads.evidence),
    )
