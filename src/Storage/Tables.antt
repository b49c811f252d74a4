-- ===== src/Storage/Tables.antt =====
-- The tables of backend/internal/storage/sqlite.go and the statements on them, as SQL means them. The
-- rows of a table stand in the order of their row ids, in which SQLite scans a table. The driver may
-- refuse any statement (a disk that is full, a lock): which ones it refuses is part of the state.
use secure_mail_scope_sih.Common.{
  ℕ, Bool, false, not, Option, none, some, List, [], ◌∷◌, ◌++◌, ◌⊎◌, inl, inr, if◌then◌else◌, any,
  Text,
}
use secure_mail_scope_sih.Models.{
  AnalysisStatus, Severity, EmailProtocol, ForwardSecrecyStatus, Ratio,
}

pub record AnalysisRow : Type 0 where
  pub id : Text
  pub pcap_path : Text
  pub pcap_filename : Text
  pub status : AnalysisStatus
  pub started_at : ℕ
  pub finished_at : Option ℕ
  pub total_packets : ℕ
  pub total_sessions : ℕ
  pub overall_score : Ratio
  pub overall_severity : Severity
  pub forward_secrecy_pct : Ratio
  pub severity_breakdown : Text
  pub error : Text
  pub global_ai_assessment : Text

pub record SessionRow : Type 0 where
  pub id : Text
  pub analysis_id : Text
  pub client_ip : Text
  pub client_port : ℕ
  pub server_ip : Text
  pub server_port : ℕ
  pub protocol : EmailProtocol
  pub start_time : ℕ
  pub end_time : ℕ
  pub packet_count : ℕ
  pub client_bytes : ℕ
  pub server_bytes : ℕ
  pub stream_complete : ℕ
  pub reassembly_gap : ℕ
  pub start_tls_json : Text
  pub tls_json : Text
  pub certificate_json : Text
  pub forward_secrecy : ForwardSecrecyStatus
  pub anomaly_score : Text
  pub is_anomalous : ℕ
  pub scores_json : Text
  pub ai_assessment : Text
  pub ai_assessment_structured : Text
  pub remediations_json : Text

pub record FindingRow : Type 0 where
  pub id : Text
  pub analysis_id : Text
  pub session_id : Text
  pub title : Text
  pub severity : Severity
  pub category : Text
  pub description : Text
  pub evidence_json : Text
  pub recommendation : Text

-- `refusals` says of each statement to come whether the driver refuses it; behind its end none is.
pub record Database : Type 0 where
  pub analyses : List AnalysisRow
  pub sessions : List SessionRow
  pub findings : List FindingRow
  pub refusals : List Bool

pub data StorageError : Type 0 where
  refused unique_violated no_rows : StorageError

-- What a statement without rows answers: its error, if any.
abbrev pub Outcome : Type 0
Outcome = Option StorageError

abbrev pub Reply {ℓ} : Type ℓ → Type ℓ
Reply A = StorageError ⊎ A

refuses_next : List Bool → Bool
refuses_next [] = false
refuses_next (r ∷ rs) = r

later : List Bool → List Bool
later [] = []
later (r ∷ rs) = rs

-- The state in which a statement runs that the driver takes, and whether it takes it.
unfoldable pub statement : Database → Bool × Database
unfolding refuses_next later
statement db = (refuses_next db.refusals, record db { refusals = later db.refusals })

-- `db.Exec` of a statement that violates no constraint
unfoldable pub exec : (Database → Database) → Database → Outcome × Database
unfolding statement
exec change db =
    let (refuses, ready) = statement db in
    if refuses then (some refused, ready) else (none, change ready)

-- `if err != nil { return err }` between two statements
unfoldable pub and_then : Outcome × Database → (Database → Outcome × Database) → Outcome × Database
and_then (none, db) next = next db
and_then (some e, db) next = (some e, db)

-- `db.Query`
unfoldable pub query {ℓ} : {A : Type ℓ} → (Database → A) → Database → Reply A × Database
unfolding statement
query read db =
    let (refuses, ready) = statement db in
    if refuses then (inl refused, ready) else (inr (read ready), ready)

unfoldable pub first_row {ℓ} : {A : Type ℓ} → List A → Reply A
first_row [] = inl no_rows
first_row (row ∷ rows) = inr row

-- `db.QueryRow` and its `Scan`
unfoldable pub query_row {ℓ} : {A : Type ℓ} → (Database → List A) → Database → Reply A × Database
unfolding statement first_row
query_row read db =
    let (refuses, ready) = statement db in
    if refuses then (inl refused, ready) else (first_row (read ready), ready)

module _ {ℓ} {A : Type ℓ} where
  -- `WHERE`
  unfoldable pub rows_where : (A → Bool) → List A → List A
  rows_where p [] = []
  rows_where p (row ∷ rows) = let rest = rows_where p rows in if p row then row ∷ rest else rest

  -- `DELETE ... WHERE`
  unfoldable pub delete_where : (A → Bool) → List A → List A
  delete_where p rows = rows_where (λ row. not (p row)) rows

  -- `UPDATE ... WHERE`
  unfoldable pub update_where : (A → Bool) → (A → A) → List A → List A
  update_where p change [] = []
  update_where p change (row ∷ rows) =
      let rest = update_where p change rows in if p row then change row ∷ rest else row ∷ rest

  -- `INSERT OR REPLACE`: the rows with the new row's key go, and the row gets the last row id.
  unfoldable pub insert_or_replace : (A → Bool) → A → List A → List A
  unfolding delete_where
  insert_or_replace same row rows = delete_where same rows ++ row ∷ []

  -- `INSERT`, which fails where a row has the key
  unfoldable pub insert_unique : (A → Bool) → A → List A → Reply (List A)
  insert_unique same row rows =
      if any same rows then inl unique_violated else inr (rows ++ row ∷ [])
