-- ===== src/Analysis/Pipeline/World.antt =====
-- What the pipeline of backend/internal/analysis/service.go reads from outside the repository's backend,
-- and the state that it changes.
use secure_mail_scope_sih.Common.{ℕ, Bool, Option, List, [], ◌∷◌, ◌++◌, ◌⊎◌, Text, Bytes}
use secure_mail_scope_sih.Models.{
  AnalysisStatus, TlsInfo, Finding, AiAssessmentResult, EmailSession,
}
use secure_mail_scope_sih.X509.{Parse}
use secure_mail_scope_sih.Session.Reassembler.{ReassembledStream}
use secure_mail_scope_sih.Storage.Tables.{Database, Outcome, StorageError}
use secure_mail_scope_sih.Storage.Analyses.{Codec}
use secure_mail_scope_sih.Storage.Sessions.{Codecs}
use secure_mail_scope_sih.Analysis.Queue.{AiQueue}

-- A session of the AI engine's report
pub record AiSession : Type 0 where
  pub session_id : Text
  pub go_session_id : Text
  pub is_anomalous : Bool
  pub anomaly_score : Text
  pub findings : List Finding
  pub ai_assessment : Text
  pub ai_assessment_structured : Option AiAssessmentResult
  pub remediations : List Text

pub record AiReport : Type 0 where
  pub global_ai_assessment : Text
  pub sessions : List AiSession

-- How the Python process ends: its output lines, and the report where one is written that parses.
pub data AiRun : Type 0 where
  not_started : Text → AiRun
  ended_badly : List Text → AiRun
  without_report : List Text → AiRun
  reported : List Text → AiReport → AiRun

-- `read` is what `ReadPackets` and the reassembler yield for a path: the error's text, or the number
-- of packets and `GetStreams`. `tshark` is nothing where TShark is not available. `uuid` names a new
-- identifier for a finding, by its session and its place; `provider_at` answers `GetActiveProvider`
-- at the session with that number, since the router's health checks run beside the pipeline.
pub record Outside : Type 0 where
  pub read : Text → Text ⊎ ℕ × List ReassembledStream
  pub tshark : Text → Option (List TlsInfo)
  pub parse_certificate : Bytes → Parse
  pub hex_decode : Text → Option Bytes
  pub format_date : ℕ → Text
  pub format_time : ℕ → Text
  pub unix : ℕ → ℕ
  pub base : Text → Text
  pub uuid : Text → ℕ → Text
  pub ai_run : List EmailSession → AiRun
  pub provider_at : ℕ → Bool
  pub describe : StorageError → Text
  pub json : Codecs
  pub breakdowns : Codec (List (Text × ℕ))
  pub now : ℕ

-- `emitEvent` and `broadcastRawWSEvent`
pub data Event : Type 0 where
  progress : Text → AnalysisStatus → ℕ → Text → Event
  raw_event : Text → Event

-- `events` are those that were sent, in order; `removed` the capture files that were deleted.
pub record World : Type 0 where
  pub db : Database
  pub queue : AiQueue EmailSession
  pub events : List Event
  pub removed : List Text

unfoldable pub send : Event → World → World
send e w = record w { events = w.events ++ e ∷ [] }

-- `_ = s.repo...`
unfoldable pub store : (Database → Outcome × Database) → World → World
store change w = record w { db = (change w.db).1 }
