-- ===== src/Storage/Stored.antt =====
-- What `encoding/json` has to read back of a session, and the session that backend/internal/storage/sqlite.go
-- then reads of the row that it wrote.
use secure_mail_scope_sih.Common.{
  ◌≡◌, refl, sym, ap, Bool, true, false, Option, none, some, List, [], ◌∷◌, map, arith, Bool-cases,
  inl, inr, All, Text, text_eq, is_empty, codes, ◌==◌,
}
use mathlib.Core.Bool.{not}
use mathlib.Core.Option
use secure_mail_scope_sih.Models.{
  Finding, EmailSession, TlsInfo, AiAssessmentResult, other_severity,
}
use secure_mail_scope_sih.Analysis.Scores.{is_fs_yes}
use secure_mail_scope_sih.Storage.Analyses.{Codec}
use secure_mail_scope_sih.Storage.Sessions.{
  Codecs, int_of, encode_if_set, encode_pointer, session_row, finding_row,
}
use secure_mail_scope_sih.Storage.Loads.{
  fill_or, fill_pointer, fill_if_set, has_content, fill_structured, fill_remediations, text_of_tls,
  session_of, finding_of,
}

-- What the JSON text of a value reads as, where a test decides that the text is read.
abbrev pub ReadsAs : {A : Type 0} → Codec A → (Text → Bool) → A → A → Type 0
ReadsAs codec is_read a b =
    (is_read (codec.encode a) ≡ true)
    × (codec.accepts (codec.encode a) ≡ true)
    × (codec.fills (codec.encode a) ≡ b)

abbrev pub IfSet : {A : Type 0} → (A → Type 0) → Option A → Type 0
IfSet P none = Unit
IfSet P (some a) = P a

unfoldable pub has_text : Text → Bool
has_text text = not (is_empty text)

-- `RawCertificates` has the tag `json:"-"`.
unfoldable pub without_raw : TlsInfo → TlsInfo
without_raw t = record t { raw_certificates = [] }

-- `encoding/json` reads the values of a session back as it wrote them, but for the raw certificates;
-- an object's text is not empty, "{}" or "null", and a list's text is "[]" or "null" only for no items.
pub record Reads (json : Codecs) (s : EmailSession) : Type 0 where
  pub start_tls : ReadsAs json.start_tls has_text s.start_tls s.start_tls
  pub scores : ReadsAs json.scores has_text s.scores s.scores
  pub tls : IfSet (λ t. ReadsAs json.tls has_text t (without_raw t)) s.tls
  pub certificate : IfSet (λ c. ReadsAs json.certificate has_text c c) s.certificate
  pub structured :
      IfSet (λ a. ReadsAs json.structured (has_content (codes "{}")) a a) s.ai_assessment_structured
  pub remediations :
      (has_content (codes "[]") (json.remediations.encode s.remediations) ≡ false
        → s.remediations ≡ [])
      × (json.remediations.fills (json.remediations.encode s.remediations) ≡ s.remediations)
  pub evidence :
      All (λ f. json.evidence.fills (json.evidence.encode f.evidence) ≡ f.evidence) s.findings

unfoldable pub without_confidence : Finding → Finding
without_confidence f = record f { confidence = [] }

-- What is read of a session: not its events, the confidence of its findings and the raw certificates;
-- its rating is 0 and "", and the flat fields are those of the stored values.
unfoldable pub stored_session : EmailSession → EmailSession
unfolding without_raw without_confidence
stored_session s =
    let tls = Option.map without_raw s.tls in
    record s {
      tls = tls;
      findings = map without_confidence s.findings;
      protocol_events = [];
      session_id = s.id;
      src_ip = s.client.ip;
      dst_ip = s.server.ip;
      tls_version = text_of_tls (λ t. t.version) tls;
      negotiated_cipher = text_of_tls (λ t. t.cipher_suite) tls;
      signature_algorithm = text_of_tls (λ t. t.signature_algorithm) tls;
      risk_score = 0;
      severity = other_severity [];
      has_forward_secrecy = is_fs_yes s.forward_secrecy;
    }

int_of_back : (b : Bool) → (int_of b == 1) ≡ b
unfolding int_of
int_of_back true = refl
int_of_back false = refl

has_text_set : (text : Text) → has_text text ≡ true → is_empty text ≡ false
unfolding has_text
has_text_set text h = ground (arith, h)

fill_or_read :
    {A : Type 0} (codec : Codec A) (unset a : A)
    → ReadsAs codec has_text a a
    → fill_or codec unset (codec.encode a) ≡ a
unfolding fill_or
fill_or_read codec unset a h = rw (has_text_set _ h.0) h.2

fill_if_set_read :
    {A : Type 0} (codec : Codec A) (change : A → A) (o : Option A)
    → IfSet (λ a. ReadsAs codec has_text a (change a)) o
    → fill_if_set codec (encode_if_set codec o) ≡ Option.map change o
unfolding fill_if_set fill_pointer encode_if_set is_empty
fill_if_set_read codec change none h = refl
fill_if_set_read codec change (some a) h = rw (has_text_set _ h.0) (rw h.1 (ap some h.2))

fill_if_set_same :
    {A : Type 0} (codec : Codec A) (o : Option A)
    → IfSet (λ a. ReadsAs codec has_text a a) o
    → fill_if_set codec (encode_if_set codec o) ≡ o
fill_if_set_same codec none h = fill_if_set_read codec (λ a. a) none h
fill_if_set_same codec (some a) h = fill_if_set_read codec (λ a. a) (some a) h

fill_structured_read :
    (codec : Codec AiAssessmentResult) (o : Option AiAssessmentResult)
    → IfSet (λ a. ReadsAs codec (has_content (codes "{}")) a a) o
    → fill_structured codec (encode_pointer codec o) ≡ o
unfolding fill_structured fill_pointer encode_pointer has_content is_empty codes text_eq
fill_structured_read codec none h = refl
fill_structured_read codec (some a) h = rw h.0 (rw h.1 (ap some h.2))

fill_remediations_read :
    (codec : Codec (List Text)) (r : List Text)
    → (has_content (codes "[]") (codec.encode r) ≡ false → r ≡ [])
    → codec.fills (codec.encode r) ≡ r
    → fill_remediations codec (codec.encode r) ≡ r
unfolding fill_remediations
fill_remediations_read codec r none_read read =
    elim (Bool-cases (has_content (codes "[]") (codec.encode r))) [
      | inl e ↦ rw e read
      | inr e ↦ rw e (sym (none_read e))
    ]

-- The row of a session reads as the stored session, without the findings.
pub session_of-session_row :
    (json : Codecs) (s : EmailSession)
    → Reads json s
    → session_of json (session_row json s) ≡ record (stored_session s) { findings = [] }
unfolding session_of session_row stored_session
session_of-session_row json s h =
    rw (fill_or_read json.start_tls json.no_start_tls s.start_tls h.start_tls) (
      rw (fill_or_read json.scores json.no_scores s.scores h.scores) (
        rw (fill_if_set_read json.tls without_raw s.tls h.tls) (
          rw (fill_if_set_same json.certificate s.certificate h.certificate) (
            rw (fill_structured_read json.structured s.ai_assessment_structured h.structured) (
              rw
                (fill_remediations_read json.remediations s.remediations h.remediations.0
                  h.remediations.1)
                (rw (int_of_back s.stream_complete)
                  (rw (int_of_back s.reassembly_gap) (rw (int_of_back s.is_anomalous) refl))))))))

pub finding_of-finding_row :
    (json : Codecs) (id : Text) (fs : List Finding)
    → All (λ f. json.evidence.fills (json.evidence.encode f.evidence) ≡ f.evidence) fs
    → map (finding_of json) (map (finding_row json id) fs) ≡ map without_confidence fs
unfolding finding_of finding_row without_confidence
finding_of-finding_row json id [] h = refl
finding_of-finding_row json id (f ∷ fs) h =
    rw h.0 (ap (λ r. without_confidence f ∷ r) (finding_of-finding_row json id fs h.1))
