-- ===== src/Protocol/Selection.antt =====
-- Which protocol the detector of backend/internal/protocol/detector.go picks.
use secure_mail_scope_sih.Common.{
  ℕ, ◌≤◌, ◌<◌, ◌≡◌, refl, ◌≢◌, Bool, true, false, ◌||◌, List, arith, Text, Bytes,
}
use secure_mail_scope_sih.Models.{EmailProtocol, smtp, imap, pop3, unknown_protocol}
use secure_mail_scope_sih.Protocol.Detector.{
  ProtocolDetection, is_smtp_port, is_imap_port, is_pop3_port, smtp_signals, imap_signals,
  pop3_signals, score, capped, select, payload_signals, detect,
}

-- The score of each protocol on a stream; a stream that is of no protocol has 0.
abbrev pub stream_score : ℕ → ℕ → Bytes → EmailProtocol → ℕ
stream_score src dst payload smtp =
    score (is_smtp_port dst || is_smtp_port src) (payload_signals smtp_signals payload)
stream_score src dst payload imap =
    score (is_imap_port dst || is_imap_port src) (payload_signals imap_signals payload)
stream_score src dst payload pop3 =
    score (is_pop3_port dst || is_pop3_port src) (payload_signals pop3_signals payload)
stream_score src dst payload unknown_protocol = 0

-- What is asked of a choice among three scores.
pub record IsBest (scores : EmailProtocol → ℕ) (d : ProtocolDetection) : Type 0 where
  pub best : (p : EmailProtocol) → scores p ≤ scores d.protocol
  pub positive : d.protocol ≢ unknown_protocol → 0 < scores d.protocol
  pub confident : d.confidence ≡ capped (scores d.protocol)

select-IsBest :
    (scores : EmailProtocol → ℕ) (evidence : List Text)
    → scores unknown_protocol ≡ 0
    → IsBest scores (select (scores smtp) (scores imap) (scores pop3) evidence)
unfolding select
select-IsBest scores evidence z = record {
  best = λ p. best p;
  positive = ground arith;
  confident = ground arith;
}
  where
    best :
        (p : EmailProtocol)
        → scores p ≤ scores (select (scores smtp) (scores imap) (scores pop3) evidence).protocol
    best smtp = ground arith
    best imap = ground arith
    best pop3 = ground arith
    best unknown_protocol = ground arith

-- On every stream no protocol scores higher than the one detected, a protocol that is detected scores
-- above 0, and the confidence is its score in tenths, capped at 10.
pub detect-IsBest :
    (src dst : ℕ) (payload : Bytes) → IsBest (stream_score src dst payload) (detect src dst payload)
unfolding detect
detect-IsBest src dst payload = select-IsBest (stream_score src dst payload) _ refl

or_comm : (a b : Bool) → (a || b) ≡ (b || a)
or_comm true true = refl
or_comm true false = refl
or_comm false true = refl
or_comm false false = refl

-- Detection does not depend on which end is named first, so that asking for both orders of the ports,
-- as `ExecutePipeline` does, asks the same question twice.
pub detect_comm : (src dst : ℕ) (payload : Bytes) → detect src dst payload ≡ detect dst src payload
unfolding detect
detect_comm src dst payload = rw (
  or_comm (is_smtp_port dst) (is_smtp_port src),
  or_comm (is_imap_port dst) (is_imap_port src),
  or_comm (is_pop3_port dst) (is_pop3_port src),
)
