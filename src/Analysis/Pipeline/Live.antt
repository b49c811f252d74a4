-- ===== src/Analysis/Pipeline/Live.antt =====
-- The pipeline of backend/internal/analysis/service.go takes no analysis for a live capture: it looks for
-- "live-capture" in the path of the copy, and not in the name of the file.
use secure_mail_scope_sih.Common.{
  ℕ, zero, suc, ◌≡◌, refl, sym, ap, ◌∙◌, inl, inr, Bool, true, false, ◌&&◌, ◌||◌, [], ◌∷◌, ◌++◌,
  arith, Bool-cases, All, Text, codes, contains, has_byte, contains-has_byte, take, leb, ◌==◌,
}
use mathlib.Core.Bool.{true≢false}
use secure_mail_scope_sih.Analysis.Pipeline.Build.{is_live}
use secure_mail_scope_sih.Analysis.Pipeline.Run.{stored_path, new_analysis}

-- The characters of a UUID: lower hexadecimal digits and dashes.
unfoldable pub is_uuid_byte : ℕ → Bool
is_uuid_byte c = (leb 48 c && leb c 57) || ((leb 97 c && leb c 102) || c == 45)

has_byte-append : (b : ℕ) (s t : Text) → has_byte b (s ++ t) ≡ has_byte b s || has_byte b t
unfolding has_byte
has_byte-append b [] t = refl
has_byte-append b (c ∷ s) t = ground (arith, has_byte-append b s t)

uuid-has_byte :
    (n : ℕ) (uuid : Text)
    → All (λ c. is_uuid_byte c ≡ true) uuid
    → has_byte 118 (take n uuid) ≡ false
unfolding has_byte take is_uuid_byte
uuid-has_byte zero uuid h = refl
uuid-has_byte (suc n) [] h = refl
uuid-has_byte (suc n) (c ∷ s) h = let rest = uuid-has_byte n s h.1 in let own = h.0 in ground arith

path-has_byte :
    (n : ℕ) (uuid : Text)
    → All (λ c. is_uuid_byte c ≡ true) uuid
    → has_byte 118 (stored_path (codes "analysis-" ++ take n uuid)) ≡ false
unfolding stored_path codes has_byte
path-has_byte n uuid h =
    has_byte-append 118 (codes "/data/analyses/")
      ((codes "analysis-" ++ take n uuid) ++ codes "/capture.pcap")
    ∙ has_byte-append 118 (codes "analysis-" ++ take n uuid) (codes "/capture.pcap")
    ∙ ap (λ b. b || has_byte 118 (codes "/capture.pcap"))
        (has_byte-append 118 (codes "analysis-") (take n uuid) ∙ uuid-has_byte n uuid h)

-- An analysis that is created is no live capture to the pipeline, whatever the name of its file.
pub new_analysis-is_live :
    (uuid filename : Text) (now : ℕ)
    → All (λ c. is_uuid_byte c ≡ true) uuid
    → is_live (new_analysis uuid filename now) ≡ false
unfolding is_live new_analysis codes has_byte
new_analysis-is_live uuid filename now h =
    let path = (new_analysis uuid filename now).pcap_path in
    elim (Bool-cases (contains path (codes "live-capture"))) [
      | inl e ↦ absurd (
          true≢false (
            sym (contains-has_byte 118 path (codes "live-capture") e refl)
            ∙ path-has_byte 8 uuid h))
      | inr e ↦ e
    ]
