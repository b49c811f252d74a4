-- ===== src/Api/Response.antt =====
-- The answers of the handlers of backend/internal/api/handlers.go.
use secure_mail_scope_sih.Common.{ℕ, Text}

-- `c.JSON(http.StatusOK, value)`, `c.JSON(status, gin.H{"error": ...})` with the error's code or text,
-- and a panic, which gin answers with the status 500.
pub data Response {ℓ} (A : Type ℓ) : Type ℓ where
  ok : A → Response A
  fails : ℕ → Text → Response A
  panics : Response A

-- The status of an answer
unfoldable pub status_code {ℓ} : {A : Type ℓ} → Response A → ℕ
status_code (ok a) = 200
status_code (fails status text) = status
status_code panics = 500
