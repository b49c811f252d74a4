-- ===== src/Storage/Unique.antt =====
-- The primary keys of the tables of backend/internal/storage: no two rows share one.
use secure_mail_scope_sih.Common.{
  ◌≡◌, sym, ◌∙◌, ◌≢◌, Bool, false, List, [], ◌∷◌, ◌++◌, Bool-cases, inl, inr, All, any, Text,
  text_eq, text_eq_iff,
}
use mathlib.Core.Bool.{true≢false}
use secure_mail_scope_sih.Storage.Tables.{rows_where, delete_where, update_where, insert_or_replace}
use secure_mail_scope_sih.Storage.Rows.{NoRow, NoRow-delete_where, All-rows_where, All-update_where}

module _ {ℓ} {A : Type ℓ} (key : A → Text) where
  -- No two rows have the same key.
  abbrev pub IsUnique : List A → Type 0
  IsUnique [] = Unit
  IsUnique (row ∷ rows) = All (λ r. key r ≢ key row) rows × IsUnique rows

  pub IsUnique-rows_where :
      (p : A → Bool) (rows : List A) → IsUnique rows → IsUnique (rows_where p rows)
  unfolding rows_where
  IsUnique-rows_where p [] h = tt
  IsUnique-rows_where p (row ∷ rows) h = elim (Bool-cases (p row)) [
    | inl e ↦ rw e (All-rows_where _ p rows h.0, IsUnique-rows_where p rows h.1)
    | inr e ↦ rw e (IsUnique-rows_where p rows h.1)
  ]

  pub IsUnique-update_where :
      (p : A → Bool) (change : A → A) (rows : List A)
      → ((row : A) → key (change row) ≡ key row)
      → IsUnique rows
      → IsUnique (update_where p change rows)
  unfolding update_where
  IsUnique-update_where p change [] named h = tt
  IsUnique-update_where p change (row ∷ rows) named h =
      let rest = IsUnique-update_where p change rows named h.1 in
      let apart : All (λ r. key r ≢ key row) (update_where p change rows) =
        All-update_where _ p change rows (λ r k e. k (sym (named r) ∙ e)) h.0 in
      elim (Bool-cases (p row)) [
        | inl e ↦ rw (e, named row) (apart, rest)
        | inr e ↦ rw e (apart, rest)
      ]

  All-last :
      (r : A) (rows : List A) (row : A)
      → text_eq (key r) (key row) ≡ false
      → All (λ s. key s ≢ key r) rows
      → All (λ s. key s ≢ key r) (rows ++ row ∷ [])
  All-last r [] row e h = (λ p. true≢false (sym ((text_eq_iff _ _).1 (sym p)) ∙ e), tt)
  All-last r (s ∷ rows) row e h = (h.0, All-last r rows row e h.1)

  IsUnique-append :
      (rows : List A) (row : A)
      → NoRow (λ r. text_eq (key r) (key row)) rows
      → IsUnique rows
      → IsUnique (rows ++ row ∷ [])
  IsUnique-append [] row k h = (tt, tt)
  IsUnique-append (r ∷ rows) row k h =
      (All-last r rows row k.0 h.0, IsUnique-append rows row k.1 h.1)

  pub IsUnique-insert_or_replace :
      (row : A) (rows : List A)
      → IsUnique rows
      → IsUnique (insert_or_replace (λ r. text_eq (key r) (key row)) row rows)
  unfolding insert_or_replace delete_where
  IsUnique-insert_or_replace row rows h =
      IsUnique-append _ row (NoRow-delete_where _ rows) (IsUnique-rows_where _ rows h)

  NoRow-any : (p : A → Bool) (rows : List A) → any p rows ≡ false → NoRow p rows
  unfolding any
  NoRow-any p [] h = tt
  NoRow-any p (row ∷ rows) h = elim (Bool-cases (p row)) [
    | inl e ↦ absurd (true≢false (rw e at h))
    | inr e ↦ (e, NoRow-any p rows (rw e at h))
  ]

  -- Where `INSERT` finds no row with the key, the keys are unique behind it.
  pub IsUnique-insert :
      (row : A) (rows : List A)
      → any (λ r. text_eq (key r) (key row)) rows ≡ false
      → IsUnique rows
      → IsUnique (rows ++ row ∷ [])
  IsUnique-insert row rows e h = IsUnique-append rows row (NoRow-any _ rows e) h
