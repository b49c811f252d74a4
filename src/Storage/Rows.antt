-- ===== src/Storage/Rows.antt =====
-- Selecting, deleting, updating and replacing the rows of a table of backend/internal/storage.
use secure_mail_scope_sih.Common.{
  ◌≡◌, refl, ap, ◌∙◌, Bool, true, false, List, [], ◌∷◌, ◌++◌, Bool-cases, inl, inr, All,
}
use mathlib.Core.List.{append-nil}
use secure_mail_scope_sih.Storage.Tables.{rows_where, delete_where, update_where, insert_or_replace}

module _ {ℓ} {A : Type ℓ} where
  -- No row passes the test.
  abbrev pub NoRow : (A → Bool) → List A → Type 0
  NoRow p rows = All (λ row. p row ≡ false) rows

  -- No row passes both tests.
  abbrev pub AreApart : (A → Bool) → (A → Bool) → Type ℓ
  AreApart p q = (row : A) → p row ≡ true → q row ≡ false

  pub rows_where-append :
      (p : A → Bool) (xs ys : List A) → rows_where p (xs ++ ys) ≡ rows_where p xs ++ rows_where p ys
  unfolding rows_where
  rows_where-append p [] ys = refl
  rows_where-append p (x ∷ xs) ys = elim (Bool-cases (p x)) [
    | inl e ↦ rw e (ap (λ r. x ∷ r) (rows_where-append p xs ys))
    | inr e ↦ rw e (rows_where-append p xs ys)
  ]

  pub rows_where_none : (p : A → Bool) (xs : List A) → NoRow p xs → rows_where p xs ≡ []
  unfolding rows_where
  rows_where_none p [] h = refl
  rows_where_none p (x ∷ xs) h = rw h.0 (rows_where_none p xs h.1)

  pub NoRow-delete_where : (p : A → Bool) (xs : List A) → NoRow p (delete_where p xs)
  unfolding delete_where rows_where
  NoRow-delete_where p [] = tt
  NoRow-delete_where p (x ∷ xs) = elim (Bool-cases (p x)) [
    | inl e ↦ rw e (NoRow-delete_where p xs)
    | inr e ↦ rw e (e, NoRow-delete_where p xs)
  ]

  pub rows_where-delete_where :
      (p q : A → Bool) (xs : List A)
      → AreApart p q
      → rows_where p (delete_where q xs) ≡ rows_where p xs
  unfolding rows_where delete_where
  rows_where-delete_where p q [] h = refl
  rows_where-delete_where p q (x ∷ xs) h = elim (Bool-cases (p x)) [
    | inl e ↦ rw (h x e) (rw e (ap (λ r. x ∷ r) (rows_where-delete_where p q xs h)))
    | inr e ↦ elim (Bool-cases (q x)) [
      | inl d ↦ rw (d, e) (rows_where-delete_where p q xs h)
      | inr d ↦ rw d (rw e (rows_where-delete_where p q xs h))
    ]
  ]

  -- A deletion that hits none of the selected rows.
  pub rows_where-delete_none :
      (p q : A → Bool) (xs : List A)
      → NoRow q (rows_where p xs)
      → rows_where p (delete_where q xs) ≡ rows_where p xs
  unfolding rows_where delete_where
  rows_where-delete_none p q [] h = refl
  rows_where-delete_none p q (x ∷ xs) h = elim (Bool-cases (p x)) [
    | inl e ↦
        let k : NoRow q (x ∷ rows_where p xs) = rw e at h in
        rw k.0 (rw e (ap (λ r. x ∷ r) (rows_where-delete_none p q xs k.1)))
    | inr e ↦
        let k : NoRow q (rows_where p xs) = rw e at h in
        elim (Bool-cases (q x)) [
          | inl d ↦ rw (d, e) (rows_where-delete_none p q xs k)
          | inr d ↦ rw d (rw e (rows_where-delete_none p q xs k))
        ]
  ]

  pub rows_where-update_where :
      (p q : A → Bool) (change : A → A) (xs : List A)
      → ((row : A) → p (change row) ≡ p row)
      → AreApart p q
      → rows_where p (update_where q change xs) ≡ rows_where p xs
  unfolding rows_where update_where
  rows_where-update_where p q change [] k h = refl
  rows_where-update_where p q change (x ∷ xs) k h = elim (Bool-cases (p x)) [
    | inl e ↦ rw (h x e) (rw e (ap (λ r. x ∷ r) (rows_where-update_where p q change xs k h)))
    | inr e ↦ elim (Bool-cases (q x)) [
      | inl d ↦ rw (d, k x, e) (rows_where-update_where p q change xs k h)
      | inr d ↦ rw d (rw e (rows_where-update_where p q change xs k h))
    ]
  ]

  -- Behind a replacement, the new row is the one with its key,
  pub rows_where-insert_or_replace :
      (p : A → Bool) (row : A) (xs : List A)
      → p row ≡ true
      → rows_where p (insert_or_replace p row xs) ≡ row ∷ []
  unfolding insert_or_replace rows_where
  rows_where-insert_or_replace p row xs e =
      rw (rows_where-append p (delete_where p xs) (row ∷ []))
        (rw (rows_where_none p _ (NoRow-delete_where p xs)) (rw e refl))

  -- and rows with another key are as they were.
  pub rows_where-replace_other :
      (p q : A → Bool) (row : A) (xs : List A)
      → AreApart p q
      → p row ≡ false
      → rows_where p (insert_or_replace q row xs) ≡ rows_where p xs
  unfolding insert_or_replace rows_where
  rows_where-replace_other p q row xs h e =
      rows_where-append p (delete_where q xs) (row ∷ [])
      ∙ ap (λ r. r ++ rows_where p (row ∷ [])) (rows_where-delete_where p q xs h)
      ∙ rw e (append-nil (rows_where p xs))

  pub All-rows_where {κ} :
      (P : A → Type κ) (p : A → Bool) (xs : List A) → All P xs → All P (rows_where p xs)
  unfolding rows_where
  All-rows_where P p [] h = tt
  All-rows_where P p (x ∷ xs) h = elim (Bool-cases (p x)) [
    | inl e ↦ rw e (h.0, All-rows_where P p xs h.1)
    | inr e ↦ rw e (All-rows_where P p xs h.1)
  ]

  pub All-update_where {κ} :
      (P : A → Type κ) (p : A → Bool) (change : A → A) (xs : List A)
      → ((row : A) → P row → P (change row))
      → All P xs
      → All P (update_where p change xs)
  unfolding update_where
  All-update_where P p change [] k h = tt
  All-update_where P p change (x ∷ xs) k h = elim (Bool-cases (p x)) [
    | inl e ↦ rw e (k x h.0, All-update_where P p change xs k h.1)
    | inr e ↦ rw e (h.0, All-update_where P p change xs k h.1)
  ]
