-- ===== src/Storage/Statements.antt =====
-- What holds behind a statement of backend/internal/storage, whatever the driver answers to it.
use secure_mail_scope_sih.Common.{
  ◌≡◌, sym, ap, ◌∙◌, Bool, none, some, List, [], inl, inr, Bool-cases,
}
use secure_mail_scope_sih.Storage.Tables.{
  Database, Outcome, and_then, exec, query, query_row, statement, first_row,
}

-- A predicate that the refusals to come have no part in.
abbrev pub IsOnTables : (Database → Type 0) → Type 0
IsOnTables P = (d : Database) (rs : List Bool) → P d → P (record d { refusals = rs })

pub statement-Holds :
    (P : Database → Type 0) (db : Database) → IsOnTables P → P db → P (statement db).1
unfolding statement
statement-Holds P db t h = t db _ h

pub exec-Holds :
    (P : Database → Type 0) (change : Database → Database) (db : Database)
    → IsOnTables P
    → ((d : Database) → P d → P (change d))
    → P db
    → P (exec change db).1
unfolding exec
exec-Holds P change db t k h = elim (Bool-cases (statement db).0) [
  | inl e ↦ rw e (statement-Holds P db t h)
  | inr e ↦ rw e (k (statement db).1 (statement-Holds P db t h))
]

pub query_row-Holds {ℓ} :
    {A : Type ℓ} (P : Database → Type 0) (read : Database → List A) (db : Database)
    → IsOnTables P
    → P db
    → P (query_row read db).1
unfolding query_row
query_row-Holds P read db t h = elim (Bool-cases (statement db).0) [
  | inl e ↦ rw e (statement-Holds P db t h)
  | inr e ↦ rw e (statement-Holds P db t h)
]

pub and_then-Holds :
    (P : Database → Type 0) (first : Outcome × Database) (next : Database → Outcome × Database)
    → P first.1
    → ((d : Database) → P d → P (next d).1)
    → P (and_then first next).1
unfolding and_then
and_then-Holds P (none, db) next h k = k db h
and_then-Holds P (some e, db) next h k = h

-- The driver takes every statement to come.
abbrev pub IsWilling : Database → Type 0
IsWilling db = db.refusals ≡ []

pub exec-IsWilling :
    (change : Database → Database) (db : Database)
    → IsWilling db
    → exec change db ≡ (none, change db)
unfolding exec statement
exec-IsWilling change db h =
    ap (λ rs. exec change (record db { refusals = rs })) h
    ∙ ap (λ rs. (none, change (record db { refusals = rs }))) (sym h)

pub query-IsWilling {ℓ} :
    {A : Type ℓ} (read : Database → A) (db : Database)
    → IsWilling db
    → query read db ≡ (inr (read db), db)
unfolding query statement
query-IsWilling read db h =
    ap (λ rs. query read (record db { refusals = rs })) h
    ∙ ap (λ rs. let d = record db { refusals = rs } in (inr (read d), d)) (sym h)

-- The outcome of a query for one row, from the rows that pass
pub query_row-IsWilling {ℓ} :
    {A : Type ℓ} (read : Database → List A) (db : Database)
    → IsWilling db
    → query_row read db ≡ (first_row (read db), db)
unfolding query_row statement
query_row-IsWilling read db h =
    ap (λ rs. query_row read (record db { refusals = rs })) h
    ∙ ap (λ rs. let d = record db { refusals = rs } in (first_row (read d), d)) (sym h)

-- A change that makes the driver refuse nothing leaves it willing.
pub exec-keeps_willing :
    (change : Database → Database) (db : Database)
    → ((d : Database) → (change d).refusals ≡ d.refusals)
    → IsWilling db
    → IsWilling (exec change db).1
exec-keeps_willing change db k h = rw (exec-IsWilling change db h) (k db ∙ h)
