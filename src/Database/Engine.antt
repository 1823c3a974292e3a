-- ===== src/Database/Engine.antt =====
-- internal/store/store.go: INSERT under the constraints of the schema, UPDATE, and what is stored.
-- References are met since `Open` switches foreign_keys on.
-- A statement gives the new database or the constraint that refused the row. The clock is a
-- parameter: the time of the call and how times are stored.
use virmux.Prelude.{
  if◌then◌else◌, bit, Result, ok, err, ℕ, ◌+◌, String, Bool, true, false, ◌&&◌, ◌||◌, Option, none,
  some, List, [], ◌∷◌, ◌++◌, map, str_eq, int_eq,
}
use virmux.Database.Rows.{
  Ending, Row, run_row, Key, text, number, null, Foreign, table, primary_key, foreign_keys,
}

pub data DbError : Type 0 where
  null_given : String → DbError
  key_taken : String → DbError
  no_parent : String → DbError

-- time.Time: the zero time, the format RFC3339Nano in UTC, and its parse, which is the zero time on
-- an error.
pub record Clock (Time : Type 0) : Type 0 where
  pub is_zero : Time → Bool
  pub format : Time → String
  pub parse : String → Time

abbrev pub key_eq : Key → Key → Bool
key_eq (text s) (text t) = str_eq s t
key_eq (number m) (number n) = int_eq m n
key_eq _ _ = false

-- sql.NullString, valid where the text is not empty.
abbrev pub null_string : String → Option String
null_string s = if str_eq s "" then none else some s

-- The first reference that is NULL where it must not be.
abbrev pub null_column : List Foreign → Option String
null_column [] = none
null_column (f ∷ fs) = elim f.key [
  | null ↦ if f.not_null then some f.references else null_column fs
  | _ ↦ null_column fs
]

module _ {Real : Type 0} where
  abbrev pub is_at : String → Key → Row Real → Bool
  is_at t k row = str_eq (table row) t && key_eq (primary_key row) k

  -- Whether a row of table `t` has the key.
  abbrev pub has_key : String → Key → List (Row Real) → Bool
  has_key t k [] = false
  has_key t k (row ∷ rows) = is_at t k row || has_key t k rows

  -- Whether there is a row that a reference is to; NULL is to none.
  abbrev pub is_there : String → Key → List (Row Real) → Bool
  is_there t null db = true
  is_there t (text s) db = has_key t (text s) db
  is_there t (number n) db = has_key t (number n) db

  -- The first reference without a row.
  abbrev pub missing_parent : List (Row Real) → List Foreign → Option String
  missing_parent db [] = none
  missing_parent db (f ∷ fs) =
      if is_there f.references f.key db then missing_parent db fs else some f.references

  -- INSERT INTO: the constraints, in SQLite's order.
  unfoldable pub insert_row : Row Real → List (Row Real) → Result DbError (List (Row Real))
  insert_row row db = elim (null_column (foreign_keys row)) [
    | some t ↦ err (null_given t)
    | none ↦
        if has_key (table row) (primary_key row) db
        then err (key_taken (table row))
        else elim (missing_parent db (foreign_keys row)) [
          | some t ↦ err (no_parent t)
          | none ↦ ok (db ++ row ∷ [])
        ]
  ]

  -- The next ID of `evidence`: no row is deleted.
  abbrev pub evidence_count : List (Row Real) → ℕ
  evidence_count [] = 0
  evidence_count (row ∷ rows) = bit (str_eq (table row) "evidence") + evidence_count rows

  -- UPDATE runs SET .. WHERE id=?
  abbrev pub finish_row : String → Ending Real → Row Real → Row Real
  finish_row id o (run_row r p) = if str_eq r.id id then run_row r o else run_row r p
  finish_row id o row = row

  unfoldable pub finish_run : String → Ending Real → List (Row Real) → List (Row Real)
  finish_run id o db = map (finish_row id o) db

module _ {Time : Type 0} (clock : Clock Time) (now : Time) where
  -- `if row.CreatedAt.IsZero() { row.CreatedAt = time.Now().UTC() }`, and the format.
  abbrev pub stamp : Time → String
  stamp t = clock.format (if clock.is_zero t then now else t)
