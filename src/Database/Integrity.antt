-- ===== src/Database/Integrity.antt =====
-- internal/store/store.go: what the constraints keep true of the rows, insert by insert.
use virmux.Prelude.{
  bit, ok, All, All-append, pos, ℕ, suc, ◌+◌, ◌≤◌, String, ◌≡◌, refl, sym, subst, true, false, ◌||◌,
  none, List, [], ◌∷◌, ◌++◌, arith, str_eq, eq_iff, int_eq_iff,
}
use virmux.Database.Rows.{
  Ending, Row, run_row, Key, text, number, null, Foreign, table, primary_key, foreign_keys,
}
use virmux.Database.Engine.{
  key_eq, is_at, has_key, null_column, is_there, missing_parent, insert_row, evidence_count,
  finish_row, finish_run,
}

key_eq_sym : (k l : Key) → key_eq k l ≡ key_eq l k
key_eq_sym (text s) (text t) = ground (arith, eq_iff s t, eq_iff t s)
key_eq_sym (number m) (number n) = ground (arith, int_eq_iff m n, int_eq_iff n m)
key_eq_sym null null = refl
key_eq_sym null (text t) = refl
key_eq_sym null (number n) = refl
key_eq_sym (text s) null = refl
key_eq_sym (text s) (number n) = refl
key_eq_sym (number m) null = refl
key_eq_sym (number m) (text t) = refl

module _ {Real : Type 0} where
  -- No key stands twice in a table.
  abbrev pub IsUnique : List (Row Real) → Type 0
  IsUnique [] = Unit
  IsUnique (row ∷ rows) = (has_key (table row) (primary_key row) rows ≡ false) × IsUnique rows

  -- Every reference of the rows is to a row of `db`.
  abbrev pub IsReferred : List (Row Real) → List (Row Real) → Type 0
  IsReferred db = All (λ row. missing_parent db (foreign_keys row) ≡ none)

  pub record IsSound (db : List (Row Real)) : Type 0 where
    pub unique : IsUnique db
    pub not_null : All (λ row. null_column (foreign_keys row) ≡ none) db
    pub referred : IsReferred db db
    pub numbered : (n : ℕ) → has_key "evidence" (number (pos n)) db ≡ true → n ≤ evidence_count db

  is_at_sym :
      (r s : Row Real) → is_at (table r) (primary_key r) s ≡ is_at (table s) (primary_key s) r
  is_at_sym r s = ground (
    arith,
    eq_iff (table r) (table s),
    eq_iff (table s) (table r),
    key_eq_sym (primary_key r) (primary_key s),
  )

  pub has_key-append :
      (t : String) (k : Key) (row : Row Real) (db : List (Row Real))
      → has_key t k (db ++ row ∷ []) ≡ (has_key t k db || is_at t k row)
  has_key-append t k row [] = ground arith
  has_key-append t k row (x ∷ xs) = ground (arith, has_key-append t k row xs)

  evidence_count-append :
      (row : Row Real) (db : List (Row Real))
      → evidence_count (db ++ row ∷ []) ≡ evidence_count db + bit (str_eq (table row) "evidence")
  evidence_count-append row [] = omega arith
  evidence_count-append row (x ∷ xs) = omega (arith, evidence_count-append row xs)

  IsUnique-append :
      (row : Row Real) (db : List (Row Real))
      → IsUnique db
      → has_key (table row) (primary_key row) db ≡ false
      → IsUnique (db ++ row ∷ [])
  IsUnique-append row [] u h = (refl, tt)
  IsUnique-append row (x ∷ xs) u h = (
    ground (arith, has_key-append (table x) (primary_key x) row xs, is_at_sym row x, u.0),
    IsUnique-append row xs u.1 (ground arith),
  )

  is_there-append :
      (t : String) (k : Key) (row : Row Real) (db : List (Row Real))
      → is_there t k db ≡ true
      → is_there t k (db ++ row ∷ []) ≡ true
  is_there-append t null row db h = refl
  is_there-append t (text s) row db h = ground (arith, has_key-append t (text s) row db)
  is_there-append t (number n) row db h = ground (arith, has_key-append t (number n) row db)

  missing_parent-append :
      (row : Row Real) (db : List (Row Real)) (fs : List Foreign)
      → missing_parent db fs ≡ none
      → missing_parent (db ++ row ∷ []) fs ≡ none
  missing_parent-append row db [] h = refl
  missing_parent-append row db (f ∷ fs) h =
      ground (arith, is_there-append f.references f.key row db, missing_parent-append row db fs)

  IsReferred-append :
      (row : Row Real) (db rows : List (Row Real))
      → IsReferred db rows
      → IsReferred (db ++ row ∷ []) rows
  IsReferred-append row db [] h = tt
  IsReferred-append row db (x ∷ xs) h =
      (missing_parent-append row db (foreign_keys x) h.0, IsReferred-append row db xs h.1)

  -- What an insert that is not refused has found.
  pub record IsInserted (row : Row Real) (db after : List (Row Real)) : Type 0 where
    pub appended : after ≡ db ++ row ∷ []
    pub not_null : null_column (foreign_keys row) ≡ none
    pub fresh : has_key (table row) (primary_key row) db ≡ false
    pub referred : missing_parent db (foreign_keys row) ≡ none

  pub insert_row-IsInserted :
      (row : Row Real) (db after : List (Row Real))
      → insert_row row db ≡ ok after
      → IsInserted row db after
  unfolding insert_row
  insert_row-IsInserted row db after h = record {
    appended = ground (arith, h);
    not_null = ground (arith, h);
    fresh = ground (arith, h);
    referred = ground (arith, h);
  }

  -- An ID of `evidence` is the next one.
  pub insert_row-IsSound :
      (row : Row Real) (db after : List (Row Real))
      → ((n : ℕ)
          → is_at "evidence" (number (pos n)) row ≡ true
          → (n ≡ suc (evidence_count db)) × (str_eq (table row) "evidence" ≡ true))
      → IsSound db
      → insert_row row db ≡ ok after
      → IsSound after
  insert_row-IsSound row db after next s h =
      let i = insert_row-IsInserted row db after h in
      subst IsSound (sym i.appended) (record {
        unique = IsUnique-append row db s.unique i.fresh;
        not_null =
            All-append (λ r. null_column (foreign_keys r) ≡ none) db (row ∷ []) s.not_null
              (i.not_null, tt);
        referred =
            All-append (λ r. missing_parent (db ++ row ∷ []) (foreign_keys r) ≡ none) db (row ∷ [])
              (IsReferred-append row db db s.referred)
              (missing_parent-append row db (foreign_keys row) i.referred, tt);
        numbered = λ n q. ground (
          arith,
          q,
          has_key-append "evidence" (number (pos n)) row db,
          evidence_count-append row db,
          s.numbered n,
          next n,
        );
      })

  -- A row of another table than `evidence`.
  pub insert_row_keeps :
      (row : Row Real) {db after : List (Row Real)}
      → str_eq (table row) "evidence" ≡ false
      → IsSound db
      → insert_row row db ≡ ok after
      → IsSound after
  insert_row_keeps row {db = db} {after = after} other =
      insert_row-IsSound row db after (λ n q. ground (arith, other, q))

  -- An update changes no key.
  pub finish_row-table :
      (id : String) (o : Ending Real) (row : Row Real)
      → (table (finish_row id o row) ≡ table row)
        × (primary_key (finish_row id o row) ≡ primary_key row)
        × (foreign_keys (finish_row id o row) ≡ foreign_keys row)
  finish_row-table id o (run_row r p) = ground arith
  finish_row-table id o _ = (refl, refl, refl)

  pub has_key-finish_run :
      (id : String) (o : Ending Real) (t : String) (k : Key) (db : List (Row Real))
      → has_key t k (finish_run id o db) ≡ has_key t k db
  unfolding finish_run
  has_key-finish_run id o t k [] = refl
  has_key-finish_run id o t k (x ∷ xs) =
      let same = finish_row-table id o x in ground (arith, same, has_key-finish_run id o t k xs)
