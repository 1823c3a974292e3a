-- ===== src/Database/Latest.antt =====
-- internal/store/store.go: the latest evaluation of a skill, and what "latest" means.
use mathlib.Core.Option.{map as option_map}
use mathlib.Core.List.{Memᴰ}
use virmux.Prelude.{All, ℕ, String, ◌≡◌, ◌⊎◌, Bool, true, false, Option, none, some, List}
use virmux.Database.Structs.{EvalRun}
use virmux.Database.Rows.{Row, eval_run_row, EvalRunRow}
use virmux.Database.Engine.{Clock}
use virmux.Database.Reads.{is_wanted, stands_before, scanned}

module _ {Real : Type 0} (datetime : String → ℕ) where
  -- No row of the list stands before `r`, unless at the same place.
  AllBehind : EvalRunRow Real → List (EvalRunRow Real) → Type 0
  AllBehind r = All (λ s. stands_before datetime r s ≡ true)

  -- What LIMIT 1 gives.
  record IsFirst (rs : List (EvalRunRow Real)) (r : EvalRunRow Real) : Type 0 where
    mem : Memᴰ r rs
    behind : AllBehind r rs

module _ {Real Time : Type 0} (clock : Clock Time) (zero_real : Real) (datetime : String → ℕ) where
  -- An evaluation of the skill, one that passed if `passing`, behind which no other such stands: none
  -- is later, or as late and of a greater ID.
  pub record IsLatest (passing : Bool) (skill : String) (db : List (Row Real)) (r : EvalRunRow Real)
      : Type 0 where
    pub stored : Memᴰ (eval_run_row r) db
    pub is_wanted_one : is_wanted passing skill r ≡ true
    pub last :
        (s : EvalRunRow Real)
        → Memᴰ (eval_run_row s) db
        → is_wanted passing skill s ≡ true
        → stands_before datetime r s ≡ true

  -- What a method that gives the latest one promises.
  pub Specified : Bool → String → List (Row Real) → Option (EvalRun Real Time) → Type 0
  Specified passing skill db given =
      ((given ≡ none)
        × ((s : EvalRunRow Real) → Memᴰ (eval_run_row s) db → is_wanted passing skill s ≡ false))
      ⊎ ((r : EvalRunRow Real) × (given ≡ some (scanned clock zero_real r))
          × IsLatest passing skill db r)
