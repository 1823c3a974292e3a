-- ===== src/Database/Report.antt =====
-- internal/store/store.go: what the report of an experiment counts.
use virmux.Prelude.{
  ltb, if◌then◌else◌, Bool-cases, Option-cases, elem, count, distinct, elem-distinct, ℕ, ◌+◌,
  String, ◌≡◌, refl, ◌⊎◌, inl, inr, Bool, true, false, ◌||◌, none, some, List, [], ◌∷◌, arith,
  str_eq, eq_iff, count_zero, ne_of_elem,
}
use virmux.Database.Structs.{ExperimentReport}
use virmux.Database.Rows.{Row}
use virmux.Database.Reads.{
  winners, find_skill, tally, tally_groups, totalled, get_experiment_report,
}

module _ {Real : Type 0} (zero_real : Real) (ratio : ℕ → ℕ → Real) where
  -- A column of the report that the switch sets at one winner.
  module _ (column : ExperimentReport Real → ℕ) (label : String)
      (at_label : (w : String) (n : ℕ) (r : ExperimentReport Real)
        → column (tally zero_real ratio w n r) ≡ (if str_eq w label then n else column r)) where
    column-tally_groups :
        (all ws : List String) (r : ExperimentReport Real)
        → column (tally_groups zero_real ratio all ws r)
          ≡ (if elem label ws then count (str_eq label) all else column r)
    column-tally_groups all [] r = refl
    column-tally_groups all (w ∷ ws) r = ground (
      arith,
      column-tally_groups all ws (tally zero_real ratio w (count (str_eq w) all) r),
      at_label w (count (str_eq w) all) r,
      eq_iff w label,
    )

    column_counts :
        (all : List String) (r : ExperimentReport Real)
        → column r ≡ 0
        → column (tally_groups zero_real ratio all (distinct all) r) ≡ count (str_eq label) all
    column_counts all r h =
        let counted = column-tally_groups all (distinct all) r in
        elim (Bool-cases (elem label all)) [
          | inl there ↦ ground (arith, there, counted, elem-distinct label all)
          | inr out ↦ ground (
            arith,
            out,
            h,
            counted,
            elem-distinct label all,
            count_zero (str_eq label) all (λ w m. ne_of_elem label w all out m),
          )
        ]

pub apart : (s t w : String) → str_eq s t ≡ false → str_eq s w ≡ true → str_eq t w ≡ false
apart s t w other h = ground (arith, other, h, eq_iff s w, eq_iff t w, eq_iff s t)

other_label : (w s t : String) → str_eq s t ≡ false → str_eq w s ≡ true → str_eq w t ≡ false
other_label w s t other h = ground (arith, other, h, eq_iff w s, eq_iff w t, eq_iff s t)

-- The winners that the report counts.
unfoldable pub is_counted : String → Bool
is_counted w = str_eq "A" w || str_eq "B" w || str_eq "tie" w

count-is_counted :
    (ws : List String)
    → count is_counted ws ≡ count (str_eq "A") ws + count (str_eq "B") ws + count (str_eq "tie") ws
unfolding is_counted
count-is_counted [] = refl
count-is_counted (w ∷ ws) = ground (
  arith,
  count-is_counted ws,
  apart "A" "B" w refl,
  apart "A" "tie" w refl,
  apart "B" "tie" w refl,
)

module _ {Real : Type 0} (zero_real : Real) (ratio : ℕ → ℕ → Real) where
  -- The report of the winners `all`.
  pub record Counts (id skill : String) (all : List String) (r : ExperimentReport Real)
      : Type 0 where
    pub same_id : r.experiment_id ≡ id
    pub same_skill : r.skill ≡ skill
    pub a_wins : r.wins_a ≡ count (str_eq "A") all
    pub b_wins : r.wins_b ≡ count (str_eq "B") all
    pub no_win : r.ties ≡ count (str_eq "tie") all
    pub all_counted : r.total ≡ count is_counted all
    pub rate : r.win_rate ≡ (
        if ltb 0 (count is_counted all)
        then ratio (count (str_eq "B") all) (count is_counted all)
        else zero_real)

  -- Columns that the switch leaves alone.
  tally_groups_keeps :
      (all ws : List String) (r : ExperimentReport Real)
      → let t = tally_groups zero_real ratio all ws r in
        (t.experiment_id ≡ r.experiment_id) × (t.skill ≡ r.skill) × (t.win_rate ≡ r.win_rate)
  tally_groups_keeps all [] r = (refl, refl, refl)
  tally_groups_keeps all (w ∷ ws) r =
      ground (arith, tally_groups_keeps all ws (tally zero_real ratio w (count (str_eq w) all) r))

  tally_columns :
      (w : String) (n : ℕ) (r : ExperimentReport Real)
      → let t = tally zero_real ratio w n r in
        (t.wins_a ≡ (if str_eq w "A" then n else r.wins_a))
        × (t.wins_b ≡ (if str_eq w "B" then n else r.wins_b))
        × (t.ties ≡ (if str_eq w "tie" then n else r.ties))
  tally_columns w n r = ground (
    arith,
    other_label w "A" "B" refl,
    other_label w "A" "tie" refl,
    other_label w "B" "tie" refl,
  )

  -- `GetExperimentReport` gives, for an experiment that is stored, the number of its comparisons
  -- that A won, that B won and that are ties, their sum, and B's share of it; for another ID an
  -- error. Comparisons with any other winner are in no count.
  pub get_experiment_report-Counts :
      (id : String) (db : List (Row Real))
      → ((find_skill id db ≡ none) × (get_experiment_report zero_real ratio id db ≡ none))
        ⊎ ((skill : String) × (find_skill id db ≡ some skill)
            × (r : ExperimentReport Real) × (get_experiment_report zero_real ratio id db ≡ some r)
            × Counts id skill (winners id db) r)
  unfolding get_experiment_report totalled
  get_experiment_report-Counts id db = elim (Option-cases (find_skill id db)) [
    | inl q ↦ inl (q, rw (q, get_experiment_report) refl)
    | inr (skill, q) ↦ inr (skill, q, _, rw (q, get_experiment_report) refl, counted skill)
  ]
    where
      all : List String
      all = winners id db

      start : String → ExperimentReport Real
      start skill = record {
        experiment_id = id;
        skill = skill;
        wins_a = 0;
        wins_b = 0;
        ties = 0;
        win_rate = zero_real;
        total = 0;
      }

      counted :
          (skill : String)
          → Counts id skill all (
              totalled zero_real ratio
                (tally_groups zero_real ratio all (distinct all) (start skill)))
      counted skill =
          let a =
            column_counts zero_real ratio (λ r. r.wins_a) "A" (λ w n r. (tally_columns w n r).0) all
              (start skill) refl in
          let b =
            column_counts zero_real ratio (λ r. r.wins_b) "B" (λ w n r. (tally_columns w n r).1) all
              (start skill) refl in
          let t =
            column_counts zero_real ratio (λ r. r.ties) "tie" (λ w n r. (tally_columns w n r).2) all
              (start skill) refl in
          let same = tally_groups_keeps all (distinct all) (start skill) in
          let sum = count-is_counted all in
          record {
            same_id = same.0;
            same_skill = same.1;
            a_wins = a;
            b_wins = b;
            no_win = t;
            all_counted = ground (arith, a, b, t, sum);
            rate = cc;
          }
