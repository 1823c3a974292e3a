-- ===== src/Skill/Ab/Reported.antt =====
-- internal/skill/absvc/service.go: the report of an experiment says what the service counted.
use mathlib.Core.List.{append-nil, append_assoc}
use virmux.Prelude.{
  ok, length, All, count, ℕ, suc, ◌+◌, String, ◌≡◌, refl, sym, ap, ◌∙◌, subst, inl, inr, Bool, true,
  false, not, ◌&&◌, ◌||◌, Option, some, List, [], ◌∷◌, ◌++◌, arith, str_eq, eq_iff, if_ind,
  Result-cases, ok-injective,
}
use virmux.Database.Structs.{Experiment, Comparison, ExperimentReport}
use virmux.Database.Rows.{Row, comparison_row, experiment_row, text}
use virmux.Database.Engine.{Clock, has_key}
use virmux.Database.Inserts.{
  experiment_values, comparison_values, insert_experiment, insert_comparison,
}
use virmux.Database.Reads.{winners, find_skill, get_experiment_report}
use virmux.Database.Integrity.{IsSound, IsReferred, insert_row-IsInserted}
use virmux.Database.Report.{apart, is_counted, Counts, get_experiment_report-Counts}
use virmux.Skill.Eval.Results.{Arithmetic, CaseMetric}
use virmux.Skill.Ab.{
  Wins, no_wins, count_winner, win_rate_of, judge_case, comparison_of, store_comparisons,
  run_pairwise,
}

module _ {Real : Type 0} (id : String) where
  winners-append :
      (db rows : List (Row Real)) → winners id (db ++ rows) ≡ winners id db ++ winners id rows
  winners-append [] rows = refl
  winners-append (comparison_row c ∷ db) rows = ground (arith, winners-append db rows)
  winners-append (_ ∷ db) rows = winners-append db rows

  -- Where references are met, an experiment that is not there has no comparisons.
  no_winners :
      (db rows : List (Row Real))
      → has_key "experiments" (text id) db ≡ false
      → IsReferred db rows
      → winners id rows ≡ []
  no_winners db [] h r = refl
  no_winners db (comparison_row c ∷ rows) h r =
      ground (arith, h, r.0, eq_iff c.experiment_id id, no_winners db rows h r.1)
  no_winners db (_ ∷ rows) h r = no_winners db rows h r.1

  find_skill-append :
      (s : String) (db rows : List (Row Real))
      → find_skill id db ≡ some s
      → find_skill id (db ++ rows) ≡ some s
  find_skill-append s [] rows h = absurd (cc h)
  find_skill-append s (experiment_row e ∷ db) rows h = ground (arith, find_skill-append s db rows)
  find_skill-append s (_ ∷ db) rows h = find_skill-append s db rows h

  find_skill-appended :
      (e : Experiment (Option String) String) (db : List (Row Real))
      → e.id ≡ id
      → has_key "experiments" (text id) db ≡ false
      → find_skill id (db ++ experiment_row e ∷ []) ≡ some e.skill
  find_skill-appended e [] same h = ground (arith, eq_iff e.id id)
  find_skill-appended e (experiment_row d ∷ db) same h =
      ground (arith, find_skill-appended e db same)
  find_skill-appended e (_ ∷ db) same h = find_skill-appended e db same h

-- The winners counted, from what was counted before.
abbrev tallied : List String → Wins → Wins
tallied [] w = w
tallied (x ∷ xs) w = tallied xs (count_winner x w)

abbrev IsWinner : String → Type 0
IsWinner w = (str_eq "A" w || str_eq "B" w || str_eq "tie" w) ≡ true

abbrev IsWinnerOf : String × String → Type 0
IsWinnerOf judged = IsWinner judged.0

tallied_counts :
    (ws : List String) (w : Wins)
    → All IsWinner ws
    → ((tallied ws w).wins_a ≡ w.wins_a + count (str_eq "A") ws)
      × ((tallied ws w).wins_b ≡ w.wins_b + count (str_eq "B") ws)
      × ((tallied ws w).ties ≡ w.ties + count (str_eq "tie") ws)
tallied_counts [] w h = (omega arith, omega arith, omega arith)
tallied_counts (x ∷ xs) w h = ground (
  arith,
  h.0,
  tallied_counts xs (count_winner x w) h.1,
  eq_iff "A" x,
  eq_iff x "A",
  eq_iff "B" x,
  eq_iff x "B",
  eq_iff "tie" x,
  eq_iff x "tie",
  apart "A" "B" x refl,
  apart "A" "tie" x refl,
  apart "B" "tie" x refl,
)

winners_counted : (ws : List String) → All IsWinner ws → count is_counted ws ≡ length ws
unfolding is_counted
winners_counted [] h = refl
winners_counted (x ∷ xs) h = ground (arith, h.0, winners_counted xs h.1)

module _ {Real Time : Type 0} (a : Arithmetic Real) (clock : Clock Time) (now : Time)
    (base_cases head_cases : List (String × CaseMetric Real)) (anti_tie : Bool)
    (exp_id : String) where
  winner_list : List String → List String
  winner_list [] = []
  winner_list (id ∷ ids) =
      (comparison_of a clock now base_cases head_cases anti_tie exp_id id).winner ∷ winner_list ids

  judge_case-IsWinner : (base head : CaseMetric Real) → IsWinner (judge_case a anti_tie base head).0
  unfolding judge_case
  judge_case-IsWinner base head =
      if_ind IsWinnerOf (a.below base.score head.score) (λ h. refl)
        (λ h.
          if_ind IsWinnerOf (a.below head.score base.score) (λ h. refl)
            (λ h.
              if_ind IsWinnerOf (head.pass && not base.pass) (λ h. refl)
                (λ h.
                  if_ind IsWinnerOf (base.pass && not head.pass) (λ h. refl)
                    (λ h.
                      if_ind IsWinnerOf (not (head.pass && base.pass)) (λ h. refl)
                        (λ h. if_ind IsWinnerOf anti_tie (λ h. refl) (λ h. refl))))))

  winner_list-IsWinner : (ids : List String) → All IsWinner (winner_list ids)
  unfolding winner_list
  winner_list-IsWinner [] = tt
  winner_list-IsWinner (id ∷ ids) = (judge_case-IsWinner _ _, winner_list-IsWinner ids)

  length-winner_list : (ids : List String) → length (winner_list ids) ≡ length ids
  unfolding winner_list
  length-winner_list [] = refl
  length-winner_list (id ∷ ids) = ap suc (length-winner_list ids)

  inserted :
      (c : Comparison Time) (db after : List (Row Real))
      → insert_comparison clock now c db ≡ ok after
      → after ≡ db ++ comparison_values clock now c ∷ []
  unfolding insert_comparison
  inserted c db after q =
      (insert_row-IsInserted (comparison_values clock now c) db after q).appended

  added :
      (c : Comparison Time) (db after : List (Row Real))
      → c.experiment_id ≡ exp_id
      → after ≡ db ++ comparison_values clock now c ∷ []
      → (ws : List String) → winners exp_id after ++ ws ≡ winners exp_id db ++ c.winner ∷ ws
  added c db after same i ws =
      let one : winners exp_id (comparison_values {Real = Real} clock now c ∷ []) ≡ c.winner ∷ [] =
        ground (arith, eq_iff c.experiment_id exp_id) in
      rw i (
        rw (winners-append exp_id db (comparison_values clock now c ∷ []))
          (rw one (append_assoc (winners exp_id db) (c.winner ∷ []) ws)))

  -- A loop that was not refused has added the comparisons, and counted them.
  store_comparisons_lem :
      (ids : List String) (w : Wins) (db : List (Row Real)) (skill : String) (t : Wins)
      → find_skill exp_id db ≡ some skill
      → (store_comparisons a clock now base_cases head_cases anti_tie exp_id ids w db).0 ≡ ok t
      → let after =
          (store_comparisons a clock now base_cases head_cases anti_tie exp_id ids w db).1 in
        (find_skill exp_id after ≡ some skill)
        × (winners exp_id after ≡ winners exp_id db ++ winner_list ids)
        × (t ≡ tallied (winner_list ids) w)
  unfolding store_comparisons winner_list
  store_comparisons_lem [] w db skill t s h =
      (s, sym (append-nil (winners exp_id db)), ok-injective (sym h))
  store_comparisons_lem (id ∷ ids) w db skill t s h =
      let c = comparison_of a clock now base_cases head_cases anti_tie exp_id id in
      elim (Result-cases (insert_comparison clock now c db)) [
        | inr (e, q) ↦ absurd (cc (rw (q, store_comparisons) at h))
        | inl (after, q) ↦
            let i = inserted c db after q in
            let rest =
              store_comparisons_lem ids (count_winner c.winner w) after skill t
                (rw i (find_skill-append exp_id skill db (comparison_values clock now c ∷ []) s))
                (rw (q, store_comparisons) at h) in
            rw (q, store_comparisons)
              (rest.0, rest.1 ∙ added c db after refl i (winner_list ids), rest.2)
      ]

module _ {Real Time : Type 0} (zero_real : Real) (ratio : ℕ → ℕ → Real) (e : Experiment String Time)
    (ids : List String) (t : Wins) (after : List (Row Real)) where
  -- The report of the experiment in `after`, by what the loop over the fixtures counted.
  pub record IsReported : Type 0 where
    pub report : ExperimentReport Real
    pub given : get_experiment_report zero_real ratio e.id after ≡ some report
    pub same_skill : report.skill ≡ e.skill
    pub a_wins : report.wins_a ≡ t.wins_a
    pub b_wins : report.wins_b ≡ t.wins_b
    pub no_win : report.ties ≡ t.ties
    pub all_counted : report.total ≡ length ids
    pub rate : report.win_rate ≡ win_rate_of ratio zero_real t (length ids)

  -- From the list of winners.
  reported :
      (ws : List String)
      → All IsWinner ws
      → length ws ≡ length ids
      → find_skill e.id after ≡ some e.skill
      → winners e.id after ≡ ws
      → t ≡ tallied ws no_wins
      → IsReported
  unfolding win_rate_of
  reported ws good sizes there all counted =
      elim (get_experiment_report-Counts zero_real ratio e.id after) [
        | inl (gone, _) ↦ absurd (cc (gone, there))
        | inr (skill, found, r, given, c) ↦
            let d = subst (λ all. Counts zero_real ratio e.id skill all r) all c in
            let n = tallied_counts ws no_wins good in
            let sum = winners_counted ws good ∙ sizes in
            record {
              report = r;
              given = given;
              same_skill = cc (d.same_skill, found, there);
              a_wins = ground (arith, d.a_wins, n.0, counted);
              b_wins = ground (arith, d.b_wins, n.1, counted);
              no_win = ground (arith, d.no_win, n.2, counted);
              all_counted = d.all_counted ∙ sum;
              rate = ground (arith, d.rate, sum, n.1, counted);
            }
      ]

module _ {Real Time : Type 0} (a : Arithmetic Real) (clock : Clock Time) (now : Time)
    (base_cases head_cases : List (String × CaseMetric Real)) (anti_tie : Bool) (zero_real : Real)
    (ratio : ℕ → ℕ → Real) where
  -- Where the references of the database are met and its keys unique, and pairwise mode stored the
  -- experiment and a comparison for each fixture without an error, the report of the experiment
  -- gives the skill, the wins and ties that the service counted, a total that is the number of
  -- fixtures, and the win rate that the service gives.
  pub run_pairwise-IsReported :
      (e : Experiment String Time) (ids : List String) (db : List (Row Real)) (t : Wins)
      → IsSound db
      → (run_pairwise a clock now base_cases head_cases anti_tie e ids db).0 ≡ ok t
      → IsReported zero_real ratio e ids t
          (run_pairwise a clock now base_cases head_cases anti_tie e ids db).1
  unfolding run_pairwise insert_experiment
  run_pairwise-IsReported e ids db t sound h =
      elim (Result-cases (insert_experiment clock now e db)) [
        | inr (x, q) ↦ absurd (cc (rw (q, run_pairwise) at h))
        | inl (mid, q) ↦
            let row : Row Real = experiment_values clock now e in
            let i = insert_row-IsInserted row db mid q in
            let there : find_skill e.id mid ≡ some e.skill =
              rw i.appended (find_skill-appended e.id _ db refl i.fresh) in
            let none_yet : winners e.id mid ≡ [] = rw i.appended (
              rw (winners-append e.id db (row ∷ []))
                (rw (no_winners e.id db db i.fresh sound.referred) refl)) in
            let s =
              store_comparisons_lem a clock now base_cases head_cases anti_tie e.id ids no_wins mid
                e.skill t there (rw (q, run_pairwise) at h) in
            let all = winner_list a clock now base_cases head_cases anti_tie e.id ids in
            rw (q, run_pairwise)
              (reported zero_real ratio e ids t _ all
                (winner_list-IsWinner a clock now base_cases head_cases anti_tie e.id ids)
                (length-winner_list a clock now base_cases head_cases anti_tie e.id ids) s.0
                (s.1 ∙ ap (λ ws. ws ++ all) none_yet) s.2)
      ]
