-- ===== src/Research/Map/Stored.antt =====
-- internal/skill/research/mapper.go: what the database holds for the evidence of the rows.
use mathlib.Core.List.{Memᴰ, append_assoc, append-nil}
use virmux.Prelude.{
  Result, ok, err, length, All, ℤ, pos, ℕ, suc, String, ◌≡◌, refl, sym, ap, ◌∙◌, subst, true, false,
  List, [], ◌∷◌, ◌++◌, map, arith, ok-injective, int_eq_iff,
}
use virmux.Database.Structs.{Evidence}
use virmux.Database.Rows.{Row, Key, text, number, null, primary_key, evidence_row, row_evidence_row}
use virmux.Database.Engine.{DbError, Clock, key_eq, has_key, evidence_count, insert_row}
use virmux.Database.Runs.{with_id, evidence_columns, insert_evidence, insert_row_evidence}
use virmux.Database.Session.{an_evidence, call, without_id}
use virmux.Database.Integrity.{IsSound, has_key-append, insert_row-IsInserted, insert_row_keeps}
use virmux.Database.Sound.{call-IsSound}
use virmux.Database.Refused.{insert_evidence_iff}
use virmux.Research.Map.{MapResultRow, Mapping}
use virmux.Research.Map.Linked.{evidence_of, row_evidence_of, link_row, link_list, link_rows}

mem-append : {A : Type 0} {x : A} {xs : List A} (ys : List A) → Memᴰ x xs → Memᴰ x (xs ++ ys)
mem-append ys (Memᴰ.head e) = Memᴰ.head e
mem-append ys (Memᴰ.tail m) = Memᴰ.tail (mem-append ys m)

mem_last : {A : Type 0} (x : A) (xs : List A) → Memᴰ x (xs ++ x ∷ [])
mem_last x [] = Memᴰ.head refl
mem_last x (y ∷ xs) = Memᴰ.tail (mem_last x xs)

key_eq-null : (k : Key) → key_eq k null ≡ false
key_eq-null (text s) = refl
key_eq-null (number n) = refl
key_eq-null null = refl

with_id-ok :
    {A : Type 0} (n j : ℤ) (a : A) (x : Result DbError A)
    → with_id n x ≡ ok (a, j)
    → (x ≡ ok a) × (n ≡ j)
with_id-ok {A} n j a (ok b) h =
    (ap ok (ap (λ (p : A × ℤ). p.0) (ok-injective h)), ap (λ (p : A × ℤ). p.1) (ok-injective h))
with_id-ok n j a (err e) h = absurd (cc h)

-- The row with no IDs of evidence.
abbrev pub without_ids : {Value : Type 0} → MapResultRow Value → MapResultRow Value
without_ids row = record row { evidence_ids = [] }

has_key-null : {Real : Type 0} (t : String) (db : List (Row Real)) → has_key t null db ≡ false
has_key-null t [] = refl
has_key-null t (row ∷ db) = ground (arith, has_key-null t db, key_eq-null (primary_key row))

module _ {Real Value Time : Type 0} (m : Mapping Real Value) (clock : Clock Time) (now : Time)
    (run_id : String) where
  -- A sound database with the run.
  abbrev pub IsReady : List (Row Real) → Type 0
  IsReady db = IsSound db × (has_key "runs" (text run_id) db ≡ true)

  -- The database holds the evidence at the ID, and the link of the track's row to that ID.
  abbrev pub IsStored : String → ℕ → String → ℤ → List (Row Real) → Type 0
  IsStored track_id i ev id db =
      Memᴰ (evidence_row id (evidence_columns clock (evidence_of m clock now run_id track_id ev)))
        db
      × Memᴰ (row_evidence_row (row_evidence_of m clock now run_id track_id i id)) db

  abbrev pub ListStored : String → ℕ → List String → List ℤ → List (Row Real) → Type 0
  ListStored track_id i [] [] db = Unit
  ListStored track_id i [] (id ∷ ids) db = ⊥
  ListStored track_id i (ev ∷ evs) [] db = ⊥
  ListStored track_id i (ev ∷ evs) (id ∷ ids) db =
      IsStored track_id i ev id db × ListStored track_id i evs ids db

  -- All evidence of the rows from index `i` on.
  abbrev pub AllStored : ℕ → List (MapResultRow Value) → List (Row Real) → Type 0
  AllStored i [] db = Unit
  AllStored i (row ∷ rows) db =
      ListStored row.track_id i row.evidence row.evidence_ids db × AllStored (suc i) rows db

  ListStored-grown :
      (track_id : String) (i : ℕ) (evs : List String) (ids : List ℤ) (db after : List (Row Real))
      → ((row : Row Real) → Memᴰ row db → Memᴰ row after)
      → ListStored track_id i evs ids db
      → ListStored track_id i evs ids after
  ListStored-grown track_id i [] [] db after g h = tt
  ListStored-grown track_id i [] (id ∷ ids) db after g h = absurd h
  ListStored-grown track_id i (ev ∷ evs) [] db after g h = absurd h
  ListStored-grown track_id i (ev ∷ evs) (id ∷ ids) db after g h =
      ((g _ h.0.0, g _ h.0.1), ListStored-grown track_id i evs ids db after g h.1)

  inserted-run :
      (row : Row Real) (db after : List (Row Real))
      → insert_row row db ≡ ok after
      → has_key "runs" (text run_id) db ≡ true
      → has_key "runs" (text run_id) after ≡ true
  inserted-run row db after q h =
      rw ((insert_row-IsInserted row db after q).appended)
        (ground (arith, h, has_key-append "runs" (text run_id) row db))

  -- A link to evidence that is there is not refused.
  link_row_lem :
      (track_id : String) (i : ℕ) (id : ℤ) (db : List (Row Real))
      → IsReady db
      → has_key "evidence" (number id) db ≡ true
      → let row = row_evidence_row (row_evidence_of m clock now run_id track_id i id) in
        (link_row m clock now run_id track_id i id db ≡ db ++ row ∷ []) × IsReady (db ++ row ∷ [])
  unfolding link_row insert_row_evidence insert_row
  link_row_lem track_id i id db ready there =
      let row : Row Real = row_evidence_row (row_evidence_of m clock now run_id track_id i id) in
      let q : insert_row row db ≡ ok (db ++ row ∷ []) =
        ground (arith, there, ready.1, has_key-null "row_evidence" db) in
      (
        ground (arith, there, ready.1, has_key-null "row_evidence" db),
        (insert_row_keeps row refl ready.0 q, inserted-run row db (db ++ row ∷ []) q ready.1),
      )

  insert_evidence_lem :
      (r : Evidence Real Time) (db : List (Row Real))
      → IsReady db
      → (id : ℤ) (after : List (Row Real)) → insert_evidence clock r db ≡ ok (after, id)
      → (after ≡ db ++ evidence_row id (evidence_columns clock r) ∷ [])
        × IsReady after
        × (has_key "evidence" (number id) after ≡ true)
  unfolding call insert_evidence
  insert_evidence_lem r db ready id after q =
      let n = pos (suc (evidence_count db)) in
      let (p, same) =
        with_id-ok n id after (insert_row (evidence_row n (evidence_columns clock r)) db) q in
      let e : after ≡ db ++ evidence_row id (evidence_columns clock r) ∷ [] =
        subst (λ j. after ≡ db ++ evidence_row j (evidence_columns clock r) ∷ []) same
          (insert_row-IsInserted (evidence_row n (evidence_columns clock r)) db after p).appended in
      (
        e,
        (
          call-IsSound clock now (an_evidence r) db after ready.0 (ap without_id q),
          inserted-run (evidence_row n (evidence_columns clock r)) db after p ready.1,
        ),
        rw e (
            ground (
              arith,
              has_key-append "evidence" (number id) (evidence_row id (evidence_columns clock r)) db,
              int_eq_iff id id,
            )),
      )

  pub record ListLinked (track_id : String) (i : ℕ) (evs : List String) (ids : List ℤ)
      (db : List (Row Real)) (out : List ℤ × List (Row Real)) : Type 0 where
    pub given : List ℤ
    pub appended : out.0 ≡ ids ++ given
    pub stored : ListStored track_id i evs given out.1
    pub grows : (row : Row Real) → Memᴰ row db → Memᴰ row out.1
    pub ready : IsReady out.1

  link_list_lem :
      (track_id : String) (i : ℕ) (evs : List String) (ids : List ℤ) (db : List (Row Real))
      → IsReady db
      → ListLinked track_id i evs ids db (link_list m clock now run_id track_id i evs ids db)
  unfolding link_list
  link_list_lem track_id i [] ids db ready = record {
    given = [];
    appended = sym (append-nil ids);
    stored = tt;
    grows = λ row h. h;
    ready = ready;
  }
  link_list_lem track_id i (ev ∷ evs) ids db ready =
      let r = evidence_of m clock now run_id track_id ev in
      let ((after, id), q) = (insert_evidence_iff clock r db ready.0).1 ready.1 in
      let (e, ready1, there) = insert_evidence_lem r db ready id after q in
      let (l, ready2) = link_row_lem track_id i id after ready1 there in
      let link : Row Real = row_evidence_row (row_evidence_of m clock now run_id track_id i id) in
      let rest =
        link_list_lem track_id i evs (ids ++ id ∷ [])
          (link_row m clock now run_id track_id i id after) (rw l ready2) in
      let kept : (row : Row Real)
          → Memᴰ row after
          → Memᴰ row (link_row m clock now run_id track_id i id after) =
        λ row h. rw l (mem-append (link ∷ []) h) in
      rw (q, link_list)
        (record {
          given = id ∷ rest.given;
          appended = rest.appended ∙ append_assoc ids (id ∷ []) rest.given;
          stored = (
            (rest.grows _ (kept _ (rw e (mem_last _ db))), rest.grows _ (rw l (mem_last _ after))),
            rest.stored,
          );
          grows = λ row h. rest.grows row (kept row (rw e (mem-append _ h)));
          ready = rest.ready;
        })

  ListStored-length :
      (track_id : String) (i : ℕ) (evs : List String) (ids : List ℤ) (db : List (Row Real))
      → ListStored track_id i evs ids db
      → length ids ≡ length evs
  ListStored-length track_id i [] [] db h = refl
  ListStored-length track_id i [] (id ∷ ids) db h = absurd h
  ListStored-length track_id i (ev ∷ evs) [] db h = absurd h
  ListStored-length track_id i (ev ∷ evs) (id ∷ ids) db h =
      ap suc (ListStored-length track_id i evs ids db h.1)

  pub record RowsLinked (i : ℕ) (rows : List (MapResultRow Value)) (db : List (Row Real))
      (out : List (MapResultRow Value) × List (Row Real)) : Type 0 where
    pub same_rows : map without_ids out.0 ≡ rows
    pub id_each : All (λ row. length row.evidence_ids ≡ length row.evidence) out.0
    pub stored : AllStored i out.0 out.1
    pub grows : (row : Row Real) → Memᴰ row db → Memᴰ row out.1
    pub ready : IsReady out.1

  pub link_rows_lem :
      (i : ℕ) (rows : List (MapResultRow Value)) (db : List (Row Real))
      → IsReady db
      → All (λ row. row.evidence_ids ≡ []) rows
      → RowsLinked i rows db (link_rows m clock now run_id i rows db)
  unfolding link_rows
  link_rows_lem i [] db ready h = record {
    same_rows = refl;
    id_each = tt;
    stored = tt;
    grows = λ row h. h;
    ready = ready;
  }
  link_rows_lem i (row ∷ rows) db ready h =
      let one = link_list_lem row.track_id i row.evidence row.evidence_ids db ready in
      let linked = link_list m clock now run_id row.track_id i row.evidence row.evidence_ids db in
      let rest = link_rows_lem (suc i) rows linked.1 one.ready h.1 in
      let ids : linked.0 ≡ one.given = one.appended ∙ ap (λ xs. xs ++ one.given) h.0 in
      record {
        same_rows = λ k. record row { evidence_ids = sym h.0 k } ∷ rest.same_rows k;
        id_each = (
          ap length ids
              ∙ ListStored-length row.track_id i row.evidence one.given linked.1 one.stored,
          rest.id_each,
        );
        stored = (
          ListStored-grown row.track_id i row.evidence linked.0 linked.1 _ rest.grows (
              subst (λ xs. ListStored row.track_id i row.evidence xs linked.1) (sym ids)
                one.stored),
          rest.stored,
        );
        grows = λ r g. rest.grows r (one.grows r g);
        ready = rest.ready;
      }
