-- ===== src/Research/Map/Origin.antt =====
-- internal/skill/research/mapper.go: what the row of a cell holds, and where a cached one is from.
use Prim.Native.String.{◌++◌ as concat}
use virmux.Prelude.{
  ◌==◌, if◌then◌else◌, Bool-cases, Option-cases, update, ℕ, ◌%◌, String, ◌≡◌, refl, ap, ◌∙◌, subst,
  ◌⊎◌, inl, inr, Bool, false, Option, some, List, [], ◌∷◌, arith, str_eq, eq_iff, if_ind,
}
use virmux.Skill.Judge.Rubric.{lookup}
use virmux.Research.Plan.{Track}
use virmux.Research.Map.{
  MapResultRow, GridCell, CacheEntry, Cache, Mapping, put, get_cache_key, cell_id, check_cache,
  save_cache, hit_row, mock_row, run_cell,
}

lookup-put :
    {V : Type 0} (j k : String) (v : V) (m : List (String × V))
    → lookup j (put k v m) ≡ (if str_eq k j then some v else lookup j m)
lookup-put j k v [] = ground arith
lookup-put j k v ((i, w) ∷ m) =
    ground (arith, lookup-put j k v m, eq_iff i k, eq_iff i j, eq_iff k j)

module _ {Real Value : Type 0} (m : Mapping Real Value) (track : Track) (start : Cache Value) where
  -- The text of a cell.
  abbrev pub name_of : GridCell → String
  name_of cell = concat cell.target (concat ":" cell.attr)

  abbrev pub key_of : GridCell → String
  key_of cell = m.sha256 (concat track.q (concat "\n" (name_of cell)))

  -- What the tool gives for a cell.
  pub record IsResult (cell : GridCell) (values : List (String × Value)) : Type 0 where
    pub target : lookup "target" values ≡ some (m.text_value cell.target)
    pub attr : lookup "attr" values ≡ some (m.text_value cell.attr)
    pub result : lookup "result" values ≡ some (m.text_value (concat "result for " (name_of cell)))

  -- An entry at `key` was in memory or in the folder at the start, or is the result for a cell with
  -- that key.
  abbrev pub Origin : String → CacheEntry Value → Type 0
  Origin key entry =
      (start.memory key ≡ some entry)
      ⊎ ((start.disk key ≡ some entry)
          ⊎ ((cell : GridCell) × (key ≡ key_of cell)
              × IsResult cell entry.values
              × (entry.evidence ≡ [])))

  -- A row of the tool, with its source unless the count of rows before it is a multiple of 3.
  pub record IsFresh (cell : GridCell) (n : ℕ) (row : MapResultRow Value) : Type 0 where
    pub result : IsResult cell row.values
    pub source :
        row.evidence
        ≡ (if n % 3 == 0 then [] else concat "https://example.com/source/" (name_of cell) ∷ [])

  -- A row of a cached entry, marked as such.
  pub record IsHit (cell : GridCell) (row : MapResultRow Value) : Type 0 where
    pub entry : CacheEntry Value
    pub origin : Origin (key_of cell) entry
    pub marked : lookup "cache" row.values ≡ some (m.text_value "hit")
    pub same_values :
        (k : String) → str_eq "cache" k ≡ false → lookup k row.values ≡ lookup k entry.values
    pub same_evidence : row.evidence ≡ entry.evidence

  abbrev pub IsRowOf : GridCell → ℕ → MapResultRow Value → Type 0
  IsRowOf cell n row = IsFresh cell n row ⊎ IsHit cell row

  abbrev AreFrom : (String → Option (CacheEntry Value)) → Type 0
  AreFrom f = (key : String) (entry : CacheEntry Value) → f key ≡ some entry → Origin key entry

  -- All entries of the cache have such an origin.
  abbrev pub IsFrom : Cache Value → Type 0
  IsFrom c = AreFrom c.memory × AreFrom c.disk

  pub start-IsFrom : IsFrom start
  start-IsFrom = (λ key entry h. inl h, λ key entry h. inr (inl h))

  update-AreFrom :
      (f : String → Option (CacheEntry Value)) (key : String) (entry : CacheEntry Value)
      → AreFrom f
      → Origin key entry
      → AreFrom (update f key (some entry))
  unfolding update
  update-AreFrom f key entry from o k e h = elim (Bool-cases (str_eq key k)) [
    | inl same ↦
        subst (λ j. Origin j e) ((eq_iff key k).0 same) (subst (Origin key) (cc (rw same at h)) o)
    | inr other ↦ from k e (rw other at h)
  ]

  check_cache-IsFrom :
      (c : Cache Value) (key : String)
      → IsFrom c
      → IsFrom (check_cache m c key).1
        × ((e : CacheEntry Value) → (check_cache m c key).0 ≡ some e → Origin key e)
  unfolding check_cache
  check_cache-IsFrom c key from = elim (Option-cases (c.memory key)) [
    | inr (e, q) ↦ rw (q, check_cache) (from, λ f h. from.0 key f (q ∙ h))
    | inl q ↦ elim (Bool-cases c.has_dir) [
      | inr gone ↦ rw (q, check_cache) (rw (gone, check_cache) (from, λ f h. absurd (cc h)))
      | inl kept ↦ elim (Option-cases (c.disk key)) [
        | inl p ↦
            rw (q, check_cache)
              (rw (kept, check_cache) (rw (p, check_cache) (from, λ f h. absurd (cc h))))
        | inr (e, p) ↦
            rw (q, check_cache)
              (rw (kept, check_cache)
                (rw (p, check_cache)
                  (
                    (update-AreFrom c.memory key e from.0 (from.1 key e p), from.1),
                    λ f h. from.1 key f (p ∙ h),
                  )))
      ]
    ]
  ]

  save_cache-IsFrom :
      (c : Cache Value) (key : String) (entry : CacheEntry Value)
      → IsFrom c
      → Origin key entry
      → IsFrom (save_cache m c key entry)
  unfolding save_cache
  save_cache-IsFrom c key entry from o =
      let memory = update-AreFrom c.memory key entry from.0 o in
      if_ind IsFrom c.has_dir (λ h. (memory, update-AreFrom c.disk key entry from.1 o))
        (λ h. (memory, from.1))

  hit_row-IsHit :
      (cell : GridCell) (e : CacheEntry Value)
      → Origin (key_of cell) e
      → IsHit cell (hit_row m track e)
  hit_row-IsHit cell e o = record {
    entry = e;
    origin = o;
    marked = lookup-put "cache" "cache" (m.text_value "hit") e.values;
    same_values = λ k other.
        lookup-put k "cache" (m.text_value "hit") e.values
        ∙ ap (λ (b : Bool). if b then some (m.text_value "hit") else lookup k e.values) other;
    same_evidence = refl;
  }

  mock_row-IsResult : (cell : GridCell) (n : ℕ) → IsResult cell (mock_row m track cell n).values
  mock_row-IsResult cell n = record { target = refl; attr = refl; result = refl }

  pub run_cell-IsRowOf :
      (cell : GridCell) (n : ℕ) (c : Cache Value)
      → IsFrom c
      → let out = run_cell m track cell n c in IsRowOf cell n out.0 × IsFrom out.1
  unfolding run_cell
  run_cell-IsRowOf cell n c from =
      let key = get_cache_key m track.q (cell_id m track cell) in
      let checked = check_cache-IsFrom c key from in
      elim (Option-cases (check_cache m c key).0) [
        | inr (e, q) ↦
            let hit : IsHit cell (hit_row m track e) = hit_row-IsHit cell e (checked.1 e q) in
            rw (q, run_cell) (inr hit, checked.0)
        | inl q ↦
            let made : IsFresh cell n (mock_row m track cell n) = record {
              result = mock_row-IsResult cell n;
              source = refl;
            } in
            let entry : CacheEntry Value = record {
              query_hash = key;
              url = "";
              values = (mock_row m track cell n).values;
              evidence = [];
            } in
            rw (q, run_cell)
              (
                inl made,
                save_cache-IsFrom (check_cache m c key).1 key entry checked.0
                    (inr (inr (cell, refl, mock_row-IsResult cell n, refl))),
              )
      ]
