-- ===== src/Research/Replay/Compared.antt =====
-- internal/skill/research/replay.go: when two runs of a track give the same rows.
use virmux.Prelude.{
  ◌==◌, if◌then◌else◌, ==_iff, Bool-cases, length, elem, ℕ, suc, String, ◌≡◌, refl, sym, ap, ◌∙◌,
  subst, ◌↔◌, inl, inr, Bool, true, false, Option, none, some, List, [], ◌∷◌, arith, str_eq, eq_iff,
}
use virmux.Skill.Judge.Rubric.{lookup}
use virmux.Research.Replay.{
  JsonRow, delete, keys_of, same_value, agree, row_eq, read_rows, compare_rows, compare_files,
}

module _ {Value : Type 0} where
  lookup-delete :
      (k key : String) (row : JsonRow Value)
      → lookup k (delete key row) ≡ (if str_eq key k then none else lookup k row)
  unfolding delete
  lookup-delete k key [] = ground arith
  lookup-delete k key ((j, v) ∷ row) =
      ground (arith, lookup-delete k key row, eq_iff j key, eq_iff j k, eq_iff key k)

  lookup-none :
      (k : String) (row : JsonRow Value) → elem k (keys_of row) ≡ false → lookup k row ≡ none
  lookup-none k [] h = refl
  lookup-none k ((j, v) ∷ row) h = ground (arith, h, lookup-none k row, eq_iff j k, eq_iff k j)

  -- The same value, or none, at each key but "evidence_ids".
  abbrev pub Same : JsonRow Value → JsonRow Value → Type 0
  Same o n = (k : String) → str_eq "evidence_ids" k ≡ false → lookup k o ≡ lookup k n

  abbrev pub AllSame : List (JsonRow Value) → List (JsonRow Value) → Type 0
  AllSame [] [] = Unit
  AllSame [] (n ∷ news) = ⊥
  AllSame (o ∷ olds) [] = ⊥
  AllSame (o ∷ olds) (n ∷ news) = Same o n × AllSame olds news

  AllSame-length :
      (olds news : List (JsonRow Value)) → AllSame olds news → length olds ≡ length news
  AllSame-length [] [] h = refl
  AllSame-length [] (n ∷ news) h = absurd h
  AllSame-length (o ∷ olds) [] h = absurd h
  AllSame-length (o ∷ olds) (n ∷ news) h = ap suc (AllSame-length olds news h.1)

module _ {Value : Type 0} (unmarshal : String → Option (JsonRow Value))
    (value_eq : Value → Value → Bool)
    (decides : (v w : Value) → (value_eq v w ≡ true) ↔ (v ≡ w)) where
  same_value_iff : (a b : Option Value) → (same_value unmarshal value_eq a b ≡ true) ↔ (a ≡ b)
  same_value_iff none none = (λ h. refl, λ h. refl)
  same_value_iff none (some w) = (λ h. absurd (cc h), λ h. absurd (cc h))
  same_value_iff (some v) none = (λ h. absurd (cc h), λ h. absurd (cc h))
  same_value_iff (some v) (some w) = (λ h. ap some ((decides v w).0 h), λ h. (decides v w).1 (cc h))

  of_agree :
      (ks : List String) (a b : JsonRow Value)
      → agree unmarshal value_eq ks a b ≡ true
      → (k : String) → elem k ks ≡ true
      → lookup k a ≡ lookup k b
  of_agree [] a b h k m = absurd (cc m)
  of_agree (j ∷ ks) a b h k m =
      let first = (same_value_iff (lookup j a) (lookup j b)).0 (ground (arith, h)) in
      let rest = of_agree ks a b (ground (arith, h)) k in
      elim (Bool-cases (str_eq k j)) [
        | inl same ↦ subst (λ i. lookup i a ≡ lookup i b) (sym ((eq_iff k j).0 same)) first
        | inr other ↦ rest (ground (arith, m, other, eq_iff k j, eq_iff j k))
      ]

  agree_of :
      (ks : List String) (a b : JsonRow Value)
      → ((k : String) → lookup k a ≡ lookup k b)
      → agree unmarshal value_eq ks a b ≡ true
  agree_of [] a b h = refl
  agree_of (j ∷ ks) a b h =
      ground (arith, (same_value_iff (lookup j a) (lookup j b)).1 (h j), agree_of ks a b h)

  of_row_eq :
      (a b : JsonRow Value)
      → row_eq unmarshal value_eq a b ≡ true
      → (k : String) → lookup k a ≡ lookup k b
  of_row_eq a b h k = elim (Bool-cases (elem k (keys_of a))) [
    | inl m ↦ of_agree (keys_of a) a b (ground (arith, h)) k m
    | inr out ↦ elim (Bool-cases (elem k (keys_of b))) [
      | inl m ↦ of_agree (keys_of b) a b (ground (arith, h)) k m
      | inr out_b ↦ lookup-none k a out ∙ sym (lookup-none k b out_b)
    ]
  ]

  row_eq_iff :
      (o n : JsonRow Value)
      → (row_eq unmarshal value_eq (delete "evidence_ids" o) (delete "evidence_ids" n) ≡ true)
        ↔ Same o n
  row_eq_iff o n = (
    λ h k other.
        let same = of_row_eq (delete "evidence_ids" o) (delete "evidence_ids" n) h k in
        ground
          (arith, other, same, lookup-delete k "evidence_ids" o, lookup-delete k "evidence_ids" n),
    λ same.
        let each : (k : String)
            → lookup k (delete "evidence_ids" o) ≡ lookup k (delete "evidence_ids" n) =
          λ k. elim (Bool-cases (str_eq "evidence_ids" k)) [
            | inl it ↦
                ground
                  (arith, it, lookup-delete k "evidence_ids" o, lookup-delete k "evidence_ids" n)
            | inr other ↦ ground (
              arith,
              other,
              same k other,
              lookup-delete k "evidence_ids" o,
              lookup-delete k "evidence_ids" n,
            )
          ] in
        let a = agree_of (keys_of (delete "evidence_ids" o)) _ _ each in
        let b = agree_of (keys_of (delete "evidence_ids" n)) _ _ each in ground (arith, a, b),
  )

  compare_rows_iff :
      (i : ℕ) (olds news : List (JsonRow Value))
      → length olds ≡ length news
      → (compare_rows unmarshal value_eq i olds news ≡ []) ↔ AllSame olds news
  unfolding compare_rows
  compare_rows_iff i [] [] e = (λ h. tt, λ h. refl)
  compare_rows_iff i [] (n ∷ news) e = absurd (omega (arith, e))
  compare_rows_iff i (o ∷ olds) [] e = absurd (omega (arith, e))
  compare_rows_iff i (o ∷ olds) (n ∷ news) e =
      let rest = compare_rows_iff (suc i) olds news (omega (arith, e)) in
      elim (Bool-cases
        (row_eq unmarshal value_eq (delete "evidence_ids" o) (delete "evidence_ids" n))) [
          | inl same ↦
              rw (same, compare_rows) (λ h. ((row_eq_iff o n).0 same, rest.0 h), λ h. rest.1 h.1)
          | inr other ↦
              rw (other, compare_rows)
                (λ h. absurd (cc h), λ h. absurd (cc (other, (row_eq_iff o n).1 h.0)))
        ]

  -- If `value_eq` decides equality, the comparison finds nothing exactly if the lines that parse are
  -- as many in both files, and hold the same objects in the same order, but for what is at the key
  -- "evidence_ids".
  pub compare_files_iff :
      (old new : Option (List String))
      → (compare_files unmarshal value_eq old new ≡ [])
        ↔ AllSame (read_rows unmarshal value_eq old) (read_rows unmarshal value_eq new)
  unfolding compare_files
  compare_files_iff old new =
      let olds = read_rows unmarshal value_eq old in
      let news = read_rows unmarshal value_eq new in
      elim (Bool-cases (length olds == length news)) [
        | inl same ↦
            rw same (compare_rows_iff 0 olds news ((==_iff (length olds) (length news)).0 same))
        | inr other ↦
            rw other
              (λ h. absurd (cc h), λ h. absurd (ground (arith, other, AllSame-length olds news h)))
      ]
