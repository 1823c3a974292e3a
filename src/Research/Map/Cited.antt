-- ===== src/Research/Map/Cited.antt =====
-- internal/skill/research/mapper.go and reducer.go: the reducer cites the rows with evidence.
use virmux.Prelude.{if◌then◌else◌, ◌≡◌, Bool, not, List, [], ◌∷◌, is_nil}
use virmux.Research.Map.{MapResultRow}

module _ {Value : Type 0} where
  abbrev pub keep :
      (MapResultRow Value → Bool) → List (MapResultRow Value) → List (MapResultRow Value)
  keep f [] = []
  keep f (row ∷ rows) = let rest = keep f rows in if f row then row ∷ rest else rest

  -- A split of rows by their evidence, in their order.
  pub record IsSplit (rows : List (MapResultRow Value))
      (split : List (MapResultRow Value) × List (MapResultRow Value)) : Type 0 where
    pub with_evidence : split.0 ≡ keep (λ row. not (is_nil row.evidence)) rows
    pub without_evidence : split.1 ≡ keep (λ row. is_nil row.evidence) rows
