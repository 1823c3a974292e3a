-- ===== src/Agentd/Guard/Cleaned.antt =====
-- internal/agentd/tools/tools.go: the parts of a clean path.
use virmux.Prelude.{
  All, String, ◌≡◌, refl, sym, subst, true, false, some, List, [], ◌∷◌, ◌++◌, arith, str_eq,
  eq_refl, if_ind, split_slash,
}
use virmux.Agentd.Guard.{
  back, clean_part, rev_onto, clean_parts, clean, under_data, strip, strip_root,
}

-- A part that names an entry of a directory.
abbrev pub IsPlain : String → Type 0
IsPlain p = (str_eq p "" ≡ false) × (str_eq p "." ≡ false) × (str_eq p ".." ≡ false)

pub rev_onto-All :
    (out acc : List String) → All IsPlain out → All IsPlain acc → All IsPlain (rev_onto out acc)
unfolding rev_onto
rev_onto-All [] acc ho ha = ha
rev_onto-All (x ∷ xs) acc ho ha = rev_onto-All xs (x ∷ acc) ho.1 (ho.0, ha)

pub clean_part-All :
    (out : List String) (seg : String) → All IsPlain out → All IsPlain (clean_part true out seg)
unfolding clean_part back
clean_part-All [] seg h = ground arith
clean_part-All (p ∷ out) seg h = ground arith

-- A rooted path has no "." or "..", and no empty part, when it is clean.
pub clean_parts-IsPlain :
    (out segs : List String) → All IsPlain out → All IsPlain (clean_parts true out segs)
unfolding clean_parts
clean_parts-IsPlain out [] h = rev_onto-All out [] h tt
clean_parts-IsPlain out (seg ∷ segs) h =
    clean_parts-IsPlain (clean_part true out seg) segs (clean_part-All out seg h)

-- Plain parts are clean.
pub clean_part_self :
    (out : List String) (seg : String) → IsPlain seg → clean_part true out seg ≡ seg ∷ out
unfolding clean_part
clean_part_self out seg h = ground arith

pub clean_parts_self :
    (out segs : List String) → All IsPlain segs → clean_parts true out segs ≡ rev_onto out segs
unfolding clean_parts rev_onto
clean_parts_self out [] h = refl
clean_parts_self out (seg ∷ segs) h =
    rw (clean_part_self out seg h.0) (clean_parts_self (seg ∷ out) segs h.1)

pub clean_parts_plain : (segs : List String) → All IsPlain segs → clean_parts true [] segs ≡ segs
clean_parts_plain segs h = unfold rev_onto in clean_parts_self [] segs h

pub strip_append : (root rest : List String) → strip root (root ++ rest) ≡ some rest
unfolding strip
strip_append [] rest = refl
strip_append (r ∷ root) rest = ground (arith, eq_refl r, strip_append root rest)

pub strip_root_append :
    (root rest : List String) {rel : List String}
    → strip_root root (root ++ rest) ≡ some rel
    → rel ≡ rest
unfolding strip_root
strip_root_append [] [] h = cc
strip_root_append [] (t ∷ rest) h = absurd (cc h)
strip_root_append (r ∷ root) rest h = let q = strip_append (r ∷ root) rest in cc

pub clean-IsPlain : (s : String) → (clean s).rooted ≡ true → All IsPlain (clean s).parts
unfolding clean
clean-IsPlain s h =
    subst (λ r. All IsPlain (clean_parts r [] (split_slash s))) (sym h)
      (clean_parts-IsPlain [] (split_slash s) tt)

pub under_data-IsPlain : (p : String) → All IsPlain (under_data p)
unfolding under_data
under_data-IsPlain p =
    if_ind (All IsPlain) (clean p).rooted (clean-IsPlain p)
      (λ h. clean_parts-IsPlain [] ("data" ∷ (clean p).parts) tt)
