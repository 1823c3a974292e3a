-- ===== src/Prelude/TextOrder.antt =====
-- The order of texts by their code points, as Go and SQLite compare them.
use Prim.Native.Nat.{ℕ, Ordering, compare as compare_nat}
use Prim.Native.Char.{Char, code}
use Prim.Native.String.{String, [], ◌∷◌, then, compare}
use Prim.Native.String.compare as compare_text
use mathlib.Core.Path.{◌≡◌, refl, ap, ◌∙◌, sym}
use mathlib.Core.Bool.{Bool, true, false, ◌||◌, ◌&&◌}
use text.Mathlib.TextEquality.{Char-path}
use native.Mathlib.Omega.{arith}
use virmux.Prelude.Tests.{ltb, ◌==◌}

is_not_gt : Ordering → Bool
is_not_gt Ordering.lt = true
is_not_gt Ordering.eq = true
is_not_gt Ordering.gt = false

unfoldable pub text_leb : String → String → Bool
unfolding is_not_gt
text_leb s t = is_not_gt (compare s t)

is_not_gt-then :
    (m n : ℕ) (o : Ordering)
    → is_not_gt (then (compare_nat m n) o) ≡ (ltb m n || (m == n) && is_not_gt o)
unfolding is_not_gt
is_not_gt-then m n o = ground arith

text_leb_cons :
    (c d : Char) (s t : String)
    → text_leb (c ∷ s) (d ∷ t) ≡ (ltb (code c) (code d) || (code c == code d) && text_leb s t)
unfolding text_leb
text_leb_cons c d s t =
    ap is_not_gt (compare_text.cons-cons c d s t) ∙ is_not_gt-then (code c) (code d) (compare s t)

text_leb_nil : (t : String) → text_leb [] t ≡ true
unfolding text_leb is_not_gt
text_leb_nil [] = refl
text_leb_nil (d ∷ t) = ap is_not_gt (compare_text.nil-cons d t)

text_leb_cons_nil : (c : Char) (s : String) → text_leb (c ∷ s) [] ≡ false
unfolding text_leb is_not_gt
text_leb_cons_nil c s = ap is_not_gt (compare_text.cons-nil c s)

pub text_leb_total : (s t : String) → text_leb s t ≡ false → text_leb t s ≡ true
text_leb_total [] t h = absurd (cc (sym h ∙ text_leb_nil t))
text_leb_total (c ∷ s) [] h = text_leb_nil (c ∷ s)
text_leb_total (c ∷ s) (d ∷ t) h =
    ground (arith, text_leb_cons c d s t, text_leb_cons d c t s, text_leb_total s t)

pub text_leb_trans :
    (s t u : String) → text_leb s t ≡ true → text_leb t u ≡ true → text_leb s u ≡ true
text_leb_trans [] t u h k = text_leb_nil u
text_leb_trans (c ∷ s) [] u h k = absurd (cc (sym h ∙ text_leb_cons_nil c s))
text_leb_trans (c ∷ s) (d ∷ t) [] h k = absurd (cc (sym k ∙ text_leb_cons_nil d t))
text_leb_trans (c ∷ s) (d ∷ t) (e ∷ u) h k = ground (
  arith,
  text_leb_cons c d s t,
  text_leb_cons d e t u,
  text_leb_cons c e s u,
  text_leb_trans s t u,
)

pub text_leb_antisym : (s t : String) → text_leb s t ≡ true → text_leb t s ≡ true → s ≡ t
text_leb_antisym [] [] h k = refl
text_leb_antisym [] (d ∷ t) h k = absurd (cc (sym k ∙ text_leb_cons_nil d t))
text_leb_antisym (c ∷ s) [] h k = absurd (cc (sym h ∙ text_leb_cons_nil c s))
text_leb_antisym (c ∷ s) (d ∷ t) h k =
    let same : code c ≡ code d = ground (arith, text_leb_cons c d s t, text_leb_cons d c t s) in
    let head = Char-path c d same in
    let tail =
      text_leb_antisym s t (ground (arith, text_leb_cons c d s t, same))
        (ground (arith, text_leb_cons d c t s, same)) in
    λ i. head i ∷ tail i
