-- ===== src/Prelude/Sorted.antt =====
-- Go's sort.Strings, and the list without its repetitions.
use mathlib.Core.Path.{◌≡◌, refl}
use mathlib.Core.Bool.{Bool, true, false, ◌||◌}
use mathlib.Core.List.{List, [], ◌∷◌}
use Prim.Native.String.{String}
use native.Mathlib.Omega.{arith}
use text.Mathlib.Text.{◌==◌ as str_eq}
use text.Mathlib.TextEquality.{eq_iff}
use virmux.Prelude.Tests.{if◌then◌else◌, bit, if_ind}
use virmux.Prelude.Distinct.{elem, IsDistinct, count}
use virmux.Prelude.Lists.{length}
use Prim.Native.Nat.{suc, ◌+◌}
use virmux.Prelude.TextOrder.{text_leb, text_leb_total, text_leb_trans, text_leb_antisym}

abbrev insert_text : String → List String → List String
insert_text s [] = s ∷ []
insert_text s (t ∷ ts) =
    let rest = insert_text s ts in if text_leb s t then s ∷ t ∷ ts else t ∷ rest

-- sort.Strings
abbrev pub sort_texts : List String → List String
sort_texts [] = []
sort_texts (s ∷ ss) = insert_text s (sort_texts ss)

-- No text of the list stands before `s`.
abbrev pub IsAhead : String → List String → Type 0
IsAhead s [] = Unit
IsAhead s (t ∷ ts) = (text_leb s t ≡ true) × IsAhead s ts

abbrev pub IsSorted : List String → Type 0
IsSorted [] = Unit
IsSorted (s ∷ ss) = IsAhead s ss × IsSorted ss

IsAhead-trans :
    (s t : String) (ts : List String) → text_leb s t ≡ true → IsAhead t ts → IsAhead s ts
IsAhead-trans s t [] h a = tt
IsAhead-trans s t (u ∷ us) h a = (text_leb_trans s t u h a.0, IsAhead-trans s t us h a.1)

IsAhead-insert_text :
    (s t : String) (ts : List String)
    → text_leb s t ≡ true
    → IsAhead s ts
    → IsAhead s (insert_text t ts)
IsAhead-insert_text s t [] h a = (h, tt)
IsAhead-insert_text s t (u ∷ us) h a = ground (arith, h, a, IsAhead-insert_text s t us h)

insert_text-IsSorted : (s : String) (ts : List String) → IsSorted ts → IsSorted (insert_text s ts)
insert_text-IsSorted s [] h = (tt, tt)
insert_text-IsSorted s (t ∷ ts) h = ground (
  arith,
  h,
  IsAhead-trans s t ts,
  text_leb_total s t,
  IsAhead-insert_text t s ts,
  insert_text-IsSorted s ts,
)

pub sort_texts-IsSorted : (ss : List String) → IsSorted (sort_texts ss)
sort_texts-IsSorted [] = tt
sort_texts-IsSorted (s ∷ ss) = insert_text-IsSorted s (sort_texts ss) (sort_texts-IsSorted ss)

elem-insert_text :
    (x s : String) (ts : List String) → elem x (insert_text s ts) ≡ (str_eq s x || elem x ts)
elem-insert_text x s [] = refl
elem-insert_text x s (t ∷ ts) = ground (arith, elem-insert_text x s ts)

pub elem-sort_texts : (x : String) (ss : List String) → elem x (sort_texts ss) ≡ elem x ss
elem-sort_texts x [] = refl
elem-sort_texts x (s ∷ ss) =
    ground (arith, elem-insert_text x s (sort_texts ss), elem-sort_texts x ss)

-- The rest of a sorted list behind `prev`, without repetitions.
abbrev drop_same : String → List String → List String
drop_same prev [] = []
drop_same prev (s ∷ ss) =
    let rest = drop_same s ss in if str_eq s prev then drop_same prev ss else s ∷ rest

-- The sorted list, of equal texts one.
abbrev pub dedupe_sorted : List String → List String
dedupe_sorted [] = []
dedupe_sorted (s ∷ ss) = s ∷ drop_same s ss

elem-drop_same :
    (x prev : String) (ss : List String)
    → (str_eq prev x || elem x (drop_same prev ss)) ≡ (str_eq prev x || elem x ss)
elem-drop_same x prev [] = refl
elem-drop_same x prev (s ∷ ss) =
    ground (arith, elem-drop_same x prev ss, elem-drop_same x s ss, eq_iff s prev)

pub elem-dedupe_sorted : (x : String) (ss : List String) → elem x (dedupe_sorted ss) ≡ elem x ss
elem-dedupe_sorted x [] = refl
elem-dedupe_sorted x (s ∷ ss) = elem-drop_same x s ss

IsAhead-drop_same :
    (s prev : String) (ss : List String) → IsAhead s ss → IsAhead s (drop_same prev ss)
IsAhead-drop_same s prev [] h = tt
IsAhead-drop_same s prev (t ∷ ts) h =
    ground (arith, h, IsAhead-drop_same s prev ts, IsAhead-drop_same s t ts)

drop_same-IsSorted : (prev : String) (ss : List String) → IsSorted ss → IsSorted (drop_same prev ss)
drop_same-IsSorted prev [] h = tt
drop_same-IsSorted prev (s ∷ ss) h =
    ground (arith, h, drop_same-IsSorted prev ss, drop_same-IsSorted s ss, IsAhead-drop_same s s ss)

pub dedupe_sorted-IsSorted : (ss : List String) → IsSorted ss → IsSorted (dedupe_sorted ss)
dedupe_sorted-IsSorted [] h = tt
dedupe_sorted-IsSorted (s ∷ ss) h = (IsAhead-drop_same s s ss h.0, drop_same-IsSorted s ss h.1)

-- What stands behind another text stands behind what is ahead of it.
not_elem-ahead :
    (prev s : String) (ss : List String)
    → str_eq s prev ≡ false
    → text_leb prev s ≡ true
    → IsAhead s ss
    → elem prev ss ≡ false
not_elem-ahead prev s [] other h a = refl
not_elem-ahead prev s (t ∷ ts) other h a = ground (
  arith,
  other,
  h,
  a,
  eq_iff t prev,
  eq_iff s prev,
  text_leb_antisym prev s h,
  not_elem-ahead prev s ts other h,
)

not_elem-drop_same :
    (prev : String) (ss : List String)
    → IsAhead prev ss
    → IsSorted ss
    → elem prev (drop_same prev ss) ≡ false
not_elem-drop_same prev [] a h = refl
not_elem-drop_same prev (s ∷ ss) a h =
    if_ind (λ rest. elem prev rest ≡ false) (str_eq s prev)
      (λ same. not_elem-drop_same prev ss a.1 h.1)
      (λ other.
        rw other (not_elem-ahead prev s (drop_same s ss) other a.0 (IsAhead-drop_same s s ss h.0)))

drop_same-IsDistinct :
    (prev : String) (ss : List String) → IsSorted ss → IsDistinct (drop_same prev ss)
drop_same-IsDistinct prev [] h = tt
drop_same-IsDistinct prev (s ∷ ss) h =
    if_ind IsDistinct (str_eq s prev) (λ same. drop_same-IsDistinct prev ss h.1)
      (λ other. (not_elem-drop_same s ss h.0 h.1, drop_same-IsDistinct s ss h.1))

pub dedupe_sorted-IsDistinct : (ss : List String) → IsSorted ss → IsDistinct (dedupe_sorted ss)
dedupe_sorted-IsDistinct [] h = tt
dedupe_sorted-IsDistinct (s ∷ ss) h =
    (not_elem-drop_same s ss h.0 h.1, drop_same-IsDistinct s ss h.1)

count-insert_text :
    (p : String → Bool) (s : String) (ts : List String)
    → count p (insert_text s ts) ≡ bit (p s) + count p ts
count-insert_text p s [] = refl
count-insert_text p s (t ∷ ts) = ground (arith, count-insert_text p s ts)

pub count-sort_texts : (p : String → Bool) (ss : List String) → count p (sort_texts ss) ≡ count p ss
count-sort_texts p [] = refl
count-sort_texts p (s ∷ ss) =
    omega (arith, count-insert_text p s (sort_texts ss), count-sort_texts p ss)

length-insert_text : (s : String) (ts : List String) → length (insert_text s ts) ≡ suc (length ts)
length-insert_text s [] = refl
length-insert_text s (t ∷ ts) = ground (arith, length-insert_text s ts)

pub length-sort_texts : (ss : List String) → length (sort_texts ss) ≡ length ss
length-sort_texts [] = refl
length-sort_texts (s ∷ ss) =
    omega (arith, length-insert_text s (sort_texts ss), length-sort_texts ss)
