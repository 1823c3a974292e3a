-- ===== src/Agentd/Guard/Confined.antt =====
-- internal/agentd/tools/tools.go: what a path that the guard lets through is.
use virmux.Prelude.{
  Bool-cases, ok, err, All, All-append, String, ◌≡◌, refl, sym, ap, ◌∙◌, subst, ◌≢◌, inl, inr, Bool,
  true, false, not, ◌&&◌, Option, none, some, List, [], ◌∷◌, ◌++◌, arith, str_eq, eq_iff, is_nil,
  if_ind, is_blank, split_slash,
}
use virmux.Agentd.Guard.{
  CleanPath, regular, directory, symlink, special, Stat, missing, lstat_failed, found, GuardError,
  path_denied, clean_parts, clean, under_data, strip_root, deny_if_symlink, walk,
  deny_symlink_components, guard_below, guard_parts, guard_data_path_with_root, guard_data_path,
  judge_part, judge_root,
}
use virmux.Agentd.Guard.Cleaned.{
  IsPlain, clean_parts_plain, strip_root_append, clean-IsPlain, under_data-IsPlain,
}

module _ (lstat : List String → Stat)
    (absent : (cur : List String) (part : String)
      → lstat cur ≡ missing
      → lstat (cur ++ part ∷ []) ≡ missing) where
  -- No part behind `cur` is a symbolic link.
  abbrev pub NoLink : List String → List String → Type 0
  NoLink cur [] = Unit
  NoLink cur (p ∷ ps) = (lstat (cur ++ p ∷ []) ≢ found symlink) × NoLink (cur ++ p ∷ []) ps

  NoLink-missing : (cur rest : List String) → lstat cur ≡ missing → NoLink cur rest
  NoLink-missing cur [] h = tt
  NoLink-missing cur (p ∷ rest) h =
      (λ e. let q = absent cur p h in cc, NoLink-missing (cur ++ p ∷ []) rest (absent cur p h))

  judge-NoLink :
      (allow last : Bool) (cur : List String) (p : String) (rest : List String)
      (walked : Option GuardError) (st : Stat)
      → lstat (cur ++ p ∷ []) ≡ st
      → judge_part allow (cur ++ p ∷ []) last walked st ≡ none
      → (walked ≡ none → NoLink (cur ++ p ∷ []) rest)
      → NoLink cur (p ∷ rest)
  unfolding judge_part
  judge-NoLink allow last cur p rest walked missing q h next =
      (λ e. cc, NoLink-missing (cur ++ p ∷ []) rest q)
  judge-NoLink allow last cur p rest walked (lstat_failed x) q h next = absurd (cc h)
  judge-NoLink allow last cur p rest walked (found symlink) q h next = absurd (cc h)
  judge-NoLink allow last cur p rest walked (found regular) q h next =
      (λ e. cc, next (ground arith))
  judge-NoLink allow last cur p rest walked (found directory) q h next =
      (λ e. cc, next (ground arith))
  judge-NoLink allow last cur p rest walked (found special) q h next =
      (λ e. cc, next (ground arith))

  walk-NoLink :
      (allow : Bool) (cur rest : List String)
      → All IsPlain rest
      → walk lstat allow cur rest ≡ none
      → NoLink cur rest
  unfolding walk
  walk-NoLink allow cur [] plain h = tt
  walk-NoLink allow cur (p ∷ rest) plain h =
      judge-NoLink allow (is_nil rest) cur p rest (walk lstat allow (cur ++ p ∷ []) rest)
        (lstat (cur ++ p ∷ [])) refl (ground (arith, h, plain))
        (walk-NoLink allow (cur ++ p ∷ []) rest plain.1)

  -- What a check of the components that passes has found.
  record Passed (root target : CleanPath) (allow : Bool) : Type 0 where
    pub is_rooted : root.rooted ≡ true
    pub rel : List String
    pub below : strip_root root.parts target.parts ≡ some rel
    pub root_no_link : lstat root.parts ≢ found symlink
    pub walked : walk lstat allow root.parts rel ≡ none

  root-no_link :
      (path : List String) → deny_if_symlink lstat path ≡ none → lstat path ≢ found symlink
  unfolding deny_if_symlink judge_root
  root-no_link path h e = let q = subst (λ st. judge_root path st ≡ none) e h in cc

  deny-Passed :
      (root target : CleanPath) (allow : Bool)
      → deny_symlink_components lstat root target allow ≡ none
      → Passed root target allow
  unfolding deny_symlink_components
  deny-Passed root target allow h =
      if_ind (λ e. e ≡ none → Passed root target allow) (not (root.rooted && target.rooted))
        (λ relative e. absurd (cc e))
        (λ both e. stripped both (strip_root root.parts target.parts) refl e) h
    where
      checked :
          not (root.rooted && target.rooted) ≡ false
          → (rel : List String) → strip_root root.parts target.parts ≡ some rel
          → (o : Option GuardError) → deny_if_symlink lstat root.parts ≡ o
          → elim o [ some e ↦ some e | none ↦ walk lstat allow root.parts rel ] ≡ none
          → Passed root target allow
      checked both rel e (some x) q h = absurd (cc h)
      checked both rel e none q h = record {
        is_rooted = ground (arith, both);
        rel = rel;
        below = e;
        root_no_link = root-no_link root.parts q;
        walked = h;
      }

      stripped :
          not (root.rooted && target.rooted) ≡ false
          → (o : Option (List String)) → strip_root root.parts target.parts ≡ o
          → elim o [
            | none ↦ some (path_denied target.parts)
            | some rel ↦ elim (deny_if_symlink lstat root.parts) [
              | some e ↦ some e
              | none ↦ walk lstat allow root.parts rel
            ]
          ]
            ≡ none
          → Passed root target allow
      stripped both none q h = absurd (cc h)
      stripped both (some rel) q h = checked both rel q (deny_if_symlink lstat root.parts) refl h

  guard_below-lem :
      (root : CleanPath) (rest : List String) (allow : Bool) {host : List String}
      → (root.rooted ≡ true → All IsPlain root.parts)
      → All IsPlain rest
      → guard_below lstat root rest allow ≡ ok host
      → (host ≡ root.parts ++ rest) × (lstat root.parts ≢ found symlink) × NoLink root.parts rest
  unfolding guard_below
  guard_below-lem root rest allow plain_root plain h =
      decided (deny_symlink_components lstat root target allow) refl h
    where
      target : CleanPath
      target = record {
        rooted = root.rooted;
        parts = clean_parts root.rooted [] (root.parts ++ rest);
      }

      decided :
          (o : Option GuardError)
          → deny_symlink_components lstat root target allow ≡ o
          → {host : List String} → elim o [ some e ↦ err e | none ↦ ok target.parts ] ≡ ok host
          → (host ≡ root.parts ++ rest)
            × (lstat root.parts ≢ found symlink)
            × NoLink root.parts rest
      decided (some e) q same = absurd (cc same)
      decided none q {host = out} same =
          let pass : Passed root target allow = deny-Passed root target allow q in
          let own : target.parts ≡ root.parts ++ rest =
            subst (λ r. clean_parts r [] (root.parts ++ rest) ≡ root.parts ++ rest)
              (sym pass.is_rooted)
              (clean_parts_plain (root.parts ++ rest)
                (All-append IsPlain root.parts rest (plain_root pass.is_rooted) plain)) in
          let all : pass.rel ≡ rest =
            strip_root_append root.parts rest
              (subst (λ t. strip_root root.parts t ≡ some pass.rel) own pass.below) in
          let given : out ≡ target.parts = cc in
          (
            given ∙ own,
            pass.root_no_link,
            walk-NoLink allow root.parts rest plain
                (subst (λ r. walk lstat allow root.parts r ≡ none) all pass.walked),
          )

  guard_parts-lem :
      (root : CleanPath) (parts : List String) (allow : Bool) {host : List String}
      → (root.rooted ≡ true → All IsPlain root.parts)
      → All IsPlain parts
      → guard_parts lstat root parts allow ≡ ok host
      → (rest : List String) × (parts ≡ "data" ∷ rest)
        × (host ≡ root.parts ++ rest)
        × (lstat root.parts ≢ found symlink)
        × NoLink root.parts rest
  unfolding guard_parts
  guard_parts-lem root [] allow plain_root plain h = absurd (cc h)
  guard_parts-lem root (top ∷ rest) allow {host = host} plain_root plain h =
      elim (Bool-cases (str_eq top "data")) [
        | inl named ↦
            let (same, top_link, links) =
              guard_below-lem root rest allow {host = host} plain_root plain.1
                (ground (arith, h, named)) in
            (rest, ap (λ t. t ∷ rest) ((eq_iff top "data").0 named), same, top_link, links)
        | inr other ↦ absurd (ground (arith, h, other))
      ]

  -- Let what is below a missing path be missing too. A path that the guard lets through stands for
  -- /data and some parts, and is given back as those parts behind the host root. None of them is
  -- empty, "." or "..", and neither the host root nor any path from it to the result is a symbolic
  -- link.
  pub guard_confines :
      (p host_root : String) (allow_create : Bool) {host : List String}
      → guard_data_path_with_root lstat p host_root allow_create ≡ ok host
      → (rest : List String) × (under_data p ≡ "data" ∷ rest)
        × (host ≡ (clean host_root).parts ++ rest)
        × All IsPlain rest
        × (lstat (clean host_root).parts ≢ found symlink)
        × NoLink (clean host_root).parts rest
  unfolding guard_data_path_with_root
  guard_confines p host_root allow_create {host = host} h = elim (Bool-cases (is_blank p)) [
    | inl blank ↦ absurd (ground (arith, h, blank))
    | inr given ↦ elim (Bool-cases (is_blank host_root)) [
      | inl blank ↦ absurd (ground (arith, h, blank, given))
      | inr rooted ↦
          let (rest, e, same, top, links) =
            guard_parts-lem (clean host_root) (under_data p) allow_create {host = host}
              (clean-IsPlain host_root) (under_data-IsPlain p) (ground (arith, h, given, rooted)) in
          (rest, e, same, (subst (All IsPlain) e (under_data-IsPlain p)).1, top, links)
    ]
  ]

  -- The parts of "/dev/virmux-data".
  abbrev pub data_root : List String
  data_root = "dev" ∷ "virmux-data" ∷ []

  -- The same of the host root that the tools use.
  pub guard_data_path-lem :
      (p : String) (allow_create : Bool) {host : List String}
      → guard_data_path lstat p allow_create ≡ ok host
      → (rest : List String) × (host ≡ data_root ++ rest)
        × (lstat data_root ≢ found symlink)
        × All IsPlain rest
        × NoLink data_root rest
  unfolding guard_data_path clean split_slash
  guard_data_path-lem p allow_create {host = host} h =
      let (rest, e, same, plain, top, links) =
        guard_confines p "/dev/virmux-data" allow_create {host = host} h in
      (rest, same, top, plain, links)
