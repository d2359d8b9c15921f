-- ===== src/WatchedPathMapper/Deepest.antt =====
-- Which root is chosen, and what is known of the file's path below it
-- (AgentUDTC++_v7.2/WatchedPathMapper.cpp).
use mathlib.Core.Path.{subst}
use transfer_udt.Common.{
  ℕ, ◌≤◌, ◌≡◌, refl, sym, ap, ◌∙◌, Bool, true, false, not, ◌||◌, List, [], ◌∷◌, none, some, arith,
  Option-cases, Bool-cases, inl, inr, ◌⊎◌, ltb,
}
use transfer_udt.Common.Bytes.{Bytes}
use transfer_udt.WatchedPathMapper.{
  FsOps, FileType, path_starts_with, same_path_element, has_reparse_point_in_path,
  weakly_canonical_path, element_count, Best, deeper, consider, best_root, within, relative_to,
  try_build_relative_directory,
}
use transfer_udt.WatchedPathMapper.Contains.{
  IsBelow, IsLinkless, IsBelow-iff, distinct_iff, IsLinkless-iff,
}

-- An entry of a list.
abbrev pub Listed : Bytes → List Bytes → Type 0
Listed s [] = ⊥
Listed s (x ∷ rest) = (s ≡ x) ⊎ Listed s rest

module _ (fs : FsOps) (file canonical_file : fs.FsPath) where
  -- A watched root that contains the file: the names of its canonical path begin those of the
  -- file's, which is another path, and from the root to the file everything is there and no link.
  pub record Holds (s : Bytes) (root : fs.FsPath) : Type 0 where
    pub canonical : weakly_canonical_path fs (fs.path_of s) ≡ some root
    pub above : IsBelow fs root canonical_file
    pub proper : fs.string root ≡ fs.string canonical_file → ⊥
    pub linkless : IsLinkless fs (fs.path_of s) file

  abbrev after_one : Bytes → Best fs → Best fs
  after_one s best =
      consider fs file canonical_file (fs.path_of s) (weakly_canonical_path fs (fs.path_of s)) best

  skips : Bytes → fs.FsPath → Bool
  skips s root =
      not (path_starts_with fs root canonical_file)
      || same_path_element fs root canonical_file
      || has_reparse_point_in_path fs (fs.path_of s) file

  taken :
      (s : Bytes) (root : fs.FsPath) (best : Best fs)
      → weakly_canonical_path fs (fs.path_of s) ≡ some root
      → skips s root ≡ false
      → Holds s root × (after_one s best ≡ deeper fs root best)
  unfolding skips
  taken s root best e h = (
    record {
      canonical = e;
      above = (IsBelow-iff fs root canonical_file).0 (ground (arith, h));
      proper = (distinct_iff fs root canonical_file).0 (ground (arith, h));
      linkless = (IsLinkless-iff fs (fs.path_of s) file).0 (ground (arith, h));
    },
    rw e (rw h refl),
  )

  skipped :
      (s : Bytes) (root other : fs.FsPath)
      → weakly_canonical_path fs (fs.path_of s) ≡ some root
      → skips s root ≡ true
      → Holds s other
      → ⊥
  unfolding skips
  skipped s root other e h held = clash (subst (λ (r : fs.FsPath). skips s r ≡ true) same h)
    where
      same : root ≡ other
      same = ground (arith, sym e ∙ held.canonical)

      clash : skips s other ≡ true → ⊥
      clash t = ground (
        arith,
        t,
        (IsBelow-iff fs other canonical_file).1 held.above,
        (distinct_iff fs other canonical_file).1 held.proper,
        (IsLinkless-iff fs (fs.path_of s) file).1 held.linkless,
      )

  consider-cases :
      (s : Bytes) (best : Best fs)
      → ((root : fs.FsPath) × Holds s root × (after_one s best ≡ deeper fs root best))
        ⊎ (((root : fs.FsPath) → Holds s root → ⊥) × (after_one s best ≡ best))
  unfolding skips
  consider-cases s best = elim (Option-cases (weakly_canonical_path fs (fs.path_of s))) [
    | inl e ↦ inr ((λ root h. ground (arith, sym h.canonical ∙ e)), rw e refl)
    | inr (root, e) ↦ elim (Bool-cases (skips s root)) [
      | inl h ↦ inr ((λ other held. skipped s root other e h held), rw e (rw h refl))
      | inr h ↦ let (held, after) = taken s root best e h in inl (root, held, after)
    ]
  ]

  -- A depth that the best root so far reaches.
  abbrev Reaches : ℕ → Best fs → Type 0
  Reaches n none = ⊥
  Reaches n (some (depth, best)) = n ≤ depth

  Reaches-deeper :
      (n : ℕ) (root : fs.FsPath) (best : Best fs) → Reaches n best → Reaches n (deeper fs root best)
  Reaches-deeper n root none h = absurd h
  Reaches-deeper n root (some (depth, best)) h = ground arith

  deeper-Reaches :
      (root : fs.FsPath) (best : Best fs) → Reaches (element_count fs root) (deeper fs root best)
  deeper-Reaches root none = ground arith
  deeper-Reaches root (some (depth, best)) = ground arith

  abbrev chosen_from : List Bytes → Best fs → Best fs
  chosen_from roots best = best_root fs file canonical_file roots best

  one_keeps : (s : Bytes) (best : Best fs) (n : ℕ) → Reaches n best → Reaches n (after_one s best)
  one_keeps s best n h = elim (consider-cases s best) [
    | inl (root, held, e) ↦ subst (Reaches n) (sym e) (Reaches-deeper n root best h)
    | inr (no_root, e) ↦ subst (Reaches n) (sym e) h
  ]

  one-Reaches :
      (s : Bytes) (best : Best fs) (other : fs.FsPath)
      → Holds s other
      → Reaches (element_count fs other) (after_one s best)
  one-Reaches s best other held = elim (consider-cases s best) [
    | inl (root, found, e) ↦
        let same : root ≡ other = ground (arith, sym found.canonical ∙ held.canonical) in
        subst (λ (r : fs.FsPath). Reaches (element_count fs r) (after_one s best)) same
          (subst (Reaches (element_count fs root)) (sym e) (deeper-Reaches root best))
    | inr (no_root, e) ↦ absurd (no_root other held)
  ]

  keeps :
      (roots : List Bytes) (best : Best fs) (n : ℕ)
      → Reaches n best
      → Reaches n (chosen_from roots best)
  unfolding best_root
  keeps [] best n h = h
  keeps (s ∷ roots) best n h = keeps roots (after_one s best) n (one_keeps s best n h)

  reaches :
      (roots : List Bytes) (best : Best fs) (s : Bytes) (other : fs.FsPath)
      → Listed s roots
      → Holds s other
      → Reaches (element_count fs other) (chosen_from roots best)
  unfolding best_root
  reaches [] best s other l held = absurd l
  reaches (x ∷ roots) best s other (inl e) held =
      keeps roots (after_one x best) (element_count fs other)
        (one-Reaches x best other (subst (λ y. Holds y other) e held))
  reaches (x ∷ roots) best s other (inr l) held = reaches roots (after_one x best) s other l held

  abbrev Entered : List Bytes → Best fs → Type 0
  Entered roots after =
      (s : Bytes) × (root : fs.FsPath) × Listed s roots
      × Holds s root
      × (after ≡ some (element_count fs root, root))

  deeper-cases :
      (root : fs.FsPath) (best : Best fs)
      → (deeper fs root best ≡ best) ⊎ (deeper fs root best ≡ some (element_count fs root, root))
  deeper-cases root none = inr refl
  deeper-cases root (some (depth, best)) = elim (Bool-cases (ltb depth (element_count fs root))) [
    | inl h ↦ inr (rw h refl)
    | inr h ↦ inl (rw h refl)
  ]

  entered_one :
      (s : Bytes) (best : Best fs)
      → (after_one s best ≡ best)
        ⊎ ((root : fs.FsPath) × Holds s root
            × (after_one s best ≡ some (element_count fs root, root)))
  entered_one s best = elim (consider-cases s best) [
    | inr (no_root, e) ↦ inl e
    | inl (root, held, e) ↦ elim (deeper-cases root best) [
      | inl same ↦ inl (e ∙ same)
      | inr new ↦ inr (root, held, e ∙ new)
    ]
  ]

  entered :
      (roots : List Bytes) (best : Best fs)
      → (chosen_from roots best ≡ best) ⊎ Entered roots (chosen_from roots best)
  unfolding best_root
  entered [] best = inl refl
  entered (s ∷ roots) best = elim (entered roots (after_one s best)) [
    | inr (t, root, l, held, e) ↦ inr (t, root, inr l, held, e)
    | inl same ↦ elim (entered_one s best) [
      | inl kept ↦ inl (same ∙ kept)
      | inr (root, held, e) ↦ inr (s, root, inl refl, held, same ∙ e)
    ]
  ]

  -- No root that holds the file is deeper.
  abbrev pub IsDeepest : List Bytes → fs.FsPath → Type 0
  IsDeepest roots root =
      (t : Bytes) (other : fs.FsPath)
      → Listed t roots
      → Holds t other
      → element_count fs other ≤ element_count fs root

  deepest :
      (roots : List Bytes) (root : fs.FsPath)
      → chosen_from roots none ≡ some (element_count fs root, root)
      → IsDeepest roots root
  deepest roots root e t other l held =
      subst (Reaches (element_count fs other)) e (reaches roots none t other l held)

module _ (fs : FsOps) (file : fs.FsPath) (roots : List Bytes) where
  -- What the function has found when it gives a directory.
  pub record IsMapped (directory : Bytes) : Type 0 where
    pub canonical_file : fs.FsPath
    pub name : Bytes
    pub root : fs.FsPath
    pub resolved : weakly_canonical_path fs file ≡ some canonical_file
    pub is_file : fs.symlink_status file ≡ some FileType.regular
    pub listed : Listed name roots
    pub holds : Holds fs file canonical_file name root
    pub deepest_root : IsDeepest fs file canonical_file roots root
    pub below : relative_to fs canonical_file (some (element_count fs root, root)) ≡ some directory

  within_regular :
      (canonical_file : fs.FsPath) (directory : Bytes)
      → within fs file roots (some canonical_file) ≡ some directory
      → (fs.symlink_status file ≡ some FileType.regular)
        × (relative_to fs canonical_file (best_root fs file canonical_file roots none)
            ≡ some directory)
  within_regular canonical_file directory h = ground arith

  mapped :
      (canonical_file : fs.FsPath) (directory : Bytes)
      → weakly_canonical_path fs file ≡ some canonical_file
      → fs.symlink_status file ≡ some FileType.regular
      → relative_to fs canonical_file (best_root fs file canonical_file roots none) ≡ some directory
      → IsMapped directory
  mapped canonical_file directory e regular h = elim (entered fs file canonical_file roots none) [
    | inl nothing ↦ absurd (ground (arith, sym (ap (relative_to fs canonical_file) nothing) ∙ h))
    | inr (s, root, l, held, chosen) ↦ record {
      canonical_file = canonical_file;
      name = s;
      root = root;
      resolved = e;
      is_file = regular;
      listed = l;
      holds = held;
      deepest_root = deepest fs file canonical_file roots root chosen;
      below = sym (ap (relative_to fs canonical_file) chosen) ∙ h;
    }
  ]

  -- When a relative directory is found for a file, the file is a regular file; the directory is the
  -- one relative to the canonical path of a watched root whose names begin those of the canonical
  -- path of the file, such that nothing from the absolute root down to the absolute file is missing
  -- or a link; and no watched root of which this holds has a canonical path with more elements.
  pub IsMapped-to_deepest :
      (directory : Bytes)
      → try_build_relative_directory fs file roots ≡ some directory
      → IsMapped directory
  unfolding try_build_relative_directory
  IsMapped-to_deepest directory h = elim (Option-cases (weakly_canonical_path fs file)) [
    | inl e ↦ absurd (ground (arith, sym (ap (within fs file roots) e) ∙ h))
    | inr (canonical_file, e) ↦
        let (regular, found) =
          within_regular canonical_file directory (sym (ap (within fs file roots) e) ∙ h) in
        mapped canonical_file directory e regular found
  ]
