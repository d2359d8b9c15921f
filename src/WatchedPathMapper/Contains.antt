-- ===== src/WatchedPathMapper/Contains.antt =====
-- When a root contains a file, and when no link is on the way, told apart from the code
-- (AgentUDTC++_v7.2/WatchedPathMapper.cpp).
use transfer_udt.Common.{
  ◌≡◌, ◌↔◌, refl, ap, true, false, List, [], ◌∷◌, ◌++◌, map, length, drop, some, arith, ◌⊎◌, subst,
}
use transfer_udt.Common.Bytes.{Bytes, bytes_eq_iff}
use transfer_udt.WatchedPathMapper.{
  FsOps, FileType, same_path_element, elements_start_with, path_starts_with, absolute_normal_path,
  is_reparse_point_or_unknown, reparse_below, has_reparse_point_in_path,
}

module _ (fs : FsOps) where
  -- The names of the second path start with those of the first.
  abbrev pub NamesExtend : List fs.FsPath → List fs.FsPath → Type 0
  NamesExtend root candidate =
      (rest : List Bytes) × (map fs.string candidate ≡ map fs.string root ++ rest)

  abbrev pub IsBelow : fs.FsPath → fs.FsPath → Type 0
  IsBelow root candidate = NamesExtend (fs.elements root) (fs.elements candidate)

  -- Something is there, and it is not a link.
  abbrev pub IsReal : fs.FsPath → Type 0
  IsReal path =
      (fs.symlink_status path ≡ some FileType.regular)
      ⊎ (fs.symlink_status path ≡ some FileType.other)

  -- The path reached from `current` by the given elements.
  abbrev pub descend : fs.FsPath → List fs.FsPath → fs.FsPath
  descend current [] = current
  descend current (e ∷ rest) = descend (fs.append current e) rest

  -- Each path from `current` down to the end of `way` is real.
  abbrev pub AllReal : fs.FsPath → List fs.FsPath → Type 0
  AllReal current way =
      (between after : List fs.FsPath) → way ≡ between ++ after → IsReal (descend current between)

  -- From the absolute root down to the absolute path of the file, which is below it.
  pub record IsLinkless (root candidate : fs.FsPath) : Type 0 where
    pub inside : IsBelow (absolute_normal_path fs root) (absolute_normal_path fs candidate)
    pub real : AllReal (absolute_normal_path fs root) (
        drop
          (length (fs.elements (absolute_normal_path fs root)))
          (fs.elements (absolute_normal_path fs candidate)))

  same_iff :
      (left right : fs.FsPath)
      → (same_path_element fs left right ≡ true) ↔ (fs.string left ≡ fs.string right)
  unfolding same_path_element
  same_iff left right = bytes_eq_iff (fs.string left) (fs.string right)

  extend_sound :
      (root candidate : List fs.FsPath)
      → elements_start_with fs root candidate ≡ true
      → NamesExtend root candidate
  unfolding elements_start_with
  extend_sound [] candidate h = (map fs.string candidate, refl)
  extend_sound (r ∷ root) [] h = absurd (ground (arith, h))
  extend_sound (r ∷ root) (c ∷ candidate) h =
      let (rest, e) = extend_sound root candidate (ground (arith, h)) in
      (rest, ground (arith, h, same_iff r c, e))

  extend_complete :
      (root candidate : List fs.FsPath)
      → NamesExtend root candidate
      → elements_start_with fs root candidate ≡ true
  unfolding elements_start_with
  extend_complete [] candidate h = refl
  extend_complete (r ∷ root) [] (rest, e) = absurd (ground (arith, e))
  extend_complete (r ∷ root) (c ∷ candidate) (rest, e) =
      ground (arith, e, same_iff r c, extend_complete root candidate (rest, ground (arith, e)))

  pub IsBelow-iff :
      (root candidate : fs.FsPath)
      → (path_starts_with fs root candidate ≡ true) ↔ IsBelow root candidate
  unfolding path_starts_with
  IsBelow-iff root candidate = (
    extend_sound (fs.elements root) (fs.elements candidate),
    extend_complete (fs.elements root) (fs.elements candidate),
  )

  pub distinct_iff :
      (left right : fs.FsPath)
      → (same_path_element fs left right ≡ false) ↔ (fs.string left ≡ fs.string right → ⊥)
  distinct_iff left right = (
    λ h e. ground (arith, h, (same_iff left right).1 e),
    λ h. ground (arith, h, same_iff left right),
  )

  IsReal-iff : (path : fs.FsPath) → (is_reparse_point_or_unknown fs path ≡ false) ↔ IsReal path
  unfolding is_reparse_point_or_unknown
  IsReal-iff path = (λ h. ground (arith, h), λ h. ground (arith, h))

  below_sound :
      (current : fs.FsPath) (way : List fs.FsPath)
      → reparse_below fs current way ≡ false
      → IsReal current
      → AllReal current way
  unfolding reparse_below
  below_sound current way h real [] after e = real
  below_sound current [] h real (x ∷ between) after e = absurd (ground (arith, e))
  below_sound current (w ∷ way) h real (x ∷ between) after e =
      let same : w ≡ x = ground (arith, e) in
      subst (λ y. IsReal (descend (fs.append current y) between)) same
        (below_sound (fs.append current w) way (ground (arith, h))
          ((IsReal-iff (fs.append current w)).0 (ground (arith, h))) between after
          (ground (arith, e)))

  below_complete :
      (current : fs.FsPath) (way : List fs.FsPath)
      → AllReal current way
      → reparse_below fs current way ≡ false
  unfolding reparse_below
  below_complete current [] h = refl
  below_complete current (w ∷ way) h = ground (
    arith,
    (IsReal-iff (fs.append current w)).1 (h (w ∷ []) way refl),
    below_complete (fs.append current w) way (λ b a e. h (w ∷ b) a (ap (◌∷◌ w) e)),
  )

  pub IsLinkless-iff :
      (root candidate : fs.FsPath)
      → (has_reparse_point_in_path fs root candidate ≡ false) ↔ IsLinkless root candidate
  unfolding has_reparse_point_in_path
  IsLinkless-iff root candidate = (
    λ h. record {
      inside = (IsBelow-iff from to).0 (ground (arith, h));
      real = below_sound from way (ground (arith, h)) ((IsReal-iff from).0 (ground (arith, h)));
    },
    λ h. ground (
      arith,
      (IsBelow-iff from to).1 h.inside,
      (IsReal-iff from).1 (h.real [] way refl),
      below_complete from way h.real,
    ),
  )
    where
      from : fs.FsPath
      from = absolute_normal_path fs root

      to : fs.FsPath
      to = absolute_normal_path fs candidate

      way : List fs.FsPath
      way = drop (length (fs.elements from)) (fs.elements to)
