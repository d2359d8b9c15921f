-- ===== src/WatchedPathMapper.antt =====
-- The directory of a file relative to the deepest watched root
-- (AgentUDTC++_v7.2/WatchedPathMapper.cpp, the branches without _WIN32). std::filesystem is a
-- parameter; an `error_code` that is set is `none`.
use transfer_udt.Common.{
  ℕ, Bool, true, false, not, ◌||◌, List, [], ◌∷◌, length, ltb, ◌==◌, drop, if◌then◌else◌, Option,
  none, some,
}
use transfer_udt.Common.Bytes.{Bytes, bytes_eq}
mod Contains
mod Deepest
mod Tests

pub data FileType : Type 0 where
  regular symlink other : FileType

pub record FsOps : Type 1 where
  pub FsPath : Type 0
  -- fs::path(string), and path.string()
  pub path_of : Bytes → FsPath
  pub string : FsPath → Bytes
  -- what the iteration from begin() to end() yields
  pub elements : FsPath → List FsPath
  pub append : FsPath → FsPath → FsPath
  pub absolute : FsPath → Option FsPath
  pub weakly_canonical : FsPath → Option FsPath
  pub lexically_normal : FsPath → FsPath
  pub lexically_relative : FsPath → FsPath → FsPath
  pub parent_path : FsPath → FsPath
  pub generic_u8string : FsPath → Bytes
  pub is_empty : FsPath → Bool
  pub symlink_status : FsPath → Option FileType

module _ (fs : FsOps) where
  abbrev pub normalize_path_element : fs.FsPath → Bytes
  normalize_path_element path = fs.string path

  unfoldable pub same_path_element : fs.FsPath → fs.FsPath → Bool
  same_path_element left right =
      bytes_eq (normalize_path_element left) (normalize_path_element right)

  unfoldable pub elements_start_with : List fs.FsPath → List fs.FsPath → Bool
  elements_start_with [] candidate = true
  elements_start_with (r ∷ root) [] = false
  elements_start_with (r ∷ root) (c ∷ candidate) =
      let rest = elements_start_with root candidate in
      if not (same_path_element r c) then false else rest

  unfoldable pub path_starts_with : fs.FsPath → fs.FsPath → Bool
  path_starts_with root candidate = elements_start_with (fs.elements root) (fs.elements candidate)

  abbrev value_or : Option fs.FsPath → fs.FsPath → fs.FsPath
  value_or none path = path
  value_or (some absolute) path = absolute

  unfoldable pub absolute_normal_path : fs.FsPath → fs.FsPath
  absolute_normal_path path = fs.lexically_normal (value_or (fs.absolute path) path)

  abbrev normal : Option fs.FsPath → Option fs.FsPath
  normal none = none
  normal (some canonical) = some (fs.lexically_normal canonical)

  unfoldable pub weakly_canonical_path : fs.FsPath → Option fs.FsPath
  weakly_canonical_path path = normal (fs.weakly_canonical path)

  abbrev unknown_or_symlink : Option FileType → Bool
  unknown_or_symlink none = true
  unknown_or_symlink (some FileType.symlink) = true
  unknown_or_symlink (some FileType.regular) = false
  unknown_or_symlink (some FileType.other) = false

  unfoldable pub is_reparse_point_or_unknown : fs.FsPath → Bool
  is_reparse_point_or_unknown path = unknown_or_symlink (fs.symlink_status path)

  -- The walk down from `current` by the given elements.
  unfoldable pub reparse_below : fs.FsPath → List fs.FsPath → Bool
  reparse_below current [] = false
  reparse_below current (e ∷ rest) =
      let next = fs.append current e in
      let below = reparse_below next rest in
      if is_reparse_point_or_unknown next then true else below

  unfoldable pub has_reparse_point_in_path : fs.FsPath → fs.FsPath → Bool
  has_reparse_point_in_path root candidate =
      let root_abs = absolute_normal_path root in
      let candidate_abs = absolute_normal_path candidate in
      if not (path_starts_with root_abs candidate_abs)
      then true
      else if is_reparse_point_or_unknown root_abs
      then true
      else reparse_below root_abs (drop (length (fs.elements root_abs)) (fs.elements candidate_abs))

  abbrev pub element_count : fs.FsPath → ℕ
  element_count path = length (fs.elements path)

  abbrev is_regular : Option FileType → Bool
  is_regular (some FileType.regular) = true
  is_regular (some FileType.symlink) = false
  is_regular (some FileType.other) = false
  is_regular none = false

  -- The best root so far, with its depth.
  abbrev pub Best : Type 0
  Best = Option (ℕ × fs.FsPath)

  abbrev pub deeper : fs.FsPath → Best → Best
  deeper root none = some (element_count root, root)
  deeper root (some (depth, best)) =
      if ltb depth (element_count root) then some (element_count root, root) else some (depth, best)

  -- The body of the loop over the watched roots, given the root's canonical path.
  abbrev pub consider : fs.FsPath → fs.FsPath → fs.FsPath → Option fs.FsPath → Best → Best
  consider file canonical_file root none best = best
  consider file canonical_file root (some canonical_root) best =
      if not (path_starts_with canonical_root canonical_file)
        || same_path_element canonical_root canonical_file
        || has_reparse_point_in_path root file
      then best
      else deeper canonical_root best

  unfoldable pub best_root : fs.FsPath → fs.FsPath → List Bytes → Best → Best
  best_root file canonical_file [] best = best
  best_root file canonical_file (s ∷ roots) best =
      let root = fs.path_of s in
      best_root file canonical_file roots
        (consider file canonical_file root (weakly_canonical_path root) best)

  abbrev pub relative_to : fs.FsPath → Best → Option Bytes
  relative_to canonical_file none = none
  relative_to canonical_file (some (depth, best)) =
      let parent = fs.lexically_normal (fs.parent_path canonical_file) in
      let relative = fs.lexically_relative parent best in
      if same_path_element best parent
      then some []
      else if fs.is_empty relative
      then none
      else some (fs.generic_u8string relative)

  abbrev pub within : fs.FsPath → List Bytes → Option fs.FsPath → Option Bytes
  within file roots none = none
  within file roots (some canonical_file) =
      if not (is_regular (fs.symlink_status file))
      then none
      else relative_to canonical_file (best_root file canonical_file roots none)

  -- The relative directory, or `none` where the function returns false.
  unfoldable pub try_build_relative_directory : fs.FsPath → List Bytes → Option Bytes
  try_build_relative_directory file roots = within file roots (weakly_canonical_path file)
