-- ===== src/WatchedPathMapper/Tests.antt =====
-- The theorem on watched roots (AgentUDTC++_v7.2/WatchedPathMapper.cpp), over paths that are lists
-- of names.
use transfer_udt.Common.{
  ◌≡◌, refl, Bool, true, false, List, [], ◌∷◌, ◌++◌, length, take, drop, some, ◌-◌,
}
use transfer_udt.Common.Bytes.{Bytes, codes}
use transfer_udt.WatchedPathMapper.{
  FsOps, FileType, same_path_element, elements_start_with, path_starts_with, absolute_normal_path,
  weakly_canonical_path, is_reparse_point_or_unknown, reparse_below, has_reparse_point_in_path,
  best_root, try_build_relative_directory,
}
use transfer_udt.WatchedPathMapper.Deepest.{IsMapped, IsMapped-to_deepest}

abbrev joined : List Bytes → Bytes
joined [] = []
joined (name ∷ rest) = b'/' ∷ (name ++ joined rest)

-- A path that is one of three fixed ones; every directory is real and no link exists.
abbrev path_named : Bytes → List Bytes
path_named [] = []
path_named (ch ∷ []) = codes "w" ∷ []
path_named (ch ∷ _ ∷ rest) = codes "w" ∷ codes "x" ∷ []

abbrev none_empty : List Bytes → Bool
none_empty [] = true
none_empty (name ∷ rest) = false

abbrev lists : FsOps
lists = record {
  FsPath = List Bytes;
  path_of = path_named;
  string = joined;
  elements = λ p. each p;
  append = λ p q. p ++ q;
  absolute = λ p. some p;
  weakly_canonical = λ p. some p;
  lexically_normal = λ p. p;
  lexically_relative = λ p base. drop (length base) p;
  parent_path = λ p. take (length p - 1) p;
  generic_u8string = joined;
  is_empty = none_empty;
  symlink_status = λ p. some FileType.regular;
}
  where
    each : List Bytes → List (List Bytes)
    each [] = []
    each (name ∷ rest) = (name ∷ []) ∷ each rest

abbrev the_file : List Bytes
the_file = codes "w" ∷ codes "x" ∷ codes "y" ∷ codes "f" ∷ []

abbrev watched : List Bytes
watched = codes "1" ∷ codes "22" ∷ []

mapped : try_build_relative_directory lists the_file watched ≡ some (codes "/y")
unfolding try_build_relative_directory best_root has_reparse_point_in_path reparse_below
    is_reparse_point_or_unknown weakly_canonical_path absolute_normal_path path_starts_with
    elements_start_with same_path_element
mapped = refl

IsMapped-to_deepest_example : IsMapped lists the_file watched (codes "/y")
IsMapped-to_deepest_example = IsMapped-to_deepest lists the_file watched (codes "/y") mapped
