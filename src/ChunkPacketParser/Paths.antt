-- ===== src/ChunkPacketParser/Paths.antt =====
-- IsSafeFilename and IsSafeRelativeDirectory of TransferCore/ChunkPacketParser.cpp. What they ask of
-- std::filesystem::path is a parameter.
use transfer_udt.Common.{
  ℕ, Bool, true, false, not, ◌&&◌, ◌||◌, List, [], ◌∷◌, ltb, ◌==◌, if◌then◌else◌, length,
}
use transfer_udt.Common.Bytes.{Bytes, codes, bytes_eq}

-- std::filesystem::path on a narrow string: `elements` is the iteration over the path.
pub record PathOps : Type 0 where
  pub has_root_name : Bytes → Bool
  pub has_root_directory : Bytes → Bool
  pub has_parent_path : Bytes → Bool
  pub is_absolute : Bytes → Bool
  pub lexically_normal : Bytes → Bytes
  pub elements : Bytes → List Bytes

abbrev pub max_filename_len : ℕ
max_filename_len = 255

abbrev pub max_directory_len : ℕ
max_directory_len = 4096

unfoldable pub has_control_chars : Bytes → Bool
has_control_chars [] = false
has_control_chars (ch ∷ rest) = ltb ch 32 || has_control_chars rest

abbrev pub mem_byte : ℕ → Bytes → Bool
mem_byte b [] = false
mem_byte b (x ∷ xs) = b == x || mem_byte b xs

-- filename.find_first_of(…) != npos
unfoldable pub has_any_of : Bytes → Bytes → Bool
has_any_of set [] = false
has_any_of set (ch ∷ rest) = mem_byte ch set || has_any_of set rest

abbrev pub reserved_chars : Bytes
reserved_chars = codes "<>:\"/\\|?*"

unfoldable pub is_safe_filename : PathOps → Bytes → Bool
is_safe_filename fs filename =
    if length filename == 0 || ltb max_filename_len (length filename)
    then false
    else if has_control_chars filename
    then false
    else if has_any_of reserved_chars filename
    then false
    else if fs.has_root_name filename
        || fs.has_root_directory filename
        || fs.has_parent_path filename
    then false
    else (let normalized = fs.lexically_normal filename in
        not (bytes_eq normalized (codes ".")) && not (bytes_eq normalized (codes "..")))

abbrev bad_segment : Bytes → Bool
bad_segment token = length token == 0 || bytes_eq token (codes ".") || bytes_eq token (codes "..")

unfoldable pub has_bad_segment : List Bytes → Bool
has_bad_segment [] = false
has_bad_segment (segment ∷ rest) = bad_segment segment || has_bad_segment rest

unfoldable pub is_safe_relative_directory : PathOps → Bytes → Bool
is_safe_relative_directory fs directory =
    if length directory == 0
    then true
    else if ltb max_directory_len (length directory) || has_control_chars directory
    then false
    else if fs.has_root_name directory
        || fs.has_root_directory directory
        || fs.is_absolute directory
    then false
    else not (has_bad_segment (fs.elements directory))
