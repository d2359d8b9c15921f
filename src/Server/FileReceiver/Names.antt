-- ===== src/Server/FileReceiver/Names.antt =====
-- The keys, the versioned names and the paths of ServerUDTC++_v3/FileReceiver.cpp.
use transfer_udt.Common.{
  ℕ, ◌+◌, suc, Bool, true, false, not, ◌&&◌, ◌||◌, Option, none, some, [], ◌∷◌, ◌++◌, ltb, ◌==◌,
  take, drop, if◌then◌else◌,
}
use transfer_udt.Common.Bytes.{Bytes, codes}
use transfer_udt.Server.FileReceiver.{Host, ServerConfig}

unfoldable pub build_reconstruction_key : Bytes → Bytes → Bytes
build_reconstruction_key client_address filename = client_address ++ codes "|" ++ filename

abbrev is_separator : ℕ → Bool
is_separator c = (c == 47) || (c == 92)

abbrev is_dot : ℕ → Bool
is_dot c = c == 46

abbrev later : Option ℕ → Bool → Option ℕ
later none true = some 0
later none false = none
later (some i) _ = some (suc i)

-- std::string::find_last_of
abbrev pub find_last : (ℕ → Bool) → Bytes → Option ℕ
find_last p [] = none
find_last p (c ∷ rest) = later (find_last p rest) (p c)

abbrev starts_extension : Option ℕ → ℕ → Bool
starts_extension none dot = not (dot == 0)
starts_extension (some slash) dot = ltb slash dot && not (dot == slash + 1)

abbrev pub insert_suffix : Bytes → Bytes → Option ℕ → Option ℕ → Bytes
insert_suffix filename suffix slash none = filename ++ suffix
insert_suffix filename suffix slash (some dot) =
    if starts_extension slash dot
    then take dot filename ++ suffix ++ drop dot filename
    else filename ++ suffix

abbrev pub version_suffix : (ℕ → Bytes) → ℕ → ℕ → Bytes
version_suffix to_string now_ms counter =
    codes ".v" ++ to_string now_ms ++ codes "-" ++ to_string counter

unfoldable pub build_versioned_filename : Host → ℕ → Bytes → Bytes
build_versioned_filename host counter filename =
    insert_suffix filename (version_suffix host.to_string host.now_ms counter)
      (find_last is_separator filename) (find_last is_dot filename)

unfoldable pub get_reconstructed_file_path : Host → ServerConfig → Bytes → Bytes → Bytes
get_reconstructed_file_path host config client_address filename =
    host.join (host.join config.reconstructed_path client_address) filename
