-- ===== src/ChunkPacketParser/StringFields.antt =====
-- The five string fields of Parse (TransferCore/ChunkPacketParser.cpp) accept exactly the strings
-- that its tests pass.
use transfer_udt.Common.{ℕ, ◌≤◌, ◌≡◌, refl, ap, Bool, true, false, not, ltb, length, arith, All}
use transfer_udt.Common.Bytes.{Bytes, IsByte}
use transfer_udt.ChunkMetadata.{ChunkMetadata}
use transfer_udt.Common.Cuts.{Took}
use transfer_udt.ChunkPacketParser.Reads.{Field, ParseError, ok}
use transfer_udt.ChunkPacketParser.Paths.{PathOps, is_safe_filename, is_safe_relative_directory}
use transfer_udt.ChunkPacketParser.Fields.{encode_string, string_field-ok, string_field_inv}
use transfer_udt.ChunkPacketParser.Packet.{safe_filename_length, safe_directory_length}
use transfer_udt.ChunkPacketParser.{
  parse_filename, parse_directory, parse_server_address, parse_transfer_id, parse_hash,
  is_lower_hex, max_server_address_len, transfer_id_hex_length, sha256_hex_len,
}

pub not_inv : (b : Bool) → not b ≡ false → b ≡ true
not_inv true h = refl
not_inv false h = absurd (cc)

module _ (buffer : Bytes) (fs : PathOps) {o o' : ℕ} (c : ChunkMetadata) where
  pub filename-ok :
      (s : Bytes)
      → Took buffer o (encode_string s) o'
      → is_safe_filename fs s ≡ true
      → parse_filename buffer fs o c ≡ ok tt o' (record c { filename = s })
  unfolding parse_filename
  filename-ok s t safe =
      string_field-ok buffer _ _ _ _ _ _ _ s t (omega (arith, safe_filename_length fs s safe))
        (ground (arith, safe_filename_length fs s safe)) (ap not safe)

  pub filename_inv :
      {c' : ChunkMetadata} {u : Unit {0}}
      → All IsByte buffer
      → parse_filename buffer fs o c ≡ ok u o' c'
      → (s : Bytes) × Took buffer o (encode_string s) o'
        × (is_safe_filename fs s ≡ true)
        × (record c { filename = s } ≡ c')
  unfolding parse_filename
  filename_inv b h =
      let (s, t, _, sized, good, e) = string_field_inv buffer _ _ _ _ _ _ _ b h in
      (s, t, not_inv (is_safe_filename fs s) good, e)

  pub directory-ok :
      (s : Bytes)
      → Took buffer o (encode_string s) o'
      → is_safe_relative_directory fs s ≡ true
      → parse_directory buffer fs o c ≡ ok tt o' (record c { directory = s })
  unfolding parse_directory
  directory-ok s t safe =
      string_field-ok buffer _ _ _ _ _ _ _ s t (omega (arith, safe_directory_length fs s safe))
        (ground (arith, safe_directory_length fs s safe)) (ap not safe)

  pub directory_inv :
      {c' : ChunkMetadata} {u : Unit {0}}
      → All IsByte buffer
      → parse_directory buffer fs o c ≡ ok u o' c'
      → (s : Bytes) × Took buffer o (encode_string s) o'
        × (is_safe_relative_directory fs s ≡ true)
        × (record c { directory = s } ≡ c')
  unfolding parse_directory
  directory_inv b h =
      let (s, t, _, sized, good, e) = string_field_inv buffer _ _ _ _ _ _ _ b h in
      (s, t, not_inv (is_safe_relative_directory fs s) good, e)

  pub server_address-ok :
      (s : Bytes)
      → Took buffer o (encode_string s) o'
      → length s ≤ max_server_address_len
      → parse_server_address buffer o c ≡ ok tt o' (record c { server_address = s })
  unfolding parse_server_address
  server_address-ok s t short =
      string_field-ok buffer Field.server_address_len Field.server_address
        (λ n. ltb max_server_address_len n) ParseError.invalid_server_address_length (λ x. false)
        ParseError.invalid_server_address_length (λ x m. record m { server_address = x }) s t
        (omega (arith, short)) (ground (arith, short)) (refl)

  pub server_address_inv :
      {c' : ChunkMetadata} {u : Unit {0}}
      → All IsByte buffer
      → parse_server_address buffer o c ≡ ok u o' c'
      → (s : Bytes) × Took buffer o (encode_string s) o'
        × (length s ≤ max_server_address_len)
        × (record c { server_address = s } ≡ c')
  unfolding parse_server_address
  server_address_inv b h =
      let (s, t, _, sized, good, e) =
        string_field_inv buffer Field.server_address_len Field.server_address
          (λ n. ltb max_server_address_len n) ParseError.invalid_server_address_length (λ x. false)
          ParseError.invalid_server_address_length (λ x m. record m { server_address = x }) b h in
      (s, t, ground (arith, sized), e)

  pub transfer_id-ok :
      (s : Bytes)
      → Took buffer o (encode_string s) o'
      → length s ≡ transfer_id_hex_length
      → is_lower_hex s ≡ true
      → parse_transfer_id buffer o c ≡ ok tt o' (record c { transfer_id = s })
  unfolding parse_transfer_id
  transfer_id-ok s t sized hex =
      string_field-ok buffer _ _ _ _ _ _ _ s t (omega (arith, sized)) (ground (arith, sized))
        (ap not hex)

  pub transfer_id_inv :
      {c' : ChunkMetadata} {u : Unit {0}}
      → All IsByte buffer
      → parse_transfer_id buffer o c ≡ ok u o' c'
      → (s : Bytes) × Took buffer o (encode_string s) o'
        × (length s ≡ transfer_id_hex_length)
        × (is_lower_hex s ≡ true)
        × (record c { transfer_id = s } ≡ c')
  unfolding parse_transfer_id
  transfer_id_inv b h =
      let (s, t, _, sized, good, e) = string_field_inv buffer _ _ _ _ _ _ _ b h in
      (s, t, ground (arith, sized), not_inv (is_lower_hex s) good, e)

  pub hash-ok :
      (s : Bytes)
      → Took buffer o (encode_string s) o'
      → length s ≡ sha256_hex_len
      → is_lower_hex s ≡ true
      → parse_hash buffer o c ≡ ok tt o' (record c { hash = s })
  unfolding parse_hash
  hash-ok s t sized hex =
      string_field-ok buffer _ _ _ _ _ _ _ s t (omega (arith, sized)) (ground (arith, sized))
        (ap not hex)

  pub hash_inv :
      {c' : ChunkMetadata} {u : Unit {0}}
      → All IsByte buffer
      → parse_hash buffer o c ≡ ok u o' c'
      → (s : Bytes) × Took buffer o (encode_string s) o'
        × (length s ≡ sha256_hex_len)
        × (is_lower_hex s ≡ true)
        × (record c { hash = s } ≡ c')
  unfolding parse_hash
  hash_inv b h =
      let (s, t, _, sized, good, e) = string_field_inv buffer _ _ _ _ _ _ _ b h in
      (s, t, ground (arith, sized), not_inv (is_lower_hex s) good, e)
