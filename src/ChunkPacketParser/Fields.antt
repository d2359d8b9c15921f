-- ===== src/ChunkPacketParser/Fields.antt =====
-- Each field of Parse (TransferCore/ChunkPacketParser.cpp) accepts exactly its encodings.
use mathlib.Core.Path.{subst}
use transfer_udt.Common.{ℕ, ◌^◌, ◌<◌, ◌≡◌, ap, ◌∙◌, Bool, false, length, ◌++◌, All}
use transfer_udt.Common.Bytes.{Bytes, IsByte, uint32_bytes}
use transfer_udt.ChunkMetadata.{ChunkMetadata}
use transfer_udt.Common.Cuts.{Took, Took-append, Took-split}
use transfer_udt.ChunkPacketParser.Binds.{bind-ok, bind_inv, reject_pass, reject_inv}
use transfer_udt.ChunkPacketParser.Words.{
  ok_inj, read_string-ok, read_string_inv, read_uint32-ok, read_uint32_inv,
}
use transfer_udt.ChunkPacketParser.Reads.{
  Field, ParseError, ok, M, modify, read_uint32, read_string,
}
use transfer_udt.ChunkPacketParser.{string_field}

abbrev pub encode_string : Bytes → Bytes
encode_string s = uint32_bytes (length s) ++ s

module _ (buffer : Bytes) (len_field field : Field) (bad_length : ℕ → Bool)
    (length_error : ParseError) (bad : Bytes → Bool) (value_error : ParseError)
    (set : Bytes → ChunkMetadata → ChunkMetadata) where
  abbrev the_field : M (Unit {0})
  the_field = string_field buffer len_field field bad_length length_error bad value_error set

  pub string_field-ok :
      {o o' : ℕ} {c : ChunkMetadata} (s : Bytes)
      → Took buffer o (encode_string s) o'
      → length s < 2 ^ 32
      → bad_length (length s) ≡ false
      → bad s ≡ false
      → the_field o c ≡ ok tt o' (set s c)
  unfolding string_field
  string_field-ok {o} s t h good_length good =
      let (first, second) = Took-split (uint32_bytes (length s)) s t in
      bind-ok (read_uint32 buffer len_field) _ (read_uint32-ok buffer len_field (length s) h first)
      ∙ reject_pass (bad_length (length s)) length_error _ good_length
      ∙ bind-ok (read_string buffer field (length s)) _ (read_string-ok buffer field s second)
      ∙ reject_pass (bad s) value_error (modify (set s)) good

  pub string_field_inv :
      {o o' : ℕ} {c c' : ChunkMetadata} {u : Unit {0}}
      → All IsByte buffer
      → the_field o c ≡ ok u o' c'
      → (s : Bytes) × Took buffer o (encode_string s) o'
        × (length s < 2 ^ 32)
        × (bad_length (length s) ≡ false)
        × (bad s ≡ false)
        × (set s c ≡ c')
  unfolding string_field
  string_field_inv {o} b h =
      let (len, o1, c1, e1, h1) = bind_inv (read_uint32 buffer len_field) _ h in
      let (t1, small, same1) = read_uint32_inv buffer len_field b e1 in
      let (good_length, h2) = reject_inv (bad_length len) length_error _ h1 in
      let (s, o2, c2, e2, h3) = bind_inv (read_string buffer field len) _ h2 in
      let (t2, sized, same2) = read_string_inv buffer field len e2 in
      let (good, h4) = reject_inv (bad s) value_error (modify (set s)) h3 in
      let (_, e', e'') = ok_inj h4 in
      (
        s,
        subst (λ x. Took buffer o (encode_string s) x) e'
            (Took-append (uint32_bytes (length s)) s (rw sized t1) t2),
        rw sized small,
        rw sized good_length,
        good,
        ap (set s) (same1 ∙ same2) ∙ e'',
      )
