-- ===== src/Handshake/Certificates.antt =====
-- A certificate bundle in a file and the key that belongs to it (TransferCore/SecurityHandshake.cpp).
use transfer_udt.Common.{
  ℕ, suc, ◌*◌, ◌/◌, ◌%◌, ◌≤◌, ◌≡◌, refl, true, false, not, ◌||◌, some, length, List, [], ◌∷◌, arith,
  ◌==◌, ltb, All,
}
use transfer_udt.Common.Bytes.{Bytes, IsByte}
use transfer_udt.SecurePacket.Hex.{to_hex}
use transfer_udt.SecurityHandshake.Texts.{
  ok, is_empty, is_lower_hex, from_hex, validate_certificate_hex, max_certificate_bundle_bytes,
}
use transfer_udt.SecurityHandshake.Splits.{
  length-to_hex, to_hex-is_lower_hex, to_hex-is_empty, from_hex-to_hex,
}
use transfer_udt.SecurityHandshake.Ops.{OpenSsl, load_private_key}
use transfer_udt.SecurityHandshake.Bundles.{
  ParsedCertificateBundle, parse_certificate_bundle, certificate_matches_private_key,
  verify_certificate_signature_hex, load_certificate_bundle_hex, verify_with,
}
use transfer_udt.Handshake.Keys.{
  Signer, IsPublicKey, signature_hex, signature_hex-is_bad, from_hex-signature,
}

-- The file of a certificate, small enough and readable, whose key is that of a signer.
pub record Certified (ssl : OpenSsl) (path private_path : Bytes) : Type 0 where
  pub signer : Signer ssl private_path
  pub content : Bytes
  pub size : ℕ
  pub leaf : ssl.X509
  pub intermediates : List (ssl.X509)
  pub public_key : ssl.PublicKey
  pub read : ssl.read_file path ≡ some content
  pub sized : length content ≡ suc size
  pub small : suc size ≤ max_certificate_bundle_bytes
  pub bytes : All IsByte content
  pub parsed : ssl.pem_certificates content ≡ leaf ∷ intermediates
  pub key_fits : ssl.check_private_key leaf signer.private_key ≡ true
  pub key_of_leaf : ssl.get_pubkey leaf ≡ some public_key
  pub key_matches : IsPublicKey ssl private_path signer public_key

module _ (ssl : OpenSsl) (path private_path : Bytes) (c : Certified ssl path private_path) where
  abbrev certificate_hex : Bytes
  certificate_hex = to_hex c.content

  pub validate_certificate_hex_lem : validate_certificate_hex certificate_hex ≡ ok tt
  unfolding validate_certificate_hex
  validate_certificate_hex_lem = rw passes refl
    where
      passes :
          (is_empty certificate_hex
            || not (length certificate_hex % 2 == 0)
            || ltb (max_certificate_bundle_bytes * 2) (length certificate_hex)
            || not (is_lower_hex certificate_hex))
          ≡ false
      passes = ground (
        arith,
        length-to_hex c.content,
        c.sized,
        c.small,
        to_hex-is_empty c.content c.size c.sized,
        to_hex-is_lower_hex c.content c.size c.sized,
      )

  abbrev bundle : ParsedCertificateBundle ssl
  bundle = record { leaf = c.leaf; intermediates = c.intermediates }

  parse_certificate_bundle_lem : parse_certificate_bundle ssl certificate_hex ≡ ok bundle
  unfolding parse_certificate_bundle
  parse_certificate_bundle_lem = rw (validate_certificate_hex_lem, decoded, c.parsed) refl
    where
      half : length certificate_hex / 2 ≡ suc c.size
      half = omega (arith, length-to_hex c.content, c.sized)

      decoded : from_hex certificate_hex (length certificate_hex / 2) ≡ ok c.content
      decoded = rw half (from_hex-to_hex c.content c.size c.sized c.bytes)

  pub load_certificate_bundle_hex_lem : load_certificate_bundle_hex ssl path ≡ ok certificate_hex
  unfolding load_certificate_bundle_hex
  load_certificate_bundle_hex_lem = rw (c.read, passes, parse_certificate_bundle_lem) refl
    where
      filled : (bs : Bytes) → length bs ≡ suc c.size → is_empty bs ≡ false
      filled [] e = absurd (omega (arith, e))
      filled (b ∷ bs) e = refl

      passes : (is_empty c.content || ltb max_certificate_bundle_bytes (length c.content)) ≡ false
      passes = ground (arith, filled c.content c.sized, c.sized, c.small)

  pub certificate_matches_private_key_lem :
      certificate_matches_private_key ssl certificate_hex private_path ≡ ok true
  unfolding certificate_matches_private_key load_private_key
  certificate_matches_private_key_lem =
      rw (parse_certificate_bundle_lem, c.signer.read, c.key_fits) refl

  pub verify_certificate_signature_hex_lem :
      (message : Bytes)
      → verify_certificate_signature_hex ssl message
          (signature_hex ssl private_path c.signer message)
          certificate_hex
        ≡ ok true
  unfolding verify_certificate_signature_hex
  verify_certificate_signature_hex_lem message =
      rw
        (
          signature_hex-is_bad ssl private_path c.signer message,
          from_hex-signature ssl private_path c.signer message,
          parse_certificate_bundle_lem,
          c.key_of_leaf,
          verify_with,
          c.key_matches message,
        )
        refl
