-- ===== src/SecurityHandshake/Bundles.antt =====
-- Certificate bundles of TransferCore/SecurityHandshake.cpp.
use transfer_udt.Common.{
  ◌/◌, Bool, false, not, ◌||◌, Option, none, some, List, [], ◌∷◌, length, ltb, if◌then◌else◌,
}
use transfer_udt.Common.Bytes.{Bytes}
use transfer_udt.SecurePacket.Hex.{to_hex}
use transfer_udt.SecurityHandshake.Texts.{
  Result, ok, err, ◌>>=◌, ◌>>◌, throw_if, or_throw, or_false, certificate_failed,
  max_certificate_bundle_bytes, max_crl_bundle_bytes, from_hex, is_empty, validate_certificate_hex,
}
use transfer_udt.SecurityHandshake.Ops.{OpenSsl, load_private_key, is_bad_signature}

module _ (ssl : OpenSsl) where
  pub record ParsedCertificateBundle : Type 0 where
    pub leaf : ssl.X509
    pub intermediates : List (ssl.X509)

  abbrev bundle_of : List (ssl.X509) → Result ParsedCertificateBundle
  bundle_of [] = err certificate_failed
  bundle_of (leaf ∷ intermediates) = ok (record { leaf = leaf; intermediates = intermediates })

  unfoldable pub parse_certificate_bundle : Bytes → Result ParsedCertificateBundle
  parse_certificate_bundle certificate_hex = do
    validate_certificate_hex certificate_hex
    bytes ← from_hex certificate_hex (length certificate_hex / 2)
    bundle_of (ssl.pem_certificates bytes)

  unfoldable pub certificate_identity_matches : ssl.X509 → Bytes → Bool
  certificate_identity_matches certificate expected_identity =
      if is_empty expected_identity
      then false
      else ssl.check_ip certificate expected_identity
        || ssl.check_host certificate expected_identity

  abbrev add_crls : List (ssl.Crl) → ssl.Store → Option (ssl.Store)
  add_crls [] store = some store
  add_crls (crl ∷ rest) store = elim (ssl.add_crl crl store) [
    | none ↦ none
    | some added ↦ add_crls rest added
  ]

  abbrev and_check : Option (ssl.Store) → Option (ssl.Store)
  and_check none = none
  and_check (some store) = ssl.check_crls store

  abbrev load_crls : Bytes → ssl.Store → Option (ssl.Store)
  load_crls bytes store =
      if is_empty bytes || ltb max_crl_bundle_bytes (length bytes)
      then none
      else elim (ssl.pem_crls bytes) [
        | [] ↦ none
        | crl ∷ rest ↦ and_check (add_crls (crl ∷ rest) store)
      ]

  unfoldable pub load_crl_bundle : ssl.Store → Bytes → Option (ssl.Store)
  load_crl_bundle store crl_path =
      if is_empty crl_path
      then none
      else elim (ssl.read_file crl_path) [ none ↦ none | some bytes ↦ load_crls bytes store ]

  -- The store of trusted certificates, with the lists of revoked ones when a path to them is given.
  abbrev trusted : Bytes → Bytes → Option (ssl.Store)
  trusted ca_bundle_path crl_path = elim (ssl.load_locations ca_bundle_path) [
    | none ↦ none
    | some store ↦ if not (is_empty crl_path) then load_crl_bundle store crl_path else some store
  ]

  abbrev is_trusted : Option (ssl.Store) → ParsedCertificateBundle → Bytes → Bool → Bool
  is_trusted none bundle expected_identity server_certificate = false
  is_trusted (some store) bundle expected_identity server_certificate =
      if not (ssl.verify_cert store bundle.leaf bundle.intermediates server_certificate)
      then false
      else certificate_identity_matches bundle.leaf expected_identity

  abbrev pub validate_bundle : Bytes → Bytes → Bytes → Bool → Bytes → Result Bool
  validate_bundle certificate_hex ca_bundle_path expected_identity server_certificate crl_path =
      if is_empty ca_bundle_path || is_empty expected_identity
      then ok false
      else parse_certificate_bundle certificate_hex >>= (λ bundle.
        ok (
          is_trusted (trusted ca_bundle_path crl_path) bundle expected_identity server_certificate))

  unfoldable pub validate_certificate_bundle : Bytes → Bytes → Bytes → Bool → Bytes → Bool
  validate_certificate_bundle certificate_hex ca_bundle_path expected_identity server crl_path =
      or_false (validate_bundle certificate_hex ca_bundle_path expected_identity server crl_path)

  unfoldable pub certificate_matches_private_key : Bytes → Bytes → Result Bool
  certificate_matches_private_key certificate_hex private_key_path = do
    bundle ← parse_certificate_bundle certificate_hex
    private_key ← load_private_key ssl private_key_path
    ok (ssl.check_private_key bundle.leaf private_key)

  abbrev pub verify_with : Option (ssl.PublicKey) → Bytes → Bytes → Bool
  verify_with none message signature = false
  verify_with (some key) message signature = elim (ssl.digest_verify key message signature) [
    | none ↦ false
    | some valid ↦ valid
  ]

  unfoldable pub verify_certificate_signature_hex : Bytes → Bytes → Bytes → Result Bool
  verify_certificate_signature_hex message signature_hex certificate_hex =
      if is_bad_signature signature_hex then ok false else do
        signature ← from_hex signature_hex (length signature_hex / 2)
        bundle ← parse_certificate_bundle certificate_hex
        ok (verify_with (ssl.get_pubkey bundle.leaf) message signature)

  unfoldable pub load_certificate_bundle_hex : Bytes → Result Bytes
  load_certificate_bundle_hex certificate_path = do
    bytes ← or_throw (ssl.read_file certificate_path) certificate_failed
    throw_if (is_empty bytes || ltb max_certificate_bundle_bytes (length bytes)) certificate_failed
    _ ← parse_certificate_bundle (to_hex bytes)
    ok (to_hex bytes)
