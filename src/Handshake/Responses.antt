-- ===== src/Handshake/Responses.antt =====
-- What a response is that the server accepts (TransferCore/SecurityHandshake.cpp).
use transfer_udt.Common.{
  ◌≡◌, refl, ap, subst, ◌∙◌, true, Option, none, some, [], ◌∷◌, ◌++◌, arith, All,
}
use transfer_udt.Common.Bytes.{Bytes, IsByte, codes}
use transfer_udt.SecurityHandshake.Texts.{
  ok, joined, after_prefix, find_space, constant_time_equals, is_valid_client_id,
}
use transfer_udt.SecurityHandshake.Splits.{
  constant_time_equals_sound, after_prefix_inv, find_space_inv, to_hex-IsByte,
}
use transfer_udt.SecurityHandshake.Ops.{OpenSsl}
use transfer_udt.SecurityHandshake.Psk.{
  response_prefix, claimed, claimed_in, verify_after, verify_payload, try_extract_client_id,
  verify_response_message, derive_psk_session_secret,
}
use transfer_udt.Handshake.Steps.{HmacLaws, hmac_hex}
use transfer_udt.Handshake.Session.{digest}
use transfer_udt.Handshake.Psk.{response, psk_secret}

module _ (ssl : OpenSsl) (laws : HmacLaws ssl) where
  All-after : (xs ys : Bytes) → All IsByte (xs ++ ys) → All IsByte ys
  All-after [] ys h = h
  All-after (x ∷ xs) ys h = All-after xs ys h.1

  -- The payload without an id, and with one.
  unnamed_sound :
      (challenge k id payload : Bytes)
      → All IsByte payload
      → claimed none payload ≡ some id
      → constant_time_equals payload (digest ssl laws challenge k) ≡ true
      → response_prefix ++ payload ≡ response ssl laws challenge k id
  unnamed_sound challenge k [] payload bytes e v = ap (◌++◌ response_prefix) (
      constant_time_equals_sound payload (digest ssl laws challenge k) bytes
        (to_hex-IsByte (laws.mac challenge k)) v)
  unnamed_sound challenge k (c ∷ id) payload bytes e v = absurd (ground (arith, e))

  named_sound :
      (challenge k id x d payload : Bytes)
      → All IsByte d
      → claimed (some (x, d)) payload ≡ some id
      → payload ≡ x ++ (32 ∷ d)
      → constant_time_equals d (digest ssl laws (joined b'|' (challenge ∷ x ∷ [])) k) ≡ true
      → response_prefix ++ payload ≡ response ssl laws challenge k id
  unfolding is_valid_client_id
  named_sound challenge k id [] d payload bytes e p v = absurd (ground (arith, e))
  named_sound challenge k id (c ∷ x) d payload bytes e p v =
      subst (λ z. response_prefix ++ payload ≡ response ssl laws challenge k z) is_id
        (ap (◌++◌ response_prefix) (p ∙ ap (λ z. (c ∷ x) ++ (32 ∷ z)) same))
    where
      is_id : c ∷ x ≡ id
      is_id = ground (arith, e)

      m : Bytes
      m = joined b'|' (challenge ∷ (c ∷ x) ∷ [])

      same : d ≡ digest ssl laws m k
      same =
          constant_time_equals_sound d (digest ssl laws m k) bytes (to_hex-IsByte (laws.mac m k)) v

  pub verify_sound :
      (challenge k id message : Bytes)
      → All IsByte message
      → try_extract_client_id message ≡ some id
      → verify_response_message ssl challenge k message ≡ ok (true, id)
      → message ≡ response ssl laws challenge k id
  unfolding try_extract_client_id verify_response_message
  verify_sound challenge k id message bytes e v =
      in_message (after_prefix response_prefix message) refl e v
    where
      in_payload :
          (payload : Bytes) (parts : Option (Bytes × Bytes))
          → All IsByte payload
          → find_space payload ≡ parts
          → claimed parts payload ≡ some id
          → verify_payload ssl challenge k (digest ssl laws challenge k) parts payload
            ≡ ok (true, id)
          → response_prefix ++ payload ≡ response ssl laws challenge k id
      in_payload payload none b p e v = unnamed_sound challenge k id payload b e (ground (arith, v))
      in_payload payload (some (x, d)) b p e v =
          let q = find_space_inv payload x d p in
          named_sound challenge k id x d payload (All-after x (32 ∷ d) (subst (All IsByte) q b)).1 e
            q (ground (arith, v, hmac_hex laws (joined b'|' (challenge ∷ x ∷ [])) k))

      in_message :
          (o : Option Bytes)
          → after_prefix response_prefix message ≡ o
          → claimed_in o ≡ some id
          → verify_after ssl challenge k o ≡ ok (true, id)
          → message ≡ response ssl laws challenge k id
      in_message none p e v = absurd (ground (arith, e))
      in_message (some payload) p e v =
          let q = after_prefix_inv response_prefix message payload p in
          q
          ∙ in_payload payload (find_space payload)
              (All-after response_prefix payload (subst (All IsByte) q bytes)) refl e
              (rw (hmac_hex laws challenge k) at v)

  pub derive_inv :
      (challenge k id secret : Bytes)
      → derive_psk_session_secret ssl challenge k id ≡ ok secret
      → secret ≡ psk_secret ssl laws challenge k id
  unfolding derive_psk_session_secret
  derive_inv challenge k id secret e = ground (
    arith,
    e,
    hmac_hex laws (joined b'|' (codes "TransferUDT PSK session v1" ∷ challenge ∷ id ∷ [])) k,
  )
