-- ===== src/Server/ClientHandler/Names.antt =====
-- The names of authenticated clients (ServerUDTC++_v3/ClientHandler.cpp).
use transfer_udt.Common.{
  ℕ, ◌/◌, ◌%◌, ◌<◌, ◌≡◌, ◌≢◌, refl, sym, subst, ◌∙◌, true, false, ◌||◌, List, [], ◌∷◌, ◌++◌, All,
  ◌==◌, arith,
}
use transfer_udt.Common.Bytes.{Bytes, bytes_eq, bytes_ne, codes, IsByte}
use transfer_udt.SecurePacket.Hex.{hex_digit}
use transfer_udt.Server.ClientHandler.{
  is_plain, sanitize_char, sanitize, build_authenticated_client_namespace,
}

-- A character that a name of a directory may have on every system.
abbrev pub IsPlain : ℕ → Type 0
IsPlain ch = (is_plain ch || (ch == 95)) ≡ true

hex_plain : (d : ℕ) → d < 16 → is_plain (hex_digit d) ≡ true
unfolding hex_digit
hex_plain d h = ground (arith, h)

hex_inj : (c d : ℕ) → c < 16 → d < 16 → hex_digit c ≡ hex_digit d → c ≡ d
unfolding hex_digit
hex_inj c d h k e = ground (arith, e, h, k)

byte_inj :
    (x y : ℕ)
    → x < 256
    → y < 256
    → hex_digit (x / 16 % 16) ≡ hex_digit (y / 16 % 16)
    → hex_digit (x % 16) ≡ hex_digit (y % 16)
    → x ≡ y
byte_inj x y h k e f = omega (
  arith,
  hex_inj (x / 16 % 16) (y / 16 % 16) (omega arith) (omega arith) e,
  hex_inj (x % 16) (y % 16) (omega arith) (omega arith) f,
)

not_plain : is_plain 95 ≡ false
not_plain = refl

head_inj :
    (x y : ℕ) (s t : Bytes)
    → x < 256
    → y < 256
    → sanitize_char x ++ s ≡ sanitize_char y ++ t
    → (x ≡ y) × (s ≡ t)
head_inj x y s t h k e = ground (arith, e, byte_inj x y h k, not_plain)

sanitize_inj : (a b : Bytes) → All IsByte a → All IsByte b → sanitize a ≡ sanitize b → a ≡ b
unfolding sanitize
sanitize_inj [] [] h k e = refl
sanitize_inj [] (y ∷ b) h k e = absurd (ground (arith, e))
sanitize_inj (x ∷ a) [] h k e = absurd (ground (arith, e))
sanitize_inj (x ∷ a) (y ∷ b) (h, g) (k, l) e =
    ground (arith, sanitize_inj a b g l, head_inj x y (sanitize a) (sanitize b) h k e)

char_IsPlain : (ch : ℕ) → All IsPlain (sanitize_char ch)
char_IsPlain ch =
    ground (arith, hex_plain (ch / 16 % 16) (omega arith), hex_plain (ch % 16) (omega arith))

All-append : {A : Type 0} (P : A → Type 0) (xs ys : List A) → All P xs → All P ys → All P (xs ++ ys)
All-append P [] ys h k = k
All-append P (x ∷ xs) ys (h, g) k = (h, All-append P xs ys g k)

sanitize-IsPlain : (a : Bytes) → All IsPlain (sanitize a)
unfolding sanitize
sanitize-IsPlain [] = tt
sanitize-IsPlain (ch ∷ rest) =
    All-append IsPlain (sanitize_char ch) (sanitize rest) (char_IsPlain ch) (sanitize-IsPlain rest)

-- An id that is neither empty nor "." nor "..", so that it has a name of its own.
pub record IsNamed (id : Bytes) : Type 0 where
  pub bytes : All IsByte id
  pub not_empty : id ≢ []
  pub not_here : id ≢ codes "."
  pub not_above : id ≢ codes ".."

sanitize_ne :
    (id other : Bytes)
    → All IsByte id
    → All IsByte other
    → id ≢ other
    → bytes_eq (sanitize id) (sanitize other) ≡ false
sanitize_ne id other h k n =
    bytes_ne (sanitize id) (sanitize other) (λ e. n (sanitize_inj id other h k e))

namespace_lem :
    (ip id : Bytes)
    → IsNamed id
    → build_authenticated_client_namespace ip id ≡ codes "id_" ++ sanitize id
unfolding build_authenticated_client_namespace sanitize
namespace_lem ip id h =
    rw
      (
        bytes_ne id [] h.not_empty,
        sanitize_ne id [] h.bytes tt h.not_empty,
        sanitize_ne id (codes ".") h.bytes (omega arith, tt) h.not_here,
        sanitize_ne id (codes "..") h.bytes (omega arith, (omega arith, tt)) h.not_above,
      )
      refl

prefixed_inj : (s t : Bytes) → codes "id_" ++ s ≡ codes "id_" ++ t → s ≡ t
prefixed_inj s t e = ground (arith, e)

-- Two different client ids, neither empty nor "." nor "..", get different names whatever their
-- addresses are, and the characters of a name are letters, digits or one of "-.@_".
pub namespaces_differ :
    (ip other_ip a b : Bytes)
    → IsNamed a
    → IsNamed b
    → a ≢ b
    → (build_authenticated_client_namespace ip a ≢ build_authenticated_client_namespace other_ip b)
      × All IsPlain (build_authenticated_client_namespace ip a)
namespaces_differ ip other_ip a b h k n = (
  λ e. n (
      sanitize_inj a b h.bytes k.bytes (
        prefixed_inj (sanitize a) (sanitize b)
          (sym (namespace_lem ip a h) ∙ e ∙ namespace_lem other_ip b k))),
  subst (All IsPlain) (sym (namespace_lem ip a h)) (
      All-append IsPlain (codes "id_") (sanitize a) (refl, (refl, (refl, tt)))
        (sanitize-IsPlain a)),
)
