-- ===== src/ChunkPacketParser/Binds.antt =====
-- Inversion and evaluation of the parser monad of TransferCore/ChunkPacketParser.cpp.
use transfer_udt.Common.{ℕ, ◌≡◌, refl, ap, Bool, true, false}
use transfer_udt.ChunkMetadata.{ChunkMetadata}
use transfer_udt.ChunkPacketParser.Reads.{
  ParseError, Outcome, ok, err, M, then_with, ◌>>=◌, ◌>>◌, reject_if,
}

module _ {A B : Type 0} where
  pub bind-ok :
      (m : M A) (f : A → M B) {o o' : ℕ} {c c' : ChunkMetadata} {a : A}
      → m o c ≡ ok a o' c'
      → (m >>= f) o c ≡ f a o' c'
  bind-ok m f e = ap (λ r. then_with r f) e

  then_with_inv :
      (r : Outcome A) (f : A → M B) {o' : ℕ} {c' : ChunkMetadata} {b : B}
      → then_with r f ≡ ok b o' c'
      → (a : A) × (o1 : ℕ) × (c1 : ChunkMetadata) × (r ≡ ok a o1 c1) × (f a o1 c1 ≡ ok b o' c')
  then_with_inv (ok a o1 c1) f h = (a, o1, c1, refl, h)
  then_with_inv (err e c1) f h = absurd (cc)

  pub bind_inv :
      (m : M A) (f : A → M B) {o o' : ℕ} {c c' : ChunkMetadata} {b : B}
      → (m >>= f) o c ≡ ok b o' c'
      → (a : A) × (o1 : ℕ) × (c1 : ChunkMetadata) × (m o c ≡ ok a o1 c1) × (f a o1 c1 ≡ ok b o' c')
  bind_inv m f {o = o} {c = c} h = then_with_inv (m o c) f h

pub reject_inv :
    {B : Type 0} (t : Bool) (e : ParseError) (k : M B) {o o' : ℕ} {c c' : ChunkMetadata} {b : B}
    → (reject_if t e >> k) o c ≡ ok b o' c'
    → (t ≡ false) × (k o c ≡ ok b o' c')
reject_inv true e k h = absurd (cc)
reject_inv false e k h = (refl, h)

pub reject_pass :
    {B : Type 0} (t : Bool) (e : ParseError) (k : M B) {o : ℕ} {c : ChunkMetadata}
    → t ≡ false
    → (reject_if t e >> k) o c ≡ k o c
reject_pass t e k h = rw h
