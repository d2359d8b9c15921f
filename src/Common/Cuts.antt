-- ===== src/Common/Cuts.antt =====
-- What lies between two offsets of a buffer: `Took` says that it is a given string.
use Prim.Native.Nat.{ℕ, ◌+◌, ◌≤◌}
use mathlib.Core.Path.{◌≡◌, refl, sym, ap, ◌∙◌, subst}
use mathlib.Core.List.{◌++◌, append_assoc, append-nil}
use native.Mathlib.Omega.{arith}
use transfer_udt.Common.Lists.{
  length, take, drop, take-append-drop, drop-drop, length-drop, length-take, length-append,
  take-length-append, drop-length-append, nil_of_length,
}
use transfer_udt.Common.Bytes.{Bytes, slice}

pub record Took (buffer : Bytes) (o : ℕ) (xs : Bytes) (o' : ℕ) : Type 0 where
  pub ended : o' ≡ o + length xs
  pub within : o' ≤ length buffer
  pub cut : drop o buffer ≡ xs ++ drop o' buffer

module _ {buffer : Bytes} where
  -- The slice of a given length, as a cut.
  pub Took-slice : (o n : ℕ) → o + n ≤ length buffer → Took buffer o (slice o n buffer) (o + n)
  Took-slice o n h = record {
    ended = omega (arith, length-take n (drop o buffer), length-drop o buffer);
    within = h;
    cut =
        sym (take-append-drop n (drop o buffer))
        ∙ ap (◌++◌ (slice o n buffer)) (drop-drop o n buffer);
  }

  pub slice_of_Took :
      {o o' : ℕ} (xs : Bytes) → Took buffer o xs o' → slice o (length xs) buffer ≡ xs
  slice_of_Took {o' = o'} xs t =
      ap (take (length xs)) t.cut ∙ take-length-append xs (drop o' buffer)

  pub slice_of_Took-length :
      {o o' : ℕ} (xs : Bytes) (n : ℕ) → length xs ≡ n → Took buffer o xs o' → slice o n buffer ≡ xs
  slice_of_Took-length {o} xs n e t = rw (← e) (slice_of_Took xs t)

  pub Took-append :
      {o o1 o2 : ℕ} (xs ys : Bytes)
      → Took buffer o xs o1
      → Took buffer o1 ys o2
      → Took buffer o (xs ++ ys) o2
  Took-append {o2 = o2} xs ys t u = record {
    ended = omega (arith, t.ended, u.ended, length-append xs ys);
    within = u.within;
    cut = t.cut ∙ ap (◌++◌ xs) u.cut ∙ sym (append_assoc xs ys (drop o2 buffer));
  }

  pub Took-split :
      {o o2 : ℕ} (xs ys : Bytes)
      → Took buffer o (xs ++ ys) o2
      → Took buffer o xs (o + length xs) × Took buffer (o + length xs) ys o2
  Took-split {o} {o2} xs ys t = (first, second)
    where
      rest : drop (o + length xs) buffer ≡ ys ++ drop o2 buffer
      rest =
          sym (drop-drop o (length xs) buffer)
          ∙ ap (drop (length xs)) (t.cut ∙ append_assoc xs ys (drop o2 buffer))
          ∙ drop-length-append xs (ys ++ drop o2 buffer)

      first : Took buffer o xs (o + length xs)
      first = record {
        ended = refl;
        within = omega (arith, t.ended, t.within, length-append xs ys);
        cut = t.cut ∙ append_assoc xs ys (drop o2 buffer) ∙ ap (◌++◌ xs) (sym rest);
      }

      second : Took buffer (o + length xs) ys o2
      second = record {
        ended = omega (arith, t.ended, length-append xs ys);
        within = t.within;
        cut = rest;
      }

  -- The same, at an offset that is known.
  pub Took-split_at :
      {o o2 : ℕ} (m : ℕ) (xs ys : Bytes)
      → o + length xs ≡ m
      → Took buffer o (xs ++ ys) o2
      → Took buffer o xs m × Took buffer m ys o2
  Took-split_at {o} {o2} m xs ys e t =
      subst (λ x. Took buffer o xs x × Took buffer x ys o2) e (Took-split xs ys t)

module _ (buffer : Bytes) where
  pub Took-whole : (xs : Bytes) → buffer ≡ xs → Took buffer 0 xs (length buffer)
  Took-whole xs e = record {
    ended = rw e (omega arith);
    within = omega arith;
    cut =
        e
        ∙ sym (append-nil xs)
        ∙ ap (◌++◌ xs) (
            sym (
              nil_of_length (drop (length buffer) buffer)
                (omega (arith, length-drop (length buffer) buffer))));
  }

  pub whole_of_Took : (xs : Bytes) → Took buffer 0 xs (length buffer) → buffer ≡ xs
  whole_of_Took xs t =
      t.cut
      ∙ ap (◌++◌ xs) (
          nil_of_length (drop (length buffer) buffer)
            (omega (arith, length-drop (length buffer) buffer)))
      ∙ append-nil xs
