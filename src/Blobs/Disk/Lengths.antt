-- ===== src/Blobs/Disk/Lengths.antt =====
-- How long a file is after a write.
use vaultcrdt_server.Base.{
  ◌≡◌, refl, length, length-append, take, drop, Bytes, ℕ, zero, suc, ◌+◌, ◌-◌, min, max, List, [],
  ◌∷◌, ◌++◌, arith,
}
use vaultcrdt_server.Blobs.Disk.{zeros, written_at}

module _ {ℓ} {A : Type ℓ} where
  pub length-take : (n : ℕ) (xs : List A) → length (take n xs) ≡ min n (length xs)
  length-take zero xs = omega arith
  length-take (suc n) [] = omega arith
  length-take (suc n) (x ∷ xs) = omega (arith, length-take n xs)

  pub length-drop : (n : ℕ) (xs : List A) → length (drop n xs) ≡ length xs - n
  length-drop zero xs = omega arith
  length-drop (suc n) [] = omega arith
  length-drop (suc n) (x ∷ xs) = omega (arith, length-drop n xs)

pub length-zeros : (n : ℕ) → length (zeros n) ≡ n
unfolding zeros
length-zeros zero = refl
length-zeros (suc n) = omega (arith, length-zeros n)

-- It ends where the write ends, or where it ended before.
pub length-written_at :
    (offset : ℕ) (buf file : Bytes)
    → length (written_at offset buf file) ≡ max (offset + length buf) (length file)
unfolding written_at
length-written_at offset buf file = omega (
  arith,
  length-append (take offset (file ++ zeros (offset - length file)))
      (buf ++ drop (offset + length buf) file),
  length-append buf (drop (offset + length buf) file),
  length-take offset (file ++ zeros (offset - length file)),
  length-append file (zeros (offset - length file)),
  length-zeros (offset - length file),
  length-drop (offset + length buf) file,
)
