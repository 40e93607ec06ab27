-- ===== src/Base/Texts.antt =====
-- Rust's strings and byte vectors: the list of their bytes, UTF-8 for a string, so that `len` is
-- the list's length. A literal is written as a native string and read by `codes`.
use Prim.Native.Nat.{ℕ}
use Prim.Native.Char.{code}
use Prim.Native.String.{String}
use mathlib.Core.List.{List, [], ◌∷◌}

abbrev pub Bytes : Type 0
Bytes = List ℕ

abbrev pub Text : Type 0
Text = List ℕ

abbrev pub codes : String → Text
codes String.[] = []
codes (String.◌∷◌ c s) = code c ∷ codes s
