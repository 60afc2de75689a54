-- ===== src/Base/Text.antt =====
-- C strings as lists of bytes, and the string functions that the program calls on them.
use Prim.Native.Nat.{ℕ, ◌-◌, ◌<◌}
use Prim.Native.Char.{code}
use Prim.Native.String.{String}
use mathlib.Core.Path.{◌≡◌, refl}
use mathlib.Core.Logic.{◌↔◌, ◌≢◌, inl, inr}
use mathlib.Core.Bool.{Bool, true, false, ◌&&◌, ◌||◌}
use mathlib.Core.List.{List, [], ◌∷◌, ◌++◌}
use native.Mathlib.Omega.{arith}
use axis_cam_metrics.Base.Tests.{◌==◌, if◌then◌else◌, Bool-cases}
use axis_cam_metrics.Base.Lists.{length, take, take_all}

abbrev pub Text : Type 0
Text = List ℕ

-- The bytes of an ASCII literal.
abbrev pub codes : String → Text
codes String.[] = []
codes (String.◌∷◌ c s) = code c ∷ codes s

-- `strcmp(a, b) == 0`
unfoldable pub str_eq : Text → Text → Bool
str_eq [] [] = true
str_eq [] (y ∷ ys) = false
str_eq (x ∷ xs) [] = false
str_eq (x ∷ xs) (y ∷ ys) = x == y && str_eq xs ys

pub str_eq→eq : (a b : Text) → str_eq a b ≡ true → a ≡ b
unfolding str_eq
str_eq→eq [] [] h = refl
str_eq→eq [] (y ∷ ys) h = cc
str_eq→eq (x ∷ xs) [] h = cc
str_eq→eq (x ∷ xs) (y ∷ ys) h = ground (arith, str_eq→eq xs ys)

pub str_eq_refl : (a : Text) → str_eq a a ≡ true
unfolding str_eq
str_eq_refl [] = refl
str_eq_refl (x ∷ xs) = ground (arith, str_eq_refl xs)

pub str_eq_iff : (a b : Text) → (str_eq a b ≡ true) ↔ (a ≡ b)
str_eq_iff a b = (str_eq→eq a b, λ e. rw e (str_eq_refl b))

pub str_eq_ne : (a b : Text) → a ≢ b → str_eq a b ≡ false
str_eq_ne a b h = elim (Bool-cases (str_eq a b)) [
  | inl e ↦ absurd (h (str_eq→eq a b e))
  | inr e ↦ e
]

-- What `g_strlcpy` into an array of `size` bytes leaves there.
abbrev pub strlcpy : ℕ → Text → Text
strlcpy size s = take (size - 1) s

-- A source that fits, its terminator included, is copied whole.
pub strlcpy-fits : (size : ℕ) (s : Text) → length s < size → strlcpy size s ≡ s
strlcpy-fits size s h = take_all (size - 1) s (omega arith)

-- `g_str_has_prefix`
unfoldable pub has_prefix : Text → Text → Bool
has_prefix s [] = true
has_prefix [] (y ∷ ys) = false
has_prefix (x ∷ xs) (y ∷ ys) = x == y && has_prefix xs ys

-- The text up to its first NUL, as `g_strdup` sees a buffer.
unfoldable pub c_str : List ℕ → Text
c_str [] = []
c_str (b ∷ bs) = let rest = c_str bs in if b == 0 then [] else b ∷ rest

-- `g_strsplit(s, sep, -1)` on a separator of one byte: `split_go` carries the piece that is open.
-- The empty string splits into no piece at all.
unfoldable pub split_go : ℕ → Text → Text → List Text
split_go sep piece [] = piece ∷ []
split_go sep piece (b ∷ bs) =
    let close = piece ∷ split_go sep [] bs in
    let extend = split_go sep (piece ++ (b ∷ [])) bs in if b == sep then close else extend

unfoldable pub split : ℕ → Text → List Text
unfolding split_go
split sep [] = []
split sep (b ∷ bs) = split_go sep [] (b ∷ bs)

-- `g_str_has_suffix`
unfoldable pub has_suffix : Text → Text → Bool
unfolding str_eq
has_suffix [] s = str_eq [] s
has_suffix (x ∷ xs) s = str_eq (x ∷ xs) s || has_suffix xs s
