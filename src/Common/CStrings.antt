-- ===== src/Common/CStrings.antt =====
-- C strings as the bytes before their terminator, and `strcmp` on them.
use Prim.Native.Nat.{ℕ, compare, Ordering}
use Prim.Native.Char.{code}
use Prim.Native.String.{String}
use mathlib.Core.Path.{◌≡◌, refl}
use mathlib.Core.Logic.{◌↔◌, ◌≢◌}
use mathlib.Core.Bool.{Bool, true, false}
use mathlib.Core.List.{List, [], ◌∷◌}
use native.Mathlib.Omega.{arith}

abbrev pub Bytes : Type 0
Bytes = List ℕ

-- The bytes of an ASCII literal.
abbrev pub codes : String → Bytes
codes String.[] = []
codes (String.◌∷◌ c s) = code c ∷ codes s

-- The sign of `strcmp`, on unsigned bytes.
unfoldable pub strcmp : Bytes → Bytes → Ordering
strcmp [] [] = Ordering.eq
strcmp [] (y ∷ ys) = Ordering.lt
strcmp (x ∷ xs) [] = Ordering.gt
strcmp (x ∷ xs) (y ∷ ys) =
    let rest = strcmp xs ys in
    elim (compare x y) [
      | Ordering.lt ↦ Ordering.lt
      | Ordering.gt ↦ Ordering.gt
      | Ordering.eq ↦ rest
    ]

abbrev pub is_eq : Ordering → Bool
is_eq Ordering.eq = true
is_eq Ordering.lt = false
is_eq Ordering.gt = false

-- `strcmp(a, b) == 0`
unfoldable pub str_eq : Bytes → Bytes → Bool
unfolding strcmp
str_eq a b = is_eq (strcmp a b)

pub strcmp_refl : (a : Bytes) → strcmp a a ≡ Ordering.eq
unfolding strcmp
strcmp_refl [] = refl
strcmp_refl (x ∷ xs) = ground (arith, strcmp_refl xs)

pub strcmp-eq : (a b : Bytes) → strcmp a b ≡ Ordering.eq → a ≡ b
unfolding strcmp
strcmp-eq [] [] h = refl
strcmp-eq [] (y ∷ ys) h = ground arith
strcmp-eq (x ∷ xs) [] h = ground arith
strcmp-eq (x ∷ xs) (y ∷ ys) h = ground (arith, strcmp-eq xs ys)

pub str_eq_iff : (a b : Bytes) → (str_eq a b ≡ true) ↔ (a ≡ b)
unfolding str_eq
str_eq_iff a b = (λ h. strcmp-eq a b (ground arith), λ e. ground (arith, strcmp_refl a, e))

pub str_eq_refl : (a : Bytes) → str_eq a a ≡ true
str_eq_refl a = (str_eq_iff a a).1 refl

pub ne_of_str_eq : (a b : Bytes) → str_eq a b ≡ false → a ≢ b
ne_of_str_eq a b h e = ground (arith, (str_eq_iff a b).1 e)

pub strcmp-gt : (a b : Bytes) → strcmp a b ≡ Ordering.gt → strcmp b a ≡ Ordering.lt
unfolding strcmp
strcmp-gt [] [] h = ground arith
strcmp-gt [] (y ∷ ys) h = ground arith
strcmp-gt (x ∷ xs) [] h = refl
strcmp-gt (x ∷ xs) (y ∷ ys) h = ground (arith, strcmp-gt xs ys)

pub strcmp-lt_trans :
    (a b c : Bytes) → strcmp a b ≡ Ordering.lt → strcmp b c ≡ Ordering.lt → strcmp a c ≡ Ordering.lt
unfolding strcmp
strcmp-lt_trans [] [] c h k = ground arith
strcmp-lt_trans [] (y ∷ ys) [] h k = ground arith
strcmp-lt_trans [] (y ∷ ys) (z ∷ zs) h k = refl
strcmp-lt_trans (x ∷ xs) [] c h k = ground arith
strcmp-lt_trans (x ∷ xs) (y ∷ ys) [] h k = ground arith
strcmp-lt_trans (x ∷ xs) (y ∷ ys) (z ∷ zs) h k = ground (arith, strcmp-lt_trans xs ys zs)

-- A string that comes before another is another.
pub str_eq-lt : (a b : Bytes) → strcmp a b ≡ Ordering.lt → str_eq a b ≡ false
unfolding str_eq
str_eq-lt a b h = ground (arith, h)

pub str_eq-gt : (a b : Bytes) → strcmp a b ≡ Ordering.gt → str_eq a b ≡ false
unfolding str_eq
str_eq-gt a b h = ground (arith, h)

pub str_eq-after : (a b : Bytes) → strcmp a b ≡ Ordering.lt → str_eq b a ≡ false
unfolding str_eq
str_eq-after a b h = ground (arith, h, strcmp-eq b a, strcmp_refl a)
