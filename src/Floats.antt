-- ===== src/Floats.antt =====
-- `float`: a number is its 32-bit pattern of IEEE 754, so the pattern 0 is 0.0 and 1065353216 is 1.0.
-- The comparisons are those of C++; a comparison with a NaN is false.
use libiso.Prelude.{ℕ, ◌-◌, Bool, true, false, not, ◌&&◌, ◌||◌, ◌==◌, ltb, leb, if◌then◌else◌}

abbrev pub Float : Type 0
Float = ℕ

abbrev is_negative : Float → Bool
is_negative a = leb 2147483648 a

-- The pattern without its sign.
abbrev magnitude : Float → ℕ
magnitude a = if is_negative a then a - 2147483648 else a

abbrev pub is_nan : Float → Bool
is_nan a = ltb 2139095040 (magnitude a)

abbrev is_zero : Float → Bool
is_zero a = magnitude a == 0

abbrev ordered_lt : Bool → Bool → Float → Float → Bool
ordered_lt false false a b = ltb (magnitude a) (magnitude b)
ordered_lt false true a b = false
ordered_lt true false a b = not (is_zero a && is_zero b)
ordered_lt true true a b = ltb (magnitude b) (magnitude a)

-- `a < b`.
unfoldable pub float_lt : Float → Float → Bool
float_lt a b = not (is_nan a) && not (is_nan b) && ordered_lt (is_negative a) (is_negative b) a b

-- `a <= b`.
unfoldable pub float_le : Float → Float → Bool
unfolding float_lt
float_le a b =
    not (is_nan a) && not (is_nan b) && (float_lt a b || a == b || (is_zero a && is_zero b))
