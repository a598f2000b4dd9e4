-- ===== src/Base/Float.antt =====
-- float, the single-precision number of IEEE 754, as far as it is not negative: `mantissa / 2 ^ scale`
-- with a mantissa of 24 bits, each result rounded to the nearest and on a tie to the even one.
use Prim.Native.Nat.{ℕ, zero, suc, ◌+◌, ◌-◌, ◌*◌, ◌/◌, ◌%◌, ◌^◌}
use oqpi.Base.Tests.{ltb, if◌then◌else◌}

pub record Float : Type 0 where
  pub mantissa : ℕ
  pub scale : ℕ

-- The quotient to the nearest, on a tie to the even one.
unfoldable pub nearest : ℕ → ℕ → ℕ
nearest n d =
    let low = n / d in
    let twice = 2 * (n % d) in
    if ltb twice d then low else if ltb d twice then low + 1 else low + low % 2

-- The power of two to scale with, so that the mantissa has 24 bits, or the last one tried.
unfoldable pub scale_for : ℕ → ℕ → ℕ → ℕ → ℕ
scale_for zero scale n d = scale
scale_for (suc tries) scale n d =
    let further = scale_for tries (suc scale) n d in
    if ltb (n * 2 ^ scale / d) 8388608 then further else scale

-- The float of a fraction below 2 ^ 24.
unfoldable pub rounded : ℕ → ℕ → Float
unfolding nearest scale_for
rounded n d =
    let scale = scale_for 60 0 n d in record { mantissa = nearest (n * 2 ^ scale) d; scale = scale }

unfoldable pub of_int : ℕ → Float
unfolding rounded
of_int n = rounded n 1

unfoldable pub add_float : Float → Float → Float
unfolding rounded
add_float a b =
    rounded (a.mantissa * 2 ^ b.scale + b.mantissa * 2 ^ a.scale) (2 ^ (a.scale + b.scale))

unfoldable pub mul_float : Float → Float → Float
unfolding rounded
mul_float a b = rounded (a.mantissa * b.mantissa) (2 ^ (a.scale + b.scale))

unfoldable pub div_float : Float → Float → Float
unfolding rounded
div_float a b = rounded (a.mantissa * 2 ^ b.scale) (b.mantissa * 2 ^ a.scale)

-- `ceil`, and the conversion to an integer.
unfoldable pub ceil : Float → ℕ
ceil a = (a.mantissa + (2 ^ a.scale - 1)) / 2 ^ a.scale

unfoldable pub truncated : Float → ℕ
truncated a = a.mantissa / 2 ^ a.scale
