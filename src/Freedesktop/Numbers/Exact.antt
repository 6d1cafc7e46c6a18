-- ===== src/Freedesktop/Numbers/Exact.antt =====
-- The conversions keep the number, and refuse exactly those that do not fit.
use go_notify.Base.{◌≤◌, ◌≡◌, ◌⊎◌, inl, refl, Option, none, some, arith}
use go_notify.Base.Int.{ℤ, pos, ◌≤ℤ◌}
use go_notify.Go.Value.{
  number_of, int, int8, int16, int32, int64, uint, uint8, uint16, uint32, uint64,
}
use go_notify.Freedesktop.Types.{Any}
use go_notify.Freedesktop.Numbers.{
  Conversion, converted, overflows, wrong_type, min_int32, max_int32, v2i, v2y,
}

-- Values of the types int32 and uint8 are in the range of their type.
abbrev pub IsRanged : Any → Type 0
IsRanged (int32 v) = (min_int32 ≤ℤ v) × (v ≤ℤ max_int32)
IsRanged (uint8 v) = v ≤ 255
IsRanged _ = Unit

abbrev pub Converts : ℤ → ℤ → Option ℤ → Conversion → Type 0
Converts lo hi none r = r ≡ wrong_type
Converts lo hi (some z) r =
    ((r ≡ converted z) × (lo ≤ℤ z) × (z ≤ℤ hi)) ⊎ ((r ≡ overflows) × ¬ ((lo ≤ℤ z) × (z ≤ℤ hi)))

-- `v2i` over the range of an int32, and `v2y` over that of a byte.
v2i-Converts : (v : Any) → IsRanged v → Converts min_int32 max_int32 (number_of v) (v2i v)
unfolding v2i number_of
v2i-Converts (int v) h = ground arith
v2i-Converts (int32 v) h = inl (refl, h.0, h.1)
v2i-Converts (int8 v) h = ground arith
v2i-Converts (int16 v) h = ground arith
v2i-Converts (int64 v) h = ground arith
v2i-Converts (uint v) h = ground arith
v2i-Converts (uint8 v) h = ground arith
v2i-Converts (uint16 v) h = ground arith
v2i-Converts (uint32 v) h = ground arith
v2i-Converts (uint64 v) h = ground arith
v2i-Converts _ h = refl

v2y-Converts : (v : Any) → IsRanged v → Converts (pos 0) (pos 255) (number_of v) (v2y v)
unfolding v2y number_of
v2y-Converts (int v) h = ground arith
v2y-Converts (int32 v) h = ground arith
v2y-Converts (int8 v) h = ground arith
v2y-Converts (int16 v) h = ground arith
v2y-Converts (int64 v) h = ground arith
v2y-Converts (uint v) h = ground arith
v2y-Converts (uint8 v) h = ground arith
v2y-Converts (uint16 v) h = ground arith
v2y-Converts (uint32 v) h = ground arith
v2y-Converts (uint64 v) h = ground arith
v2y-Converts _ h = refl

-- Of each value that is in the range of its type: `v2i` gives the same number where it is an int32,
-- the overflow error where it is an integer out of that range, and the type error otherwise; and
-- `v2y` does the same with the range of a byte.
pub v2i-Converts-v2y :
    (v : Any)
    → IsRanged v
    → Converts min_int32 max_int32 (number_of v) (v2i v)
      × Converts (pos 0) (pos 255) (number_of v) (v2y v)
v2i-Converts-v2y v h = (v2i-Converts v h, v2y-Converts v h)
