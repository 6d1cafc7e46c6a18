-- ===== src/Freedesktop/Numbers.antt =====
-- `v2i` and `v2y` of freedesktop/notify.go: a value of any integer type as an int32 or a byte.
pub mod Exact
use go_notify.Base.{ℕ, ◌&&◌, leb, if◌then◌else◌}
use go_notify.Base.Int.{ℤ, pos, negsuc, leb_ℤ}
use go_notify.Go.Value.{int, int8, int16, int32, int64, uint, uint8, uint16, uint32, uint64}
use go_notify.Freedesktop.Types.{Any}

-- `wrong_type` is the error "is not …", and `overflows` the error "overflows … range".
pub data Conversion : Type 0 where
  converted : ℤ → Conversion
  overflows wrong_type : Conversion

abbrev pub min_int32 : ℤ
min_int32 = negsuc 0x7fffffff

abbrev pub max_int32 : ℤ
max_int32 = pos 0x7fffffff

int2i : ℤ → Conversion
int2i i = if leb_ℤ min_int32 i && leb_ℤ i max_int32 then converted i else overflows

uint2i : ℕ → Conversion
uint2i u = if leb u 0x7fffffff then converted (pos u) else overflows

unfoldable pub v2i : Any → Conversion
unfolding int2i uint2i
v2i (int v) = int2i v
v2i (int8 v) = int2i v
v2i (int16 v) = int2i v
v2i (int32 v) = converted v
v2i (int64 v) = int2i v
v2i (uint v) = uint2i v
v2i (uint8 v) = uint2i v
v2i (uint16 v) = uint2i v
v2i (uint32 v) = uint2i v
v2i (uint64 v) = uint2i v
v2i v = wrong_type

int2y : ℤ → Conversion
int2y i = if leb_ℤ (pos 0) i && leb_ℤ i (pos 255) then converted i else overflows

uint2y : ℕ → Conversion
uint2y u = if leb u 255 then converted (pos u) else overflows

unfoldable pub v2y : Any → Conversion
unfolding int2y uint2y
v2y (int v) = int2y v
v2y (int8 v) = int2y v
v2y (int16 v) = int2y v
v2y (int32 v) = int2y v
v2y (int64 v) = int2y v
v2y (uint v) = uint2y v
v2y (uint8 v) = converted (pos v)
v2y (uint16 v) = uint2y v
v2y (uint32 v) = uint2y v
v2y (uint64 v) = uint2y v
v2y v = wrong_type
