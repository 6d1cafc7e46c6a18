-- ===== src/Windows/Version.antt =====
-- The versions that internal/sys/syscall_windows.go asks the system for.
use Prim.Native.Nat.{bit_or}
use go_notify.Base.{
  ℕ, ◌+◌, ◌*◌, ◌/◌, ◌%◌, ◌^◌, ◌≤◌, ◌<◌, ◌≡◌, ◌↔◌, ◌⊎◌, refl, ◌∙◌, Bool, true, false, Option, none,
  some, arith, leb,
}
use go_notify.Base.Bits.{or_le, or_lt, or-shift, zero-or, shift}

-- What `DLLVersionInfo` is filled with, each a `uint32`.
pub record Version : Type 0 where
  pub major : ℕ
  pub minor : ℕ
  pub build : ℕ

-- `DllGetVersion` of shell32.dll: it is not there, its call fails, or it fills in the version.
pub data Dll : Type 0 where
  missing refuses : Dll
  reports : Version → Dll

-- `v << n` of a `uint32`.
shift_left : ℕ → ℕ → ℕ
shift_left v n = v * 2 ^ n % 2 ^ 32

packed : Version → ℕ
unfolding shift_left
packed v = bit_or (bit_or (shift_left v.major 16) (shift_left v.minor 8)) v.build

-- `IsShellDLLVersionOrGreater`.
unfoldable pub is_shell_dll_version_or_greater : Dll → ℕ → ℕ → ℕ → Bool
unfolding packed
is_shell_dll_version_or_greater refuses major minor build = false
is_shell_dll_version_or_greater missing major minor build =
    leb (packed (record { major = major; minor = minor; build = build }))
      (packed (record { major = 4; minor = 0; build = 0 }))
is_shell_dll_version_or_greater (reports v) major minor build =
    leb (packed (record { major = major; minor = minor; build = build })) (packed v)

-- `VerSetConditionMask` and `VerifyVersionInfo` of the system, on the three numbers that are asked for.
pub record Verifier : Type 0 where
  pub set_condition_mask : ℕ → ℕ → ℕ → ℕ
  pub verify_version_info : ℕ → ℕ → ℕ → ℕ → ℕ → Bool

-- `IsWindowsVersionOrGreater`: VER_MAJORVERSION is 2, VER_MINORVERSION 1, VER_SERVICEPACKMAJOR 32 and
-- VER_GREATER_EQUAL 3.
unfoldable pub is_windows_version_or_greater : Verifier → ℕ → ℕ → ℕ → Bool
is_windows_version_or_greater c major minor sp =
    let mask = c.set_condition_mask (c.set_condition_mask (c.set_condition_mask 0 2 3) 1 3) 32 3 in
    c.verify_version_info major minor sp (bit_or (bit_or 2 1) 32) mask

-- A `_WIN32_WINNT` constant in its two bytes.
unfoldable pub is_windows_xp_sp2_or_greater : Verifier → Bool
unfolding is_windows_version_or_greater
is_windows_xp_sp2_or_greater c =
    is_windows_version_or_greater c (0x0501 / 2 ^ 8 % 256) (0x0501 % 256) 2

unfoldable pub is_windows7_or_greater : Verifier → Bool
unfolding is_windows_version_or_greater
is_windows7_or_greater c = is_windows_version_or_greater c (0x0601 / 2 ^ 8 % 256) (0x0601 % 256) 0

-- The version that a library stands for: without `DllGetVersion` it is 4.0.
abbrev pub version_of : Dll → Option Version
version_of missing = some (record { major = 4; minor = 0; build = 0 })
version_of refuses = none
version_of (reports v) = some v

-- The numbers in their usual widths.
abbrev pub IsUsual : Version → Type 0
IsUsual v = (v.major < 2 ^ 16) × (v.minor < 2 ^ 8) × (v.build < 2 ^ 16)

abbrev pub AreUsual : Option Version → Type 0
AreUsual none = Unit
AreUsual (some v) = IsUsual v

-- `major.0.build` is not after the version.
abbrev pub IsFrom : ℕ → ℕ → Version → Type 0
IsFrom major build v = (major < v.major) ⊎ (major ≡ v.major) × ((0 < v.minor) ⊎ (build ≤ v.build))

-- What a library is asked, number by number.
abbrev pub Answers : ℕ → ℕ → Option Version → Bool → Type 0
Answers major build none b = b ≡ false
Answers major build (some v) b = (b ≡ true) ↔ IsFrom major build v

-- The packed number, with the lower two numbers in the lower 16 bits.
packed_sum : (v : Version) → IsUsual v → packed v ≡ v.major * 65536 + bit_or (v.minor * 256) v.build
unfolding packed shift_left
packed_sum v (a, b, c) =
    let high : v.major * 2 ^ 16 % 2 ^ 32 ≡ shift 16 v.major + 0 = omega (arith, a) in
    let low : v.minor * 2 ^ 8 % 2 ^ 32 ≡ v.minor * 256 = omega (arith, b) in
    let two = or-shift 16 v.major 0 (v.minor * 256) (omega arith) (omega (arith, b)) in
    let three = or-shift 16 v.major (v.minor * 256) v.build (omega (arith, b)) (omega (arith, c)) in
    rw (high, low, two, zero-or (v.minor * 256), three) (omega arith)

order :
    (m b n k c : ℕ)
    → b ≤ 256
    → k * 256 ≤ bit_or (k * 256) c
    → c ≤ bit_or (k * 256) c
    → bit_or (k * 256) c < 65536
    → (k ≡ 0 → bit_or (k * 256) c ≡ c)
    → (leb (m * 65536 + b) (n * 65536 + bit_or (k * 256) c) ≡ true)
      ↔ ((m < n) ⊎ (m ≡ n) × ((0 < k) ⊎ (b ≤ c)))
order m b n k c h p q r z = ground (arith)

packed-IsFrom :
    (major build : ℕ) (v : Version)
    → major < 2 ^ 16
    → build ≤ 256
    → IsUsual v
    → (leb (packed (record { major = major; minor = 0; build = build })) (packed v) ≡ true)
      ↔ IsFrom major build v
packed-IsFrom major build v a b (x, y, z) =
    let (p, q) = or_le (v.minor * 256) v.build in
    let r : bit_or (v.minor * 256) v.build < shift 16 1 =
      or_lt 16 (v.minor * 256) v.build (omega (arith, y)) (omega (arith, z)) in
    let e : packed (record { major = major; minor = 0; build = build }) ≡ major * 65536 + build =
      packed_sum (record { major = major; minor = 0; build = build })
        (a, (omega arith), omega (arith, b))
      ∙ rw (zero-or build) refl in
    let f = packed_sum v (x, y, z) in
    rw (e, f)
      (order major build v.major v.minor v.build b p q (omega (arith, r))
        (λ k. rw k (zero-or v.build)))

-- Asked for `major.0.build` with a build of at most 256, and given a version whose numbers have their
-- usual widths, the comparison of the packed numbers is that of the versions, number by number; a
-- library without `DllGetVersion` is one of version 4.0, and one whose call fails is of none.
pub is_shell_dll_version_or_greater-Answers :
    (dll : Dll) (major build : ℕ)
    → major < 2 ^ 16
    → build ≤ 256
    → AreUsual (version_of dll)
    → Answers major build (version_of dll) (is_shell_dll_version_or_greater dll major 0 build)
unfolding is_shell_dll_version_or_greater
is_shell_dll_version_or_greater-Answers refuses major build a b u = refl
is_shell_dll_version_or_greater-Answers missing major build a b u =
    packed-IsFrom major build _ a b u
is_shell_dll_version_or_greater-Answers (reports v) major build a b u =
    packed-IsFrom major build v a b u
