-- ===== src/Util/ReadBytes.antt =====
-- `ReadBytes` of internal/util/util.go, over a `bufio.Reader` whose input is a list of bytes and
-- then ends.
pub mod First
use go_notify.Go.Strings.{has_suffix}
use go_notify.Base.{
  ℕ, zero, suc, [], ◌∷◌, ◌++◌, Option, none, some, ◌==◌, if◌then◌else◌, last, Bytes,
}

-- `bufio.Reader.ReadBytes`: up to and with the first `c`, and what is left; `none` is an error.
unfoldable pub read_until : ℕ → Bytes → Option (Bytes × Bytes)
read_until c [] = none
read_until c (x ∷ s) =
    if x == c
    then some (x ∷ [], s)
    else elim (read_until c s) [ none ↦ none | some (b, r) ↦ some (x ∷ b, r) ]

-- `read rv rest` returns `rv`; `failed` returns the reader's error; `unfinished` is out of fuel.
pub data Outcome : Type 0 where
  read : Bytes → Bytes → Outcome
  failed panicked unfinished : Outcome

-- The loop; `rv` holds what was read before.
unfoldable pub read_loop : ℕ → ℕ → Bytes → Bytes → Bytes → Outcome
read_loop zero c delim rv s = unfinished
read_loop (suc f) c delim rv s = elim (read_until c s) [
  | none ↦ failed
  | some (b, r) ↦
      let more = read_loop f c delim (rv ++ b) r in
      if has_suffix delim (rv ++ b) then read (rv ++ b) r else more
]

-- `delim[len(delim)-1]` panics on an empty delimiter.
unfoldable pub read_bytes : ℕ → Bytes → Bytes → Outcome
unfolding last
read_bytes fuel s delim = elim (last delim) [
  | none ↦ panicked
  | some c ↦ read_loop fuel c delim [] s
]
