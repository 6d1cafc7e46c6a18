-- ===== src/Gntp/Buffer/Sanitizer.antt =====
-- What the sanitizer leaves of a text.
use go_notify.Base.{
  ℕ, ◌≡◌, refl, ap, map, ◌&&◌, if◌then◌else◌, Bool, true, false, [], ◌∷◌, arith, ◌==◌, Bytes,
}
use go_notify.Go.Strings.Cut.{Lacks, Lacks-append}
use go_notify.Gntp.Buffer.{sanitized, sanitize_from, sanitize}

sanitized-Lacks : (after_cr : Bool) (x : ℕ) → Lacks b'\r' (sanitized after_cr x)
sanitized-Lacks after_cr x = ground arith

sanitize_from-Lacks : (after_cr : Bool) (s : Bytes) → Lacks b'\r' (sanitize_from after_cr s)
unfolding sanitize_from
sanitize_from-Lacks after_cr [] = ground arith
sanitize_from-Lacks after_cr (x ∷ s) =
    Lacks-append b'\r' (sanitized after_cr x) (sanitize_from (x == b'\r') s)
      (sanitized-Lacks after_cr x) (sanitize_from-Lacks (x == b'\r') s)

pub sanitize-Lacks : (s : Bytes) → Lacks b'\r' (sanitize s)
unfolding sanitize
sanitize-Lacks s = sanitize_from-Lacks false s

pub sanitize_id : (s : Bytes) → Lacks b'\r' s → sanitize s ≡ s
unfolding sanitize sanitize_from
sanitize_id [] h = refl
sanitize_id (x ∷ s) h =
    let e : (x == b'\r') ≡ false = ground arith in rw e (ap (◌∷◌ x) (sanitize_id s h.1))

-- The text less each "\r" that stands before a "\n".
pub starts_line : Bytes → Bool
starts_line [] = false
starts_line (x ∷ s) = x == b'\n'

pub join_lines : Bytes → Bytes
unfolding starts_line
join_lines [] = []
join_lines (x ∷ s) =
    let rest = join_lines s in if x == b'\r' && starts_line s then rest else x ∷ rest

pub blank_cr : ℕ → ℕ
blank_cr x = if x == b'\r' then b' ' else x

replaced_from :
    (s : Bytes)
    → (sanitize_from false s ≡ map blank_cr (join_lines s))
      × (sanitize_from true s ≡ (
          if starts_line s
          then map blank_cr (join_lines s)
          else b' ' ∷ map blank_cr (join_lines s)))
unfolding sanitize_from join_lines starts_line blank_cr
replaced_from [] = (refl, refl)
replaced_from (x ∷ s) = let (plain, after) = replaced_from s in (ground arith, ground arith)

-- The sanitizer is the two replacements one after the other: first "\n" for every "\r\n", then " "
-- for every "\r" that is left.
pub sanitize-replaced : (s : Bytes) → sanitize s ≡ map blank_cr (join_lines s)
unfolding sanitize
sanitize-replaced s = (replaced_from s).0
