-- ===== src/Go/Textproto/Lines.antt =====
-- Lines are read off an input without loss.
use go_notify.Base.{
  ℕ, ◌-◌, ◌≡◌, inl, inr, refl, sym, ap, ◌∙◌, false, List, [], ◌∷◌, ◌++◌, append_assoc, some, arith,
  ◌==◌, Bool-cases, length, last-append, length-append, take-append, Bytes,
}
use go_notify.Go.Strings.Cut.{Lacks}
use go_notify.Go.Textproto.{push, raw_lines, join, drop_last, chop, read_line, ends_with}

join-push : (c : ℕ) (ls : List Bytes) → join (push c ls) ≡ c ∷ join ls
unfolding join push
join-push c [] = refl
join-push c (l ∷ ls) = refl

pub join-raw_lines : (s : Bytes) → join (raw_lines s) ≡ s
unfolding join raw_lines
join-raw_lines [] = refl
join-raw_lines (c ∷ s) = elim (Bool-cases (c == b'\n')) [
  | inl on ↦ rw (on, raw_lines) (ap (◌∷◌ c) (join-raw_lines s))
  | inr off ↦ rw (off, raw_lines) (join-push c (raw_lines s) ∙ ap (◌∷◌ c) (join-raw_lines s))
]

-- A line that is written with "\r\n" stands first.
raw_lines-line :
    (l s : Bytes)
    → Lacks b'\n' l
    → raw_lines (l ++ b'\r' ∷ b'\n' ∷ s) ≡ (l ++ b'\r' ∷ b'\n' ∷ []) ∷ raw_lines s
unfolding raw_lines push
raw_lines-line [] s h = refl
raw_lines-line (c ∷ l) s h =
    let off : (c == b'\n') ≡ false = ground arith in
    rw (off, raw_lines) (rw (raw_lines-line l s h.1, push))

drop_last-snoc : (s : Bytes) (x : ℕ) → drop_last (s ++ x ∷ []) ≡ s
unfolding drop_last
drop_last-snoc s x =
    let size : length (s ++ x ∷ []) - 1 ≡ length s = omega (arith, length-append s (x ∷ [])) in
    rw (size, take-append s (x ∷ []))

ends_with-snoc : (c : ℕ) (s : Bytes) (x : ℕ) → ends_with c (s ++ x ∷ []) ≡ (x == c)
ends_with-snoc c s x = rw (last-append s x, ends_with)

chop-line : (l : Bytes) → chop (l ++ b'\r' ∷ b'\n' ∷ []) ≡ l
unfolding chop
chop-line l =
    let two : l ++ b'\r' ∷ b'\n' ∷ [] ≡ (l ++ b'\r' ∷ []) ++ b'\n' ∷ [] =
      sym (append_assoc l (b'\r' ∷ []) (b'\n' ∷ [])) in
    let outer = drop_last-snoc (l ++ b'\r' ∷ []) b'\n' in
    rw two (
      rw (ends_with-snoc b'\n' (l ++ b'\r' ∷ []) b'\n', outer)
        (rw (ends_with-snoc b'\r' l b'\r', drop_last-snoc l b'\r')))

pub read_line-line :
    (l s : Bytes) → Lacks b'\n' l → read_line (l ++ b'\r' ∷ b'\n' ∷ s) ≡ some (l, s)
unfolding read_line
read_line-line l s h = rw (raw_lines-line l s h, read_line) (rw (chop-line l, join-raw_lines s))
