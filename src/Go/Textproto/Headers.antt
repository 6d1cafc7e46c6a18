-- ===== src/Go/Textproto/Headers.antt =====
-- `Get` and `Del` of a `MIMEHeader`.
use go_notify.Base.{
  ◌≡◌, inl, inr, refl, sym, ◌∙◌, Bool, true, false, [], ◌∷◌, if◌then◌else◌, Bool-cases, Bytes,
  bytes_eq, bytes_eq_iff,
}
use mathlib.Core.Bool.{true≢false}
use go_notify.Go.Mime.{canonical_key}
use go_notify.Go.Textproto.{Header, get, del, find_first, remove_all}

-- Two keys of one field.
abbrev pub same_key : Bytes → Bytes → Bool
same_key j k = bytes_eq (canonical_key j) (canonical_key k)

bytes_eq-apart : (i j k : Bytes) → bytes_eq i j ≡ false → i ≡ k → bytes_eq j k ≡ false
bytes_eq-apart i j k off is_i = elim (Bool-cases (bytes_eq j k)) [
  | inr other ↦ other
  | inl is_j ↦
      let on : bytes_eq i j ≡ true =
        (bytes_eq_iff i j).1 (is_i ∙ sym ((bytes_eq_iff j k).0 is_j)) in
      absurd (true≢false (sym on ∙ off))
]

find_first-remove_all :
    (j k : Bytes) (h : Header)
    → find_first k (remove_all j h) ≡ (if bytes_eq j k then [] else find_first k h)
unfolding find_first remove_all
find_first-remove_all j k [] = elim (Bool-cases (bytes_eq j k)) [
  | inl on ↦ simp on refl
  | inr off ↦ simp off refl
]
find_first-remove_all j k ((i, v) ∷ h) = elim (Bool-cases (bytes_eq i j)) [
  | inl on ↦
      let is_i : i ≡ j = (bytes_eq_iff i j).0 on in
      rw (on, remove_all)
        (find_first-remove_all j k h ∙ elim (Bool-cases (bytes_eq j k)) [
          | inl same ↦ simp (is_i, same) refl
          | inr other ↦ simp (is_i, other) refl
        ])
  | inr off ↦
      rw (off, remove_all)
        (elim (Bool-cases (bytes_eq i k)) [
          | inl same ↦
              let other = bytes_eq-apart i j k off ((bytes_eq_iff i k).0 same) in
              simp (same, other) refl
          | inr other ↦ simp other (find_first-remove_all j k h)
        ])
]

pub get-del : (j k : Bytes) (h : Header) → get k (del j h) ≡ (if same_key j k then [] else get k h)
unfolding get del
get-del j k h = find_first-remove_all (canonical_key j) (canonical_key k) h
