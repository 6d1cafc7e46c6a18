-- ===== src/Util/ReadBytes/First.antt =====
-- `ReadBytes` stops at the first occurrence of its delimiter.
use mathlib.Core.Bool.{true≢false}
use go_notify.Base.{
  ℕ, zero, suc, ◌+◌, ◌-◌, ◌<◌, ◌≡◌, ◌≢◌, inl, inr, refl, sym, ap, ◌∙◌, true, false, [], ◌∷◌, ◌++◌,
  append-nil, append_assoc, none, some, arith, leb, ◌==◌, Bool-cases, Option-cases, length, take,
  drop, length-append, take-append-drop, drop-append, last, last-append, last_split, last-none,
  Bytes, bytes_eq_iff, bytes_eq_refl,
}
use go_notify.Go.Strings.{has_suffix}
use go_notify.Util.ReadBytes.{
  read_until, Outcome, read, failed, panicked, unfinished, read_loop, read_bytes,
}
use go_notify.Go.Strings.Cut.{Lacks}

abbrev pub EndsWith : Bytes → Bytes → Type 0
EndsWith delim p = (q : Bytes) × (p ≡ q ++ delim)

has_suffix_sound : (delim s : Bytes) → has_suffix delim s ≡ true → EndsWith delim s
unfolding has_suffix
has_suffix_sound delim s h =
    let n = length s - length delim in
    let same : drop n s ≡ delim = (bytes_eq_iff (drop n s) delim).0 (ground arith) in
    (take n s, sym (take-append-drop n s) ∙ ap (λ t. take n s ++ t) same)

has_suffix_complete : (delim q : Bytes) → has_suffix delim (q ++ delim) ≡ true
unfolding has_suffix
has_suffix_complete delim q =
    let cut : length (q ++ delim) - length delim ≡ length q =
      omega (arith, length-append q delim) in
    let fits : leb (length delim) (length (q ++ delim)) ≡ true =
      ground (arith, length-append q delim) in
    rw (cut, drop-append q delim) (rw (fits, bytes_eq_refl delim))

no_suffix : (delim s : Bytes) → has_suffix delim s ≡ false → ¬ EndsWith delim s
no_suffix delim s miss (q, e) =
    true≢false (sym (has_suffix_complete delim q) ∙ ap (has_suffix delim) (sym e) ∙ miss)

-- No text from `acc` up to `acc ++ s`, both included, ends with the delimiter.
abbrev pub NoEnd : Bytes → Bytes → Bytes → Type 0
NoEnd delim acc [] = ¬ EndsWith delim acc
NoEnd delim acc (x ∷ s) = (¬ EndsWith delim acc) × NoEnd delim (acc ++ x ∷ []) s

-- Read as a statement about every prefix.
NoEnd-prefix : (delim acc p q : Bytes) → NoEnd delim acc (p ++ q) → ¬ EndsWith delim (acc ++ p)
NoEnd-prefix delim acc [] [] h = rw (append-nil acc) h
NoEnd-prefix delim acc [] (x ∷ q) h = rw (append-nil acc) (h.0)
NoEnd-prefix delim acc (x ∷ p) q h =
    rw (← append_assoc acc (x ∷ []) p) (NoEnd-prefix delim (acc ++ x ∷ []) p q h.1)

-- A text that ends with another byte than the delimiter does not end with the delimiter.
not_EndsWith : (d acc : Bytes) (c x : ℕ) → x ≢ c → ¬ EndsWith (d ++ c ∷ []) (acc ++ x ∷ [])
not_EndsWith d acc c x ne (q, e) = ne (
    some-injective (
      sym (last-append acc x)
      ∙ ap last e
      ∙ ap last (sym (append_assoc q d (c ∷ [])))
      ∙ last-append (q ++ d) c))
  where
    some-injective : some x ≡ some c → x ≡ c
    some-injective h = cc

NoEnd-Lacks :
    (d acc t : Bytes) (c : ℕ) → ¬ EndsWith (d ++ c ∷ []) acc → Lacks c t → NoEnd (d ++ c ∷ []) acc t
NoEnd-Lacks d acc [] c h l = h
NoEnd-Lacks d acc (x ∷ t) c h l =
    (h, NoEnd-Lacks d (acc ++ x ∷ []) t c (not_EndsWith d acc c x l.0) l.1)

NoEnd-append :
    (d acc s t : Bytes) (c : ℕ)
    → NoEnd (d ++ c ∷ []) acc s
    → Lacks c t
    → NoEnd (d ++ c ∷ []) acc (s ++ t)
NoEnd-append d acc [] t c h l = NoEnd-Lacks d acc t c h l
NoEnd-append d acc (x ∷ s) t c h l = (h.0, NoEnd-append d (acc ++ x ∷ []) s t c h.1 l)

-- One read takes a text with no `c` in it and then a `c`.
read_until_sound :
    (c : ℕ) (s : Bytes) {b r : Bytes}
    → read_until c s ≡ some (b, r)
    → (t : Bytes) × Lacks c t × (b ≡ t ++ c ∷ []) × (s ≡ b ++ r) × (length r < length s)
unfolding read_until
read_until_sound c [] e = cc
read_until_sound c (x ∷ s) {b} {r} e = elim (Bool-cases (x == c)) [
  | inl hit ↦ ([], tt, ground arith, ground arith, ground arith)
  | inr miss ↦ elim (Option-cases (read_until c s)) [
    | inl none_left ↦ ground arith
    | inr ((b', r'), found) ↦
        let (t, l, e1, e2, lt) = read_until_sound c s found in
        (x ∷ t, ((λ e3. ground arith), l), ground arith, ground arith, ground arith)
  ]
]

read_until-none : (c : ℕ) (s : Bytes) → read_until c s ≡ none → Lacks c s
unfolding read_until
read_until-none c [] e = tt
read_until-none c (x ∷ s) e = ground (arith, read_until-none c s)

-- A prefix that leaves something of a text with one more byte is a prefix of the text.
prefix_of_snoc :
    (xs p q : Bytes) (c : ℕ) → xs ++ c ∷ [] ≡ p ++ q → q ≢ [] → (r : Bytes) × (xs ≡ p ++ r)
prefix_of_snoc xs [] q c e ne = (xs, refl)
prefix_of_snoc [] (y ∷ []) q c e ne = absurd (ne cc)
prefix_of_snoc [] (y ∷ z ∷ p) q c e ne = cc
prefix_of_snoc (x ∷ xs) (y ∷ p) q c e ne =
    let tails : xs ++ c ∷ [] ≡ p ++ q = cc in
    let heads : x ≡ y = cc in
    let (r, f) = prefix_of_snoc xs p q c tails ne in
    (r, ap (◌∷◌ x) f ∙ ap (λ z. z ∷ (p ++ r)) heads)

NoEnd-snoc :
    (delim acc s : Bytes) (x : ℕ)
    → NoEnd delim acc s
    → ¬ EndsWith delim (acc ++ (s ++ x ∷ []))
    → NoEnd delim acc (s ++ x ∷ [])
NoEnd-snoc delim acc [] x h n = (h, n)
NoEnd-snoc delim acc (y ∷ s) x h n =
    (h.0, NoEnd-snoc delim (acc ++ y ∷ []) s x h.1 (rw (append_assoc acc (y ∷ []) (s ++ x ∷ [])) n))

-- What the result says of the whole input.
abbrev pub Found : Bytes → Bytes → Outcome → Type 0
Found delim whole (read rv rest) =
    (whole ≡ rv ++ rest)
    × EndsWith delim rv
    × ((p q : Bytes) → rv ≡ p ++ q → q ≢ [] → ¬ EndsWith delim p)
Found delim whole failed = (p q : Bytes) → whole ≡ p ++ q → ¬ EndsWith delim p
Found delim whole panicked = ⊥
Found delim whole unfinished = ⊥

first_end :
    (d rv t r : Bytes) (c : ℕ)
    → NoEnd (d ++ c ∷ []) [] (rv ++ t)
    → EndsWith (d ++ c ∷ []) (rv ++ (t ++ c ∷ []))
    → Found (d ++ c ∷ []) (rv ++ ((t ++ c ∷ []) ++ r)) (read (rv ++ (t ++ c ∷ [])) r)
first_end d rv t r c h e = (
  sym (append_assoc rv (t ++ c ∷ []) r),
  e,
  λ p q f ne.
      let (r', g) = prefix_of_snoc (rv ++ t) p q c (append_assoc rv t (c ∷ []) ∙ f) ne in
      NoEnd-prefix (d ++ c ∷ []) [] p r' (rw (← g) h),
)

read_loop-Found :
    (fuel : ℕ) (d rv s : Bytes) (c : ℕ)
    → length s < fuel
    → NoEnd (d ++ c ∷ []) [] rv
    → Found (d ++ c ∷ []) (rv ++ s) (read_loop fuel c (d ++ c ∷ []) rv s)
unfolding read_loop
read_loop-Found zero d rv s c lt h = absurd (omega arith)
read_loop-Found (suc f) d rv s c lt h = elim (Option-cases (read_until c s)) [
  | inl nothing ↦
      rw (nothing, read_loop)
        (λ p q e.
          NoEnd-prefix (d ++ c ∷ []) [] p q
            (rw (← e) (NoEnd-append d [] rv s c h (read_until-none c s nothing))))
  | inr ((b, r), found) ↦
      let (t, l, is_b, is_s, shorter) = read_until_sound c s found in
      let before = NoEnd-append d [] rv t c h l in
      rw (found, read_loop)
        (elim (Bool-cases (has_suffix (d ++ c ∷ []) (rv ++ b))) [
          | inl hit ↦
              let ends = has_suffix_sound (d ++ c ∷ []) (rv ++ b) hit in
              rw (hit, is_s, is_b) (first_end d rv t r c before (rw is_b at ends))
          | inr miss ↦
              let same : rv ++ t ++ c ∷ [] ≡ rv ++ b =
                append_assoc rv t (c ∷ []) ∙ ap (λ z. rv ++ z) (sym is_b) in
              let later = read_loop-Found f d (rv ++ b) r c (omega arith) (
                rw same at (
                  NoEnd-snoc (d ++ c ∷ []) [] (rv ++ t) c before
                    (rw same (no_suffix (d ++ c ∷ []) (rv ++ b) miss)))) in
              rw (miss, is_s, ← append_assoc rv b r) later
        ])
]

-- Of an input `s` and a delimiter that is not empty, with as much fuel as `s` has bytes and one
-- more: `ReadBytes` either returns the shortest prefix of `s` that ends with the delimiter, and
-- leaves the rest to be read, or it fails, and then no prefix of `s` ends with the delimiter.
pub read_bytes-Found :
    (s delim : Bytes) → delim ≢ [] → Found delim s (read_bytes (length s + 1) s delim)
unfolding read_bytes
read_bytes-Found s delim ne = elim (Option-cases (last delim)) [
  | inl empty ↦ absurd (ne (last-none delim empty))
  | inr (c, found) ↦
      let (d, e) = last_split delim found in
      rw (found, read_bytes)
        (rw e (read_loop-Found (length s + 1) d [] s c (omega arith) (not_empty d c)))
]
  where
    not_empty : (d : Bytes) (c : ℕ) → ¬ EndsWith (d ++ c ∷ []) []
    not_empty d c (q, e) =
        absurd (omega (arith, ap length e, length-append q (d ++ c ∷ []), length-append d (c ∷ [])))
