-- ===== src/Windows/Guid/Formats.antt =====
-- The textual forms of a GUID.
use go_notify.Base.{
  ℕ, suc, ◌+◌, ◌-◌, ◌*◌, ◌^◌, ◌<◌, ◌≡◌, ◌≢◌, refl, sym, ap, ◌∙◌, false, [], ◌∷◌, ◌++◌, append_assoc,
  Option, none, some, arith, ltb, ◌==◌, ==_iff, length, take, drop, length-append, take-append,
  drop-append, last-append, Bytes,
}
use go_notify.Go.Strings.Cut.{Lacks}
use go_notify.Go.Hex.{hex_value, decode_string}
use go_notify.Windows.Guid.{
  Guid, parse_uint, ◌>>=◌, parse_plain, dash, group, parse_groups, strip_braces, parse,
}

group-append : (n : ℕ) (g s : Bytes) → length g ≡ n → group n (g ++ s) ≡ some (g, s)
unfolding group
group-append n g s e =
    let enough : ltb (length (g ++ s)) n ≡ false = ground (arith, length-append g s) in
    rw enough (rw (← e) (rw (take-append g s, drop-append g s)))

dash-cons : (s : Bytes) → dash (b'-' ∷ s) ≡ some s
unfolding dash
dash-cons s = refl

-- What five groups of digits stand for.
abbrev pub of_groups : Bytes → Bytes → Bytes → Bytes → Bytes → Option Guid
of_groups g0 g1 g2 g3 g4 = do
  a ← parse_uint g0 (2 ^ 32)
  b ← parse_uint g1 (2 ^ 16)
  c ← parse_uint g2 (2 ^ 16)
  d ← decode_string g3
  e ← decode_string g4
  some (record { data1 = a; data2 = b; data3 = c; data4 = d ++ e })

parse-unbraced :
    (g s : Bytes)
    → 0 < length g
    → Lacks b'{' g
    → length (g ++ s) ≢ 32
    → parse (g ++ s) ≡ parse_groups (g ++ s)
unfolding parse strip_braces
parse-unbraced [] s h l ne = absurd (omega arith)
parse-unbraced (c ∷ g) s h l ne = ground arith

parse-braced : (s : Bytes) → 32 < length s → parse (b'{' ∷ (s ++ b'}' ∷ [])) ≡ parse_groups s
unfolding parse strip_braces
parse-braced s h =
    let size = length-append s (b'}' ∷ []) in
    let long : (suc (length (s ++ b'}' ∷ [])) == 32) ≡ false = ground arith in
    let cut : length (s ++ b'}' ∷ []) - 1 ≡ length s = omega arith in
    rw (long, last-append (b'{' ∷ s) b'}') (rw (cut, take-append s (b'}' ∷ [])))

parse-size : (s : Bytes) → length s ≡ 32 → parse s ≡ parse_plain s
unfolding parse
parse-size [] h = absurd (omega arith)
parse-size (c ∷ s) h = rw ((==_iff _ _).1 h)

take_at : (n : ℕ) (g s : Bytes) → length g ≡ n → take n (g ++ s) ≡ g
take_at n g s e = rw (← e) (take-append g s)

drop_at : (n : ℕ) (g s : Bytes) → length g ≡ n → drop n (g ++ s) ≡ s
drop_at n g s e = rw (← e) (drop-append g s)

plain_of :
    (s g0 g1 g2 t : Bytes)
    → take 8 s ≡ g0
    → take 4 (drop 8 s) ≡ g1
    → take 4 (drop 12 s) ≡ g2
    → drop 16 s ≡ t
    → parse_plain s ≡ (do
      a ← parse_uint g0 (2 ^ 32)
      b ← parse_uint g1 (2 ^ 16)
      c ← parse_uint g2 (2 ^ 16)
      d ← decode_string t
      some (record { data1 = a; data2 = b; data3 = c; data4 = d }))
unfolding parse_plain
plain_of s g0 g1 g2 t e0 e1 e2 e3 = λ j. parse_uint (e0 j) (2 ^ 32) >>= λ a.
    parse_uint (e1 j) (2 ^ 16) >>= λ b. parse_uint (e2 j) (2 ^ 16) >>= λ c.
    decode_string (e3 j) >>= λ d. some (record { data1 = a; data2 = b; data3 = c; data4 = d })

join_bind :
    (m n : Option Bytes) (k : Bytes → Option Guid)
    → ((m >>= λ x. n >>= λ y. some (x ++ y)) >>= k) ≡ (m >>= λ x. n >>= λ y. k (x ++ y))
join_bind none n k = refl
join_bind (some x) none k = refl
join_bind (some x) (some y) k = refl

decode_pair :
    (a b : ℕ) (s : Bytes) (r : Option Bytes)
    → decode_string s ≡ r
    → decode_string (a ∷ b ∷ s)
      ≡ (hex_value a >>= λ x. hex_value b >>= λ y. r >>= λ t. some ((16 * x + y) ∷ t))
unfolding decode_string
decode_pair a b s r e = ground arith

decode_nil : decode_string [] ≡ some []
unfolding decode_string
decode_nil = refl

abbrev pair_with : Option ℕ → Option ℕ → Option Bytes → Option Bytes
pair_with m n r = m >>= λ x. n >>= λ y. r >>= λ t. some ((16 * x + y) ∷ t)

pair_with_append :
    (m1 m2 m3 m4 : Option ℕ) (r : Option Bytes)
    → pair_with m1 m2 (pair_with m3 m4 r)
      ≡ (pair_with m1 m2 (pair_with m3 m4 (some [])) >>= λ d. r >>= λ e. some (d ++ e))
pair_with_append none m2 m3 m4 r = refl
pair_with_append (some a) none m3 m4 r = refl
pair_with_append (some a) (some b) none m4 r = refl
pair_with_append (some a) (some b) (some c) none r = refl
pair_with_append (some a) (some b) (some c) (some d) none = refl
pair_with_append (some a) (some b) (some c) (some d) (some t) = refl

decode_append :
    (w x y z : ℕ) (s : Bytes)
    → decode_string (w ∷ x ∷ y ∷ z ∷ s)
      ≡ (decode_string (w ∷ x ∷ y ∷ z ∷ []) >>= λ d. decode_string s >>= λ e. some (d ++ e))
decode_append w x y z s =
    let four = λ (t : Bytes) (r : Option Bytes) (e : decode_string t ≡ r).
      decode_pair w x (y ∷ z ∷ t) (pair_with (hex_value y) (hex_value z) r)
        (decode_pair y z t r e) in
    four s (decode_string s) refl
    ∙ pair_with_append (hex_value w) (hex_value x) (hex_value y) (hex_value z) (decode_string s)
    ∙ ap (λ (o : Option Bytes). o >>= λ d. decode_string s >>= λ e. some (d ++ e))
        (sym (four [] (some []) decode_nil))

decode_join :
    (g s : Bytes)
    → length g ≡ 4
    → (k : Bytes → Option Guid)
    → (decode_string (g ++ s) >>= k)
      ≡ (decode_string g >>= λ d. decode_string s >>= λ e. k (d ++ e))
decode_join (w ∷ x ∷ y ∷ z ∷ []) s h k =
    ap (λ (o : Option Bytes). o >>= k) (decode_append w x y z s)
    ∙ join_bind (decode_string (w ∷ x ∷ y ∷ z ∷ [])) (decode_string s) k
decode_join [] s h k = absurd (omega arith)
decode_join (w ∷ []) s h k = absurd (omega arith)
decode_join (w ∷ x ∷ []) s h k = absurd (omega arith)
decode_join (w ∷ x ∷ y ∷ []) s h k = absurd (omega arith)
decode_join (w ∷ x ∷ y ∷ z ∷ v ∷ g) s h k = absurd (omega arith)

module _ (g0 g1 g2 g3 g4 : Bytes) (l0 : length g0 ≡ 8) (l1 : length g1 ≡ 4) (l2 : length g2 ≡ 4)
    (l3 : length g3 ≡ 4) (l4 : length g4 ≡ 12) where
  abbrev pub dashed : Bytes → Bytes
  dashed tail = g0 ++ b'-' ∷ (g1 ++ b'-' ∷ (g2 ++ b'-' ∷ (g3 ++ b'-' ∷ (g4 ++ tail))))

  length-dashed : (tail : Bytes) → length (dashed tail) ≡ 36 + length tail
  length-dashed tail = omega (
    arith,
    length-append g0 (b'-' ∷ (g1 ++ b'-' ∷ (g2 ++ b'-' ∷ (g3 ++ b'-' ∷ (g4 ++ tail))))),
    length-append g1 (b'-' ∷ (g2 ++ b'-' ∷ (g3 ++ b'-' ∷ (g4 ++ tail)))),
    length-append g2 (b'-' ∷ (g3 ++ b'-' ∷ (g4 ++ tail))),
    length-append g3 (b'-' ∷ (g4 ++ tail)),
    length-append g4 tail,
  )

  parse_groups-dashed : (tail : Bytes) → parse_groups (dashed tail) ≡ of_groups g0 g1 g2 g3 g4
  unfolding parse_groups
  parse_groups-dashed tail = simp (
    group-append 8 g0 (b'-' ∷ (g1 ++ b'-' ∷ (g2 ++ b'-' ∷ (g3 ++ b'-' ∷ (g4 ++ tail))))) l0,
    group-append 4 g1 (b'-' ∷ (g2 ++ b'-' ∷ (g3 ++ b'-' ∷ (g4 ++ tail)))) l1,
    group-append 4 g2 (b'-' ∷ (g3 ++ b'-' ∷ (g4 ++ tail))) l2,
    group-append 4 g3 (b'-' ∷ (g4 ++ tail)) l3,
    group-append 12 g4 tail l4,
  )

  parse-dashed :
      (tail : Bytes)
      → Lacks b'{' g0
      → (parse (dashed tail) ≡ of_groups g0 g1 g2 g3 g4)
        × (parse (b'{' ∷ (dashed tail ++ b'}' ∷ [])) ≡ of_groups g0 g1 g2 g3 g4)
  parse-dashed tail open_ =
      let size = length-dashed tail in
      (
        parse-unbraced g0 _ (omega arith) open_ (omega arith) ∙ parse_groups-dashed tail,
        parse-braced (dashed tail) (omega arith) ∙ parse_groups-dashed tail,
      )

  parse-plain : parse (g0 ++ (g1 ++ (g2 ++ (g3 ++ g4)))) ≡ of_groups g0 g1 g2 g3 g4
  parse-plain =
      let rest = g1 ++ (g2 ++ (g3 ++ g4)) in
      let whole = g0 ++ rest in
      let size : length whole ≡ 32 = omega (
        arith,
        length-append g0 rest,
        length-append g1 (g2 ++ (g3 ++ g4)),
        length-append g2 (g3 ++ g4),
        length-append g3 g4,
      ) in
      let two : whole ≡ (g0 ++ g1) ++ (g2 ++ (g3 ++ g4)) =
        sym (append_assoc g0 g1 (g2 ++ (g3 ++ g4))) in
      let three : whole ≡ ((g0 ++ g1) ++ g2) ++ (g3 ++ g4) =
        two ∙ sym (append_assoc (g0 ++ g1) g2 (g3 ++ g4)) in
      let d8 : drop 8 whole ≡ rest = drop_at 8 g0 rest l0 in
      let d12 : drop 12 whole ≡ g2 ++ (g3 ++ g4) =
        ap (drop 12) two ∙ drop_at 12 (g0 ++ g1) _ (omega (arith, length-append g0 g1)) in
      let d16 : drop 16 whole ≡ g3 ++ g4 =
        ap (drop 16) three
        ∙ drop_at 16 ((g0 ++ g1) ++ g2) _
            (omega (arith, length-append g0 g1, length-append (g0 ++ g1) g2)) in
      parse-size whole size
      ∙ plain_of whole g0 g1 g2 (g3 ++ g4) (take_at 8 g0 rest l0)
          (ap (take 4) d8 ∙ take_at 4 g1 _ l1) (ap (take 4) d12 ∙ take_at 4 g2 _ l2) d16
      ∙ (λ j. parse_uint g0 (2 ^ 32) >>= λ a. parse_uint g1 (2 ^ 16) >>= λ b.
          parse_uint g2 (2 ^ 16) >>= λ c.
          decode_join g3 g4 l3 (λ d. some (record { data1 = a; data2 = b; data3 = c; data4 = d }))
            j)

  -- Five groups of 8, 4, 4, 4 and 12 bytes with dashes between them, in braces or not, are read
  -- group by group; and so they are whatever text `tail` stands behind them. The form with no dashes
  -- is read as the same groups: all three forms agree, on the GUID and on the error.
  pub parse-of_groups :
      (tail : Bytes)
      → Lacks b'{' g0
      → (parse (dashed tail) ≡ of_groups g0 g1 g2 g3 g4)
        × (parse (b'{' ∷ (dashed tail ++ b'}' ∷ [])) ≡ of_groups g0 g1 g2 g3 g4)
        × (parse (g0 ++ (g1 ++ (g2 ++ (g3 ++ g4)))) ≡ of_groups g0 g1 g2 g3 g4)
  parse-of_groups tail open_ =
      let (plain, braced) = parse-dashed tail open_ in (plain, braced, parse-plain)
