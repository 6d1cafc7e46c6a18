-- ===== src/Freedesktop/Notification/Hints.antt =====
-- Which hint is kept, and under which key it is sent.
use go_notify.Base.{
  if◌then◌else◌, refl, Bool, ◌≡◌, ◌⊎◌, inl, inr, ◌||◌, List, some, Bool-cases, Option-cases, Bytes,
  codes, bytes_eq,
}
use go_notify.Base.Int.{ℤ, pos, negsuc, ◌≤ℤ◌}
use go_notify.Dict.{insert, lookup}
use go_notify.Go.Value.{image, ext}
use go_notify.Util.Convert.{Draw}
use go_notify.Freedesktop.Types.{Any, image_data}
use go_notify.Freedesktop.Numbers.{Conversion, converted, overflows, wrong_type, v2i, v2y}
use go_notify.Freedesktop.Notification.{
  Hinted, ok, err, hint, hint_name, sent_key, put_image, put_int32, put_byte, new_image_data,
}

-- Where it succeeds, `Hint` inserts a value under one name.
abbrev pub Inserts : Bytes → List (Bytes × Any) → Hinted → Type 0
Inserts n hs (ok hs') = (w : Any) × (hs' ≡ insert n w hs)
Inserts n hs (err e) = Unit

put_image-Inserts :
    (draw : Draw) (v : Any) (hs : List (Bytes × Any))
    → Inserts (codes "image-data") hs (put_image draw v hs)
unfolding put_image
put_image-Inserts draw (ext (image_data d)) hs = (_, refl)
put_image-Inserts draw (image img) hs = elim (Option-cases (new_image_data draw img)) [
  | inl bad ↦ rw (bad, put_image) tt
  | inr (d, good) ↦ rw (good, put_image) (_, refl)
]
put_image-Inserts draw _ hs = (_, refl)

put_int32-Inserts :
    (n : Bytes) (c : Conversion) (hs : List (Bytes × Any)) → Inserts n hs (put_int32 n c hs)
unfolding put_int32
put_int32-Inserts n (converted z) hs = (_, refl)
put_int32-Inserts n overflows hs = tt
put_int32-Inserts n wrong_type hs = tt

put_byte-Inserts :
    (n : Bytes) (c : Conversion) (hs : List (Bytes × Any)) → Inserts n hs (put_byte n c hs)
unfolding put_byte
put_byte-Inserts n (converted (pos u)) hs = (_, refl)
put_byte-Inserts n (converted (negsuc u)) hs = tt
put_byte-Inserts n overflows hs = tt
put_byte-Inserts n wrong_type hs = tt

-- The tests on the name, in the order of `Hint`.
abbrev pub is_data_name : Bytes → Bool
is_data_name n =
    bytes_eq n (codes "image-data")
    || bytes_eq n (codes "image_data")
    || bytes_eq n (codes "icon_data")

abbrev pub is_path_name : Bytes → Bool
is_path_name n = bytes_eq n (codes "image-path") || bytes_eq n (codes "image_path")

pub hint-Inserts :
    (draw : Draw) (n : Bytes) (v : Any) (hs : List (Bytes × Any))
    → Inserts (hint_name n) hs (hint draw n v hs)
unfolding hint hint_name
hint-Inserts draw n v hs = elim (Bool-cases (is_data_name n)) [
  | inl data_name ↦ rw data_name (put_image-Inserts draw v hs)
  | inr n1 ↦ elim (Bool-cases (is_path_name n)) [
    | inl path_name ↦ rw (n1, path_name) (v, refl)
    | inr n2 ↦ elim (Bool-cases (bytes_eq n (codes "x") || bytes_eq n (codes "y"))) [
      | inl place ↦ rw (n1, n2, place) (put_int32-Inserts n (v2i v) hs)
      | inr n3 ↦ elim (Bool-cases (bytes_eq n (codes "urgency"))) [
        | inl urgent ↦ rw (n1, n2, n3, urgent) (put_byte-Inserts n (v2y v) hs)
        | inr n4 ↦ rw (n1, n2, n3, n4) (v, refl)
      ]
    ]
  ]
]

-- A successful `Hint` sets the hint of one name and leaves the others.
abbrev pub Sets : Bytes → List (Bytes × Any) → Hinted → Type 0
Sets n hs (ok hs') =
    (w : Any) × ((j : Bytes) → lookup j hs' ≡ (if bytes_eq n j then some w else lookup j hs))
Sets n hs (err e) = Unit

-- The order of the versions `major.minor`.
abbrev pub IsBefore : ℤ → ℤ → ℤ → ℤ → Type 0
IsBefore a b c d = ((a ≤ℤ c) × ¬ (c ≤ℤ a)) ⊎ ((a ≡ c) × (b ≤ℤ d) × ¬ (d ≤ℤ b))

-- The names of the image in the versions of the specification, and those of its path.
abbrev pub SentAs : Bytes → ℤ → ℤ → Type 0
SentAs k major minor =
    (IsBefore major minor (pos 1) (pos 1) × (sent_key major minor k ≡ codes "icon_data"))
    ⊎ ((major ≡ pos 1) × (minor ≡ pos 1) × (sent_key major minor k ≡ codes "image_data"))
    ⊎ (IsBefore (pos 1) (pos 1) major minor × (sent_key major minor k ≡ codes "image-data"))

abbrev pub PathSentAs : Bytes → ℤ → ℤ → Type 0
PathSentAs k major minor =
    (IsBefore major minor (pos 1) (pos 2) × (sent_key major minor k ≡ codes "image_path"))
    ⊎ (IsBefore (pos 1) (pos 1) major minor × (sent_key major minor k ≡ codes "image-path"))

-- Under which name the hint that was set under `n` is kept, and under which it is sent.
abbrev pub IsSent : Bytes → ℤ → ℤ → Type 0
IsSent n major minor =
    ((hint_name n ≡ codes "image-data") × SentAs (hint_name n) major minor)
    ⊎ ((hint_name n ≡ codes "image-path") × PathSentAs (hint_name n) major minor)
    ⊎ ((hint_name n ≡ n) × (sent_key major minor (hint_name n) ≡ n))
