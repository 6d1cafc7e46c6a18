-- ===== src/Windows/Gdi/Painted.antt =====
-- The bitmaps that `LoadImage` makes the icon of hold the pixels of the image.
use go_notify.Base.{ℕ, ◌-◌, ◌≡◌, List, [], ◌∷◌, Option, none, some}
use go_notify.Go.Image.{Image, ImageKind, gray, nrgba}
use go_notify.Windows.Gdi.{Call, Log, Gdi, gray_at, nrgba_at, rgb, Color}
use go_notify.Windows.Gdi.Colors.{color_of}

-- No round panicked.
abbrev AllRead : List (Option (List Call)) → Type 0
AllRead [] = Unit
AllRead (none ∷ ps) = ⊥
AllRead (some cs ∷ ps) = AllRead ps

-- What the two bitmaps hold at a pixel of the image.
abbrev pub IsPainted : ImageKind → Image → ℕ → ℕ → Log → Type 0
IsPainted gray img x y l =
    (v : ℕ) × (gray_at img x y ≡ some v)
    × (color_of 4 x y l ≡ some (rgb v v v))
    × (color_of 1 x y l ≡ none)
IsPainted nrgba img x y l =
    (c : Color) × (nrgba_at img x y ≡ some c)
    × (color_of 4 x y l ≡ some (rgb c.r c.g c.b))
    × (color_of 1 x y l ≡ some (rgb (255 - c.a) (255 - c.a) (255 - c.a)))
IsPainted _ img x y l = (color_of 4 x y l ≡ none) × (color_of 1 x y l ≡ none)
