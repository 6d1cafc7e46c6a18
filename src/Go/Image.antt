-- ===== src/Go/Image.antt =====
-- `image.Image` as the packages see it: its dynamic type, its bounds and its pixels.
use go_notify.Base.{ℕ, Bytes}

-- The dynamic types that `util.Convert` tells apart; `other_image` is any type beside these.
pub data ImageKind : Type 0 where
  cmyk gray gray16 nrgba nrgba64 nycbcra paletted rgba rgba64 ycbcr other_image : ImageKind

pub record Image : Type 0 where
  pub kind : ImageKind
  pub width : ℕ
  pub height : ℕ
  pub stride : ℕ
  pub pix : Bytes
