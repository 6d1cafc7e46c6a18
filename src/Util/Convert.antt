-- ===== src/Util/Convert.antt =====
-- `Convert` of internal/util/util.go. How `draw.Draw` renders the pixels of an image into a new
-- one of the given type is the parameter `draw`.
use go_notify.Base.{
  ◌*◌, ◌≡◌, ◌≢◌, ◌⊎◌, inl, inr, refl, Bool, true, false, Option, none, some, arith, Bytes,
}
use go_notify.Go.Image.{Image, ImageKind, gray, gray16, nrgba, other_image}

abbrev pub Draw : Type 0
Draw = ImageKind → Image → Bytes

-- `image.NewGray` or `image.NewNRGBA` of the same bounds, drawn over.
redraw : Draw → Bool → Image → Image
redraw draw true img = record {
  kind = gray;
  width = img.width;
  height = img.height;
  stride = img.width;
  pix = draw gray img;
}
redraw draw false img = record {
  kind = nrgba;
  width = img.width;
  height = img.height;
  stride = 4 * img.width;
  pix = draw nrgba img;
}

convert_kind : Draw → ImageKind → Image → Option Image
unfolding redraw
convert_kind draw gray img = some img
convert_kind draw nrgba img = some img
convert_kind draw gray16 img = some (redraw draw true img)
convert_kind draw other_image img = none
convert_kind draw _ img = some (redraw draw false img)

-- `none` is the error "unsupported image".
unfoldable pub convert : Draw → Image → Option Image
unfolding convert_kind
convert draw img = convert_kind draw img.kind img

-- An image of an unsupported type is an error; a gray or NRGBA image is handed back as it is; any
-- other becomes one of these two types, gray where it was a 16-bit gray image, of the same size and
-- with no padding between its rows.
pub convert_kinds :
    (draw : Draw) (img : Image)
    → ((img.kind ≡ other_image) × (convert draw img ≡ none))
      ⊎ ((img.kind ≡ gray) ⊎ (img.kind ≡ nrgba)) × (convert draw img ≡ some img)
      ⊎ ((r : Image) × (convert draw img ≡ some r)
          × (((img.kind ≡ gray16) × (r.kind ≡ gray) × (r.stride ≡ r.width))
              ⊎ ((img.kind ≢ gray16) × (r.kind ≡ nrgba) × (r.stride ≡ 4 * r.width)))
          × (r.width ≡ img.width)
          × (r.height ≡ img.height))
unfolding convert
convert_kinds draw img = by_kind img.kind refl
  where
    by_kind :
        (k : ImageKind)
        → img.kind ≡ k
        → ((img.kind ≡ other_image) × (convert_kind draw img.kind img ≡ none))
          ⊎ ((img.kind ≡ gray) ⊎ (img.kind ≡ nrgba)) × (convert_kind draw img.kind img ≡ some img)
          ⊎ ((r : Image) × (convert_kind draw img.kind img ≡ some r)
              × (((img.kind ≡ gray16) × (r.kind ≡ gray) × (r.stride ≡ r.width))
                  ⊎ ((img.kind ≢ gray16) × (r.kind ≡ nrgba) × (r.stride ≡ 4 * r.width)))
              × (r.width ≡ img.width)
              × (r.height ≡ img.height))
    by_kind gray e = inr (inl (inl e, ground arith))
    by_kind nrgba e = inr (inl (inr e, ground arith))
    by_kind gray16 e =
        inr (inr (redraw draw true img, ground arith, inl (e, refl, refl), refl, refl))
    by_kind other_image e = inl (e, ground arith)
    by_kind _ e = inr (
        inr
          (redraw draw false img, ground arith, inr ((λ f. ground arith), refl, refl), refl, refl))
