-- ===== src/Freedesktop/Notification.antt =====
-- `Notification` of freedesktop/notify.go: its actions and hints.
pub mod Actions
pub mod Hints
pub mod Names
use go_notify.Base.{
  ℕ, ◌-◌, ◌%◌, ◌^◌, Bool, true, false, ◌&&◌, ◌||◌, List, [], ◌∷◌, Option, none, some, ltb,
  if◌then◌else◌, Bytes, codes, bytes_eq,
}
use go_notify.Base.Int.{ℤ, pos, negsuc, leb_ℤ}
use go_notify.Dict.{insert}
use go_notify.Go.Image.{Image, gray}
use go_notify.Go.Value.{int32, uint8, image, ext}
use go_notify.Util.Convert.{Draw, convert}
use go_notify.Freedesktop.Types.{Any, ImageData, image_data, image_data_pointer}
use go_notify.Freedesktop.Numbers.{Conversion, converted, overflows, wrong_type, v2i, v2y}

-- `Notification.Action` on the slice of keys and labels; `none` is a panic of `n.Actions[i+1]`.
unfoldable pub action : Bytes → Bytes → List Bytes → Option (List Bytes)
action key label [] = some (key ∷ label ∷ [])
action key label (k ∷ []) = if bytes_eq k key then none else some (k ∷ key ∷ label ∷ [])
action key label (k ∷ l ∷ r) =
    let later : Option (List Bytes) = elim (action key label r) [
      | none ↦ none
      | some t ↦ some (k ∷ l ∷ t)
    ] in
    if bytes_eq k key then some (k ∷ label ∷ r) else later

-- The conversion `int32(n)` of an int that is not negative.
unfoldable pub to_int32 : ℕ → ℤ
to_int32 n =
    if ltb (n % 2 ^ 32) (2 ^ 31) then pos (n % 2 ^ 32) else negsuc (2 ^ 32 - 1 - n % 2 ^ 32)

-- What an image is after `util.Convert`: an `*image.Gray` or an `*image.NRGBA`.
data_of : Image → Bool → Image → ImageData
unfolding to_int32
data_of img true r = record {
  width = to_int32 img.width;
  height = to_int32 img.height;
  stride = to_int32 r.stride;
  alpha = false;
  bits_per_sample = pos 8;
  num_channels = pos 1;
  pixels = r.pix;
}
data_of img false r = record {
  width = to_int32 img.width;
  height = to_int32 img.height;
  stride = to_int32 r.stride;
  alpha = true;
  bits_per_sample = pos 8;
  num_channels = pos 4;
  pixels = r.pix;
}

is_gray : Image → Bool
is_gray r = elim r.kind [ gray ↦ true | _ ↦ false ]

-- `NewImageData`.
unfoldable pub new_image_data : Draw → Image → Option ImageData
unfolding data_of is_gray
new_image_data draw img = elim (convert draw img) [
  | none ↦ none
  | some r ↦ some (data_of img (is_gray r) r)
]

pub data HintError : Type 0 where
  bad_image out_of_range not_integer : HintError

pub data Hinted : Type 0 where
  ok : List (Bytes × Any) → Hinted
  err : HintError → Hinted

-- The name under which a hint is kept.
unfoldable pub hint_name : Bytes → Bytes
hint_name n =
    if bytes_eq n (codes "image-data")
      || bytes_eq n (codes "image_data")
      || bytes_eq n (codes "icon_data")
    then codes "image-data"
    else if bytes_eq n (codes "image-path") || bytes_eq n (codes "image_path")
    then codes "image-path"
    else n

put_image : Draw → Any → List (Bytes × Any) → Hinted
put_image draw (ext (image_data d)) hs =
    ok (insert (codes "image-data") (ext (image_data_pointer d)) hs)
put_image draw (image img) hs = elim (new_image_data draw img) [
  | none ↦ err bad_image
  | some d ↦ ok (insert (codes "image-data") (ext (image_data_pointer d)) hs)
]
put_image draw v hs = ok (insert (codes "image-data") v hs)

put_int32 : Bytes → Conversion → List (Bytes × Any) → Hinted
put_int32 n (converted z) hs = ok (insert n (int32 z) hs)
put_int32 n overflows hs = err out_of_range
put_int32 n wrong_type hs = err not_integer

put_byte : Bytes → Conversion → List (Bytes × Any) → Hinted
put_byte n (converted (pos u)) hs = ok (insert n (uint8 u) hs)
put_byte n (converted (negsuc u)) hs = err out_of_range
put_byte n overflows hs = err out_of_range
put_byte n wrong_type hs = err not_integer

-- `Notification.Hint` on the map of hints; a nil map is empty.
unfoldable pub hint : Draw → Bytes → Any → List (Bytes × Any) → Hinted
unfolding put_image put_int32 put_byte
hint draw n v hs =
    if bytes_eq n (codes "image-data")
      || bytes_eq n (codes "image_data")
      || bytes_eq n (codes "icon_data")
    then put_image draw v hs
    else if bytes_eq n (codes "image-path") || bytes_eq n (codes "image_path")
    then ok (insert (codes "image-path") v hs)
    else if bytes_eq n (codes "x") || bytes_eq n (codes "y")
    then put_int32 n (v2i v) hs
    else if bytes_eq n (codes "urgency")
    then put_byte n (v2y v) hs
    else ok (insert n v hs)

-- The key of a hint for a server of version `major.minor`, in `Client.Notify`.
unfoldable pub sent_key : ℤ → ℤ → Bytes → Bytes
sent_key major minor k =
    let one = leb_ℤ (pos 1) major && leb_ℤ major (pos 1) in
    let current = leb_ℤ (pos 2) major || one && leb_ℤ (pos 2) minor in
    if bytes_eq k (codes "image-data")
    then (if current
        then k
        else if one && leb_ℤ (pos 1) minor && leb_ℤ minor (pos 1)
        then codes "image_data"
        else codes "icon_data")
    else if bytes_eq k (codes "image-path")
    then (if current then k else codes "image_path")
    else k
