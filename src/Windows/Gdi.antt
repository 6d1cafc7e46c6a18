-- ===== src/Windows/Gdi.antt =====
-- The calls of GDI that `LoadImage` of windows/notify_windows.go makes: CreateIconIndirect on two
-- bitmaps that are painted pixel by pixel.
pub mod Audit
pub mod Released
pub mod Colors
pub mod Painted
use go_notify.Base.{
  ℕ, zero, suc, ◌+◌, ◌-◌, ◌*◌, Bool, true, false, List, [], ◌∷◌, ◌++◌, Option, none, some,
  get_elem?, length,
}
use go_notify.Go.Image.{Image, ImageKind, gray, nrgba}

-- A handle is the number of the call that gave it: the system gives a new one each time.
-- `SelectObject` is two cases: `select` where the code reads its result, the object that was there
-- before, and `deselect` where it puts that object back and drops the result.
pub data Call : Type 0 where
  get_dc : Call
  create_dc : ℕ → Call
  create_bitmap : ℕ → ℕ → ℕ → Call
  select deselect : ℕ → ℕ → Call
  set_pixel : ℕ → ℕ → ℕ → ℕ → Call
  create_icon_indirect : ℕ → ℕ → Call
  delete_object delete_dc release_dc : ℕ → Call

-- The calls so far, and whether each succeeded.
abbrev pub Log : Type 0
Log = List (Call × Bool)

-- Whether a call succeeds after those that were made before.
pub record Gdi : Type 0 where
  pub succeeds : Log → Call → Bool

-- `icon` is the new handle, `failed` the error of a call; `panicked` is a read behind the end of Pix.
pub data Loaded : Type 0 where
  icon : ℕ → Loaded
  failed panicked : Loaded

module _ (g : Gdi) where
  unfoldable pub perform : Call → Log → Log
  perform c l = l ++ (c, g.succeeds l c) ∷ []

  -- `defer`.
  unfoldable pub finally : Call → Loaded × Log → Loaded × Log
  unfolding perform
  finally c (r, l) = (r, perform c l)

  bracketed : Bool → Call → (ℕ → Call) → (ℕ → Log → Loaded × Log) → Log → Loaded × Log
  unfolding finally
  bracketed false c undo body l = (failed, l ++ (c, false) ∷ [])
  bracketed true c undo body l = finally (undo (length l)) (body (length l) (l ++ (c, true) ∷ []))

  -- A call whose error is returned, and whose result is given back when the function ends.
  unfoldable pub bracket : Call → (ℕ → Call) → (ℕ → Log → Loaded × Log) → Log → Loaded × Log
  unfolding bracketed
  bracket c undo body l = bracketed (g.succeeds l c) c undo body l

  unfoldable pub perform_all : List Call → Log → Log
  unfolding perform
  perform_all [] l = l
  perform_all (c ∷ cs) l = perform_all cs (perform c l)

  -- The body of the inner loop, once for each pixel; `none` panics.
  unfoldable pub paint : List (Option (List Call)) → Log → Bool × Log
  unfolding perform_all
  paint [] l = (true, l)
  paint (none ∷ ps) l = (false, l)
  paint (some cs ∷ ps) l = paint ps (perform_all cs l)

-- `for i := from; i < from+n; i++`.
unfoldable pub for_each {ℓ} : {A : Type ℓ} → ℕ → ℕ → (ℕ → List A) → List A
for_each from zero f = []
for_each from (suc n) f = f from ++ for_each (suc from) n f

-- `sys.RGB` of three bytes.
unfoldable pub rgb : ℕ → ℕ → ℕ → ℕ
rgb r g b = r + g * 256 + b * 65536

-- `GrayAt` and `NRGBAAt` inside of the bounds, which start at the origin.
unfoldable pub gray_at : Image → ℕ → ℕ → Option ℕ
gray_at img x y = get_elem? img.pix (y * img.stride + x)

pub record Color : Type 0 where
  pub r : ℕ
  pub g : ℕ
  pub b : ℕ
  pub a : ℕ

color : Option ℕ → Option ℕ → Option ℕ → Option ℕ → Option Color
color (some r) (some g) (some b) (some a) = some (record { r = r; g = g; b = b; a = a })
color _ _ _ _ = none

unfoldable pub nrgba_at : Image → ℕ → ℕ → Option Color
unfolding color
nrgba_at img x y =
    let i = y * img.stride + 4 * x in
    color (get_elem? img.pix i) (get_elem? img.pix (i + 1)) (get_elem? img.pix (i + 2))
      (get_elem? img.pix (i + 3))

-- The pixel of a gray image goes to the bitmap of colors alone.
gray_pixel : ℕ → ℕ → ℕ → Option ℕ → Option (List Call)
unfolding rgb
gray_pixel mdc2 x y none = none
gray_pixel mdc2 x y (some v) = some (set_pixel mdc2 x y (rgb v v v) ∷ [])

nrgba_pixel : ℕ → ℕ → ℕ → ℕ → Option Color → Option (List Call)
unfolding rgb
nrgba_pixel mdc1 mdc2 x y none = none
nrgba_pixel mdc1 mdc2 x y (some c) =
    let a = 255 - c.a in
    some (set_pixel mdc1 x y (rgb a a a) ∷ set_pixel mdc2 x y (rgb c.r c.g c.b) ∷ [])

unfoldable pub kind_pixel : ImageKind → Image → ℕ → ℕ → ℕ → ℕ → List (Option (List Call))
unfolding gray_pixel nrgba_pixel gray_at nrgba_at
kind_pixel gray img mdc1 mdc2 x y = gray_pixel mdc2 x y (gray_at img x y) ∷ []
kind_pixel nrgba img mdc1 mdc2 x y = nrgba_pixel mdc1 mdc2 x y (nrgba_at img x y) ∷ []
kind_pixel _ img mdc1 mdc2 x y = []

-- The two loops of the `switch`, over the rows and in each over its pixels.
unfoldable pub pixels : Image → ℕ → ℕ → List (Option (List Call))
unfolding kind_pixel for_each
pixels img mdc1 mdc2 =
    for_each 0 img.height (λ y. for_each 0 img.width (λ x. kind_pixel img.kind img mdc1 mdc2 x y))

module _ (g : Gdi) where
  indirect : Bool → ℕ → Loaded
  indirect true h = icon h
  indirect false h = failed

  -- Behind the loops: the bitmaps are taken out of the device contexts, and the icon is made.
  painted : ℕ → ℕ → ℕ → ℕ → ℕ → ℕ → Bool × Log → Loaded × Log
  unfolding perform indirect
  painted mdc1 obj1 mdc2 obj2 mask bm (false, l) = (panicked, l)
  painted mdc1 obj1 mdc2 obj2 mask bm (true, l) =
      let l' = perform g (deselect mdc2 obj2) (perform g (deselect mdc1 obj1) l) in
      let c = create_icon_indirect mask bm in
      (indirect (g.succeeds l' c) (length l'), perform g c l')

  -- `LoadImage` on an image that `Convert` returned.
  unfoldable pub create_icon : Image → Log → Loaded × Log
  unfolding bracket paint pixels painted
  create_icon img l =
      bracket g get_dc release_dc
        (λ dc. bracket g (create_dc dc) delete_dc (λ mdc1.
          bracket g (create_bitmap dc img.width img.height) delete_object (λ mask.
            bracket g (select mdc1 mask) (deselect mdc1) (λ obj1.
              bracket g (create_dc dc) delete_dc (λ mdc2.
                bracket g (create_bitmap dc img.width img.height) delete_object (λ bm.
                  bracket g (select mdc2 bm) (deselect mdc2) (λ obj2 k.
                    painted mdc1 obj1 mdc2 obj2 mask bm (paint g (pixels img mdc1 mdc2) k))))))))
        l

-- What `LoadIcon` asks: `GetModuleHandle` of the program, and `LoadImage` of a numbered resource.
pub record Module : Type 0 where
  pub get_module_handle : Option ℕ
  pub load_resource : ℕ → ℕ → Option ℕ

-- `LoadIcon`; `none` is the error of a call.
unfoldable pub load_icon : Module → ℕ → Option ℕ
load_icon c i = elim c.get_module_handle [ none ↦ none | some inst ↦ c.load_resource inst i ]
