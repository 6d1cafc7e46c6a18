-- ===== src/Windows/Gdi/Colors.antt =====
-- The colors that the calls of `LoadImage` give to the pixels.
use go_notify.Base.{
  ℕ, zero, suc, ◌+◌, ◌≤◌, ◌<◌, ◌≡◌, ◌≢◌, ◌⊎◌, inl, inr, refl, sym, ap, ◌∙◌, subst, Bool, true,
  false, ◌&&◌, List, [], ◌∷◌, ◌++◌, length, Option, none, some, arith, Option-cases, if◌then◌else◌,
  ◌==◌,
}
use go_notify.Go.Image.{Image, ImageKind, gray, nrgba}
use go_notify.Windows.Gdi.{
  Call, get_dc, create_dc, create_bitmap, select, deselect, set_pixel, create_icon_indirect,
  delete_object, delete_dc, release_dc, Log, Gdi, Loaded, icon, perform, finally, bracketed,
  bracket, perform_all, paint, pixels, painted, create_icon, for_each, kind_pixel, gray_pixel,
  nrgba_pixel, gray_at, nrgba_at,
}
use go_notify.Windows.Gdi.Released.{prepared}

-- The color that a call gives to a pixel of what is selected into a device context.
unfoldable pub call_color : ℕ → ℕ → ℕ → Call → Option ℕ → Option ℕ
call_color d x y (set_pixel e u v c) o = if e == d && u == x && v == y then some c else o
call_color d x y _ o = o

-- The last color that a pixel was given, by a call that succeeded.
unfoldable last_color : ℕ → ℕ → ℕ → Log → Option ℕ → Option ℕ
unfolding call_color
last_color d x y [] o = o
last_color d x y ((c, ok) ∷ l) o = last_color d x y l (if ok then call_color d x y c o else o)

unfoldable pub color_of : ℕ → ℕ → ℕ → Log → Option ℕ
unfolding last_color
color_of d x y l = last_color d x y l none

-- The calls of SetPixel succeed.
abbrev pub Paints : Gdi → Type 0
Paints g = (l : Log) (d x y v : ℕ) → g.succeeds l (set_pixel d x y v) ≡ true

if_same : {A : Type 0} (b : Bool) (v o : A) → v ≡ o → (if b then v else o) ≡ o
if_same true v o h = h
if_same false v o h = refl

call_color-done :
    (g : Gdi) (l : Log) (d x y : ℕ) (c : Call) (o : Option ℕ)
    → Paints g
    → (if g.succeeds l c then call_color d x y c o else o) ≡ call_color d x y c o
unfolding call_color
call_color-done g l d x y (set_pixel e u v c) o p = rw (p l e u v c) refl
call_color-done g l d x y _ o p = if_same (g.succeeds l _) o o refl

pub same_or_later : (a b : ℕ) → a ≤ b → (a ≡ b) ⊎ (suc a ≤ b)
same_or_later a b h = ground arith

module _ (d x y : ℕ) where
  unfoldable pub calls_color : List Call → Option ℕ → Option ℕ
  calls_color [] o = o
  calls_color (c ∷ cs) o = calls_color cs (call_color d x y c o)

  unfoldable pub pixels_color : List (Option (List Call)) → Option ℕ → Option ℕ
  unfolding calls_color
  pixels_color [] o = o
  pixels_color (none ∷ ps) o = pixels_color ps o
  pixels_color (some cs ∷ ps) o = pixels_color ps (calls_color cs o)

  last_color-snoc :
      (l : Log) (c : Call) (ok : Bool) (o : Option ℕ)
      → last_color d x y (l ++ (c, ok) ∷ []) o
        ≡ (if ok then call_color d x y c (last_color d x y l o) else last_color d x y l o)
  unfolding last_color
  last_color-snoc [] c ok o = refl
  last_color-snoc ((e, k) ∷ l) c ok o = last_color-snoc l c ok _

  perform_all-color :
      (g : Gdi) (p : Paints g) (cs : List Call) (l : Log)
      → color_of d x y (perform_all g cs l) ≡ calls_color cs (color_of d x y l)
  unfolding perform_all perform calls_color color_of
  perform_all-color g p [] l = refl
  perform_all-color g p (c ∷ cs) l =
      perform_all-color g p cs _
      ∙ ap (calls_color cs) (last_color-snoc l c _ none ∙ call_color-done g l d x y c _ p)

  paint-color :
      (g : Gdi) (p : Paints g) (ps : List (Option (List Call))) (l : Log)
      → (paint g ps l).0 ≡ true
      → color_of d x y (paint g ps l).1 ≡ pixels_color ps (color_of d x y l)
  unfolding paint pixels_color
  paint-color g p [] l e = refl
  paint-color g p (none ∷ ps) l e = cc
  paint-color g p (some cs ∷ ps) l e =
      paint-color g p ps _ e ∙ ap (pixels_color ps) (perform_all-color g p cs l)

  pixels_color-append :
      (ps qs : List (Option (List Call))) (o : Option ℕ)
      → pixels_color (ps ++ qs) o ≡ pixels_color qs (pixels_color ps o)
  unfolding pixels_color
  pixels_color-append [] qs o = refl
  pixels_color-append (none ∷ ps) qs o = pixels_color-append ps qs o
  pixels_color-append (some cs ∷ ps) qs o = pixels_color-append ps qs _

  abbrev pub Leaves : List (Option (List Call)) → Type 0
  Leaves ps = (o : Option ℕ) → pixels_color ps o ≡ o

  abbrev pub Gives : List (Option (List Call)) → Option ℕ → Type 0
  Gives ps v = (o : Option ℕ) → pixels_color ps o ≡ v

  for_each-Leaves :
      (from n : ℕ) (f : ℕ → List (Option (List Call)))
      → ((i : ℕ) → from ≤ i → Leaves (f i))
      → Leaves (for_each from n f)
  unfolding for_each pixels_color
  for_each-Leaves from zero f h o = refl
  for_each-Leaves from (suc n) f h o =
      pixels_color-append (f from) _ o
      ∙ for_each-Leaves (suc from) n f (λ i le. h i (omega arith)) _
      ∙ h from (omega arith) o

  -- A loop whose rounds but one leave the pixel as it is.
  for_each-Gives :
      (from n i : ℕ) (f : ℕ → List (Option (List Call))) (v : Option ℕ)
      → from ≤ i
      → i < from + n
      → ((j : ℕ) → j ≢ i → Leaves (f j))
      → Gives (f i) v
      → Gives (for_each from n f) v
  unfolding for_each
  for_each-Gives from zero i f v a b h k o = absurd (omega arith)
  for_each-Gives from (suc n) i f v a b h k o = elim (same_or_later from i a) [
    | inl e ↦
        pixels_color-append (f from) _ o
        ∙ for_each-Leaves (suc from) n f (λ j le. h j (λ q. omega (arith, e, le, q))) _
        ∙ subst (λ j. pixels_color (f j) o ≡ v) (sym e) (k o)
    | inr later ↦
        pixels_color-append (f from) _ o
        ∙ for_each-Gives (suc from) n i f v later (omega arith) h k _
  ]

  set_pixel-other :
      (e u v c : ℕ) (o : Option ℕ) → (u ≢ x) ⊎ (v ≢ y) → call_color d x y (set_pixel e u v c) o ≡ o
  unfolding call_color
  set_pixel-other e u v c o h = ground arith

  pub set_pixel-here : (c : ℕ) (o : Option ℕ) → call_color d x y (set_pixel d x y c) o ≡ some c
  unfolding call_color
  set_pixel-here c o = ground arith

  pub set_pixel-elsewhere :
      (e u v c : ℕ) (o : Option ℕ) → e ≢ d → call_color d x y (set_pixel e u v c) o ≡ o
  unfolding call_color
  set_pixel-elsewhere e u v c o h = ground arith

  kind_pixel-Leaves :
      (k : ImageKind) (img : Image) (u v : ℕ)
      → (u ≢ x) ⊎ (v ≢ y)
      → Leaves (kind_pixel k img 1 4 u v)
  unfolding kind_pixel gray_pixel nrgba_pixel pixels_color calls_color
  kind_pixel-Leaves gray img u v h o = elim (Option-cases (gray_at img u v)) [
    | inl e ↦ rw e refl
    | inr (c, e) ↦ rw e (set_pixel-other 4 u v _ o h)
  ]
  kind_pixel-Leaves nrgba img u v h o = elim (Option-cases (nrgba_at img u v)) [
    | inl e ↦ rw e refl
    | inr (c, e) ↦ rw e (set_pixel-other 4 u v _ _ h ∙ set_pixel-other 1 u v _ o h)
  ]
  kind_pixel-Leaves _ img u v h o = refl

  -- The loops give a pixel inside of the bounds what its own round gives it.
  pub pixels-Gives :
      (img : Image) (c : Option ℕ)
      → x < img.width
      → y < img.height
      → Gives (kind_pixel img.kind img 1 4 x y) c
      → Gives (pixels img 1 4) c
  unfolding pixels
  pixels-Gives img c hx hy h =
      for_each-Gives 0 img.height y _ c (omega arith) (omega (arith, hy))
        (λ j ne.
          for_each-Leaves 0 img.width _ (λ i le. kind_pixel-Leaves img.kind img i j (inr ne)))
        (for_each-Gives 0 img.width x _ c (omega arith) (omega (arith, hx))
          (λ i ne. kind_pixel-Leaves img.kind img i y (inl ne)) h)

  pub pixels-Leaves :
      (img : Image)
      → ((u v : ℕ) → Leaves (kind_pixel img.kind img 1 4 u v))
      → Leaves (pixels img 1 4)
  unfolding pixels
  pixels-Leaves img h =
      for_each-Leaves 0 img.height _ (λ j le. for_each-Leaves 0 img.width _ (λ i le'. h i j))

  -- The steps that follow the loops.
  module _ (g : Gdi) (paints : Paints g) where
    perform-color :
        (c : Call) (l : Log)
        → ((o : Option ℕ) → call_color d x y c o ≡ o)
        → color_of d x y (perform g c l) ≡ color_of d x y l
    unfolding perform color_of
    perform-color c l h =
        last_color-snoc l c (g.succeeds l c) none ∙ if_same (g.succeeds l c) _ _ (h _)

    bracketed-color :
        (b : Bool) (c : Call) (undo : ℕ → Call) (body : ℕ → Log → Loaded × Log) (l : Log) (i : ℕ)
        (r : Option ℕ)
        → ((n : ℕ) (o : Option ℕ) → call_color d x y (undo n) o ≡ o)
        → (bracketed g b c undo body l).0 ≡ icon i
        → ((body (length l) (l ++ (c, true) ∷ [])).0 ≡ icon i
            → color_of d x y (body (length l) (l ++ (c, true) ∷ [])).1 ≡ r)
        → color_of d x y (bracketed g b c undo body l).1 ≡ r
    unfolding bracketed finally
    bracketed-color false c undo body l i r u e h = cc
    bracketed-color true c undo body l i r u e h = perform-color (undo (length l)) _ (u _) ∙ h e

    bracket-color :
        (c : Call) (undo : ℕ → Call) (body : ℕ → Log → Loaded × Log) (l : Log) (i : ℕ)
        (r : Option ℕ)
        → ((n : ℕ) (o : Option ℕ) → call_color d x y (undo n) o ≡ o)
        → (bracket g c undo body l).0 ≡ icon i
        → ((body (length l) (l ++ (c, true) ∷ [])).0 ≡ icon i
            → color_of d x y (body (length l) (l ++ (c, true) ∷ [])).1 ≡ r)
        → color_of d x y (bracket g c undo body l).1 ≡ r
    unfolding bracket
    bracket-color c undo body l = bracketed-color (g.succeeds l c) c undo body l

    painted-color :
        (p : Bool × Log) (i : ℕ) (r : Option ℕ)
        → (painted g 1 3 4 6 2 5 p).0 ≡ icon i
        → (p.0 ≡ true → color_of d x y p.1 ≡ r)
        → color_of d x y (painted g 1 3 4 6 2 5 p).1 ≡ r
    unfolding painted call_color
    painted-color (false, l) i r e h = cc
    painted-color (true, l) i r e h =
        let l1 = perform g (deselect 1 3) l in
        let l2 = perform g (deselect 4 6) l1 in
        perform-color (create_icon_indirect 2 5) l2 (λ o. refl)
        ∙ perform-color (deselect 4 6) l1 (λ o. refl)
        ∙ perform-color (deselect 1 3) l (λ o. refl)
        ∙ h refl

    pub create_icon-color :
        (img : Image) (i : ℕ) (r : Option ℕ)
        → (create_icon g img []).0 ≡ icon i
        → pixels_color (pixels img 1 4) none ≡ r
        → color_of d x y (create_icon g img []).1 ≡ r
    unfolding create_icon call_color color_of last_color
    create_icon-color img i r e h =
        bracket-color get_dc release_dc _ _ i r (λ n o. refl) e
          (λ e1.
            bracket-color (create_dc 0) delete_dc _ _ i r (λ n o. refl) e1
              (λ e2.
                bracket-color (create_bitmap 0 img.width img.height) delete_object _ _ i r
                  (λ n o. refl) e2
                  (λ e3.
                    bracket-color (select 1 2) (deselect 1) _ _ i r (λ n o. refl) e3
                      (λ e4.
                        bracket-color (create_dc 0) delete_dc _ _ i r (λ n o. refl) e4
                          (λ e5.
                            bracket-color (create_bitmap 0 img.width img.height) delete_object _ _ i
                              r (λ n o. refl) e5
                              (λ e6.
                                bracket-color (select 4 5) (deselect 4) _ _ i r (λ n o. refl) e6
                                  (λ e7.
                                    (painted-color (paint g (pixels img 1 4) (prepared img)) i r e7
                                      (λ t.
                                        paint-color g paints (pixels img 1 4) (prepared img) t
                                        ∙ h)))))))))
