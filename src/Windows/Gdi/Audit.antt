-- ===== src/Windows/Gdi/Audit.antt =====
-- An audit of the calls of GDI: what is held after them, or `none` where one breaks the rules that
-- the system documents for device contexts and bitmaps.
use go_notify.Base.{
  ℕ, suc, Bool, true, false, not, ◌&&◌, ◌||◌, List, [], ◌∷◌, Option, none, some, if◌then◌else◌,
  ◌==◌,
}
use go_notify.Windows.Gdi.{
  Call, get_dc, create_dc, create_bitmap, select, deselect, set_pixel, create_icon_indirect,
  delete_object, delete_dc, release_dc, Log,
}

-- `selected` pairs a device context with the bitmap in it.
pub record Held : Type 0 where
  pub dcs : List ℕ
  pub bitmaps : List ℕ
  pub selected : List (ℕ × ℕ)

abbrev pub nothing : Held
nothing = record { dcs = []; bitmaps = []; selected = [] }

abbrev has : ℕ → List ℕ → Bool
has n [] = false
has n (x ∷ xs) = x == n || has n xs

abbrev without : ℕ → List ℕ → List ℕ
without n [] = []
without n (x ∷ xs) = if x == n then xs else x ∷ without n xs

abbrev is_used : ℕ → List (ℕ × ℕ) → Bool
is_used dc [] = false
is_used dc ((d, b) ∷ s) = d == dc || is_used dc s

abbrev is_selected : ℕ → List (ℕ × ℕ) → Bool
is_selected bm [] = false
is_selected bm ((d, b) ∷ s) = b == bm || is_selected bm s

abbrev emptied : ℕ → List (ℕ × ℕ) → List (ℕ × ℕ)
emptied dc [] = []
emptied dc ((d, b) ∷ s) = if d == dc then s else (d, b) ∷ emptied dc s

abbrev where_ok : Bool → Held → Option Held
where_ok true h = some h
where_ok false h = none

-- A call of a number. A device context is used while it is held, a bitmap is selected into one
-- device context at a time and is neither deleted nor made into an icon while it is, and a device
-- context is given back with its first object in it. A call that fails changes nothing.
unfoldable pub audit_call : ℕ → Call → Bool → Held → Option Held
audit_call n get_dc ok h = some (if ok then record h { dcs = n ∷ h.dcs } else h)
audit_call n (create_dc dc) ok h =
    where_ok (has dc h.dcs) (if ok then record h { dcs = n ∷ h.dcs } else h)
audit_call n (create_bitmap dc x y) ok h =
    where_ok (has dc h.dcs) (if ok then record h { bitmaps = n ∷ h.bitmaps } else h)
audit_call n (select dc bm) ok h =
    where_ok
      (has dc h.dcs
        && has bm h.bitmaps
        && not (is_used dc h.selected)
        && not (is_selected bm h.selected))
      (if ok then record h { selected = (dc, bm) ∷ h.selected } else h)
audit_call n (deselect dc obj) ok h =
    where_ok (has dc h.dcs) (if ok then record h { selected = emptied dc h.selected } else h)
audit_call n (set_pixel dc x y c) ok h = where_ok (is_used dc h.selected) h
audit_call n (create_icon_indirect mask bm) ok h =
    where_ok
      (has mask h.bitmaps
        && has bm h.bitmaps
        && not (is_selected mask h.selected)
        && not (is_selected bm h.selected))
      h
audit_call n (delete_object bm) ok h =
    where_ok (has bm h.bitmaps && not (is_selected bm h.selected))
      (if ok then record h { bitmaps = without bm h.bitmaps } else h)
audit_call n (delete_dc dc) ok h =
    where_ok (has dc h.dcs && not (is_used dc h.selected))
      (if ok then record h { dcs = without dc h.dcs } else h)
audit_call n (release_dc dc) ok h =
    where_ok (has dc h.dcs && not (is_used dc h.selected))
      (if ok then record h { dcs = without dc h.dcs } else h)

unfoldable pub and_audit : ℕ → Log → Option Held → Option Held
unfolding audit_call
and_audit n [] h = h
and_audit n ((c, ok) ∷ l) none = none
and_audit n ((c, ok) ∷ l) (some h) = and_audit (suc n) l (audit_call n c ok h)

unfoldable pub audit : Log → Option Held
unfolding and_audit
audit l = and_audit 0 l (some nothing)
