-- ===== src/Windows/Gdi/Released.antt =====
-- Whatever of its steps fails, `LoadImage` gives back all that it took.
use go_notify.Base.{ℕ, ◌≡◌, ◌⊎◌, Bool, true, List, [], ◌∷◌, Option, none, some}
use go_notify.Go.Image.{Image}
use go_notify.Windows.Gdi.{
  Call, get_dc, create_dc, create_bitmap, select, deselect, delete_object, delete_dc, release_dc,
  Log, Gdi,
}
use go_notify.Windows.Gdi.Audit.{Held, audit_call, audit}

-- What is held stays as it is.
abbrev Keeps : Held → Call → Type 0
Keeps h c = (k : ℕ) (ok : Bool) → audit_call k c ok h ≡ some h

abbrev AllKeep : Held → List Call → Type 0
AllKeep h [] = Unit
AllKeep h (c ∷ cs) = Keeps h c × AllKeep h cs

abbrev PixelsKeep : Held → List (Option (List Call)) → Type 0
PixelsKeep h [] = Unit
PixelsKeep h (none ∷ ps) = PixelsKeep h ps
PixelsKeep h (some cs ∷ ps) = AllKeep h cs × PixelsKeep h ps

-- Both bitmaps are selected.
abbrev full : Held
full = record { dcs = 4 ∷ 1 ∷ 0 ∷ []; bitmaps = 5 ∷ 2 ∷ []; selected = (4, 5) ∷ (1, 2) ∷ [] }

-- The calls before the loops, where none fails.
abbrev pub prepared : Image → Log
prepared img =
    (get_dc, true)
    ∷ (create_dc 0, true)
    ∷ (create_bitmap 0 img.width img.height, true)
    ∷ (select 1 2, true)
    ∷ (create_dc 0, true)
    ∷ (create_bitmap 0 img.width img.height, true)
    ∷ (select 4 5, true)
    ∷ []

-- The calls that give something back, whose results LoadImage does not look at.
abbrev pub Undoes : Call → Type 0
Undoes (deselect dc obj) = Unit
Undoes (delete_object bm) = Unit
Undoes (delete_dc dc) = Unit
Undoes (release_dc dc) = Unit
Undoes _ = ⊥

abbrev pub GivesBack : Gdi → Type 0
GivesBack g = (l : Log) (c : Call) → Undoes c → g.succeeds l c ≡ true

-- The body of a bracket ends with what it was given, or with the bitmaps taken out already.
abbrev Ends : Held → Held → Log → Type 0
Ends h k l = (audit l ≡ some h) ⊎ (audit l ≡ some k)

module _ (g : Gdi) (back : GivesBack g) where
  -- What is held after so many steps.
  abbrev held : List ℕ → List ℕ → List (ℕ × ℕ) → Held
  held d b s = record { dcs = d; bitmaps = b; selected = s }
