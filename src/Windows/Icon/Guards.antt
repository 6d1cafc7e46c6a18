-- ===== src/Windows/Icon/Guards.antt =====
-- What `Notify` hands to the system, and for which versions of Windows.
use go_notify.Base.{
  ◌≡◌, ◌≢◌, ◌⊎◌, inl, inr, refl, sym, ap, ◌∙◌, Bool, true, false, List, [], ◌∷◌, ◌++◌, Option, none,
  some, ◌==◌, if◌then◌else◌, append-nil, append_assoc,
}
use go_notify.Windows.Data.{Data, nim_add, nim_modify, nim_set_version, Call, System}
use go_notify.Windows.Icon.{
  Fault, call_error, Checked, fine, fault, NotifyIcon, Notification, notify_data, shell_notify_icon,
  unless_zero, after_add, show_by, add, modify_with, show, prepare, prepared, notify,
}
use go_notify.Windows.Icon.Balloon.{Balloon, notify_data-Balloon}

-- The calls that show the data, and what they say.
abbrev pub Shows : System → Data → NotifyIcon → Option Fault → NotifyIcon → Type 0
Shows c e before f after =
    ((before.added ≡ true)
      × (after.calls ≡ before.calls ++ record { message = nim_modify; icon_data = e } ∷ []))
    ⊎ ((before.added ≡ false)
        × (f ≡ some call_error)
        × (after.added ≡ false)
        × (after.calls ≡ before.calls ++ record { message = nim_add; icon_data = e } ∷ []))
    ⊎ ((before.added ≡ false)
        × (f ≡ none)
        × (after.added ≡ true)
        × (after.calls
            ≡ before.calls
              ++ record { message = nim_add; icon_data = e }
                ∷ (if e.version == 0
                    then []
                    else record { message = nim_set_version; icon_data = e } ∷ [])))

unless_zero-calls :
    (b : Bool) (c : System) (e : Data) (ni : NotifyIcon)
    → (unless_zero b c e ni).calls
      ≡ ni.calls ++ (if b then [] else record { message = nim_set_version; icon_data = e } ∷ [])
unfolding unless_zero shell_notify_icon
unless_zero-calls true c e ni = sym (append-nil ni.calls)
unless_zero-calls false c e ni = refl

after_add-Shows :
    (b : Bool) (c : System) (e : Data) (ni after : NotifyIcon)
    → ni.added ≡ false
    → after.added ≡ false
    → after.calls ≡ ni.calls ++ record { message = nim_add; icon_data = e } ∷ []
    → Shows c e ni (after_add b c e after).0 (after_add b c e after).1
unfolding after_add
after_add-Shows false c e ni after off still calls = inr (inl (off, refl, still, calls))
after_add-Shows true c e ni after off still calls =
    let added_call : Call = record { message = nim_add; icon_data = e } in
    let set : List Call =
      if e.version == 0 then [] else record { message = nim_set_version; icon_data = e } ∷ [] in
    inr (
      inr (
        off,
        refl,
        refl,
        unless_zero-calls (e.version == 0) c e after
            ∙ ap (λ s. s ++ set) calls
            ∙ append_assoc ni.calls (added_call ∷ []) set,
      ))

show_by-Shows :
    (b : Bool) (c : System) (e : Data) (ni : NotifyIcon)
    → ni.added ≡ b
    → Shows c e ni (show_by b c ni e).0 (show_by b c ni e).1
unfolding show_by add modify_with shell_notify_icon
show_by-Shows true c e ni on = inl (on, refl)
show_by-Shows false c e ni off = after_add-Shows _ c e ni _ off off refl

show-Shows :
    (c : System) (e : Data) (ni : NotifyIcon)
    → Shows c e ni (show c ni (fine e)).0 (show c ni (fine e)).1
unfolding show
show-Shows c e ni = show_by-Shows ni.added c e ni refl

-- Nothing is shown, and what was known before is kept.
abbrev pub Refused : NotifyIcon → Option Fault → NotifyIcon → Type 0
Refused before f after = (f ≢ none) × (after.calls ≡ before.calls) × (after.added ≡ before.added)

prepare-same :
    (c : System) (ni : NotifyIcon)
    → ((prepare c ni).1.calls ≡ ni.calls) × ((prepare c ni).1.added ≡ ni.added)
unfolding prepare
prepare-same c ni = (refl, refl)

shown :
    (c : System) (n : Notification) (ni : NotifyIcon) (m : Checked Data)
    → notify_data c n ni.icon_data ≡ m
    → Refused ni (show c ni m).0 (show c ni m).1
      ⊎ ((e : Data) × Balloon c n ni.icon_data e × Shows c e ni (show c ni m).0 (show c ni m).1)
unfolding show
shown c n ni (fault f) h = inl ((λ g. cc), refl, refl)
shown c n ni (fine e) h = inr (e, notify_data-Balloon c n ni.icon_data e h, show-Shows c e ni)

prepared_shown :
    (c : System) (n : Notification) (ni : NotifyIcon) (r : Option Fault × NotifyIcon)
    → r.1.calls ≡ ni.calls
    → r.1.added ≡ ni.added
    → let out = prepared r (λ p. show c p (notify_data c n p.icon_data)) in
      Refused ni out.0 out.1
      ⊎ ((e : Data) × Balloon c n r.1.icon_data e × Shows c e r.1 out.0 out.1)
unfolding prepared
prepared_shown c n ni (some f, p) same still = inl ((λ g. cc), same, still)
prepared_shown c n ni (none, p) same still = elim (shown c n p _ refl) [
  | inl (fails, calls, is_added) ↦ inl (fails, calls ∙ same, is_added ∙ still)
  | inr shows ↦ inr shows
]

-- Whatever the notification and the state of the icon: `Notify` fails and calls nothing, or the type
-- of the notification has a constant and it calls the system with the data of the icon as `prepare`
-- leaves them, all but these: the title, the body and the flag for them, the type of the notification
-- by OR, an icon of the caller's only with that type and on Windows Vista or later, that type only on
-- Windows XP SP2 or later, and no sound only on Windows XP or later. It calls by
-- NIM_MODIFY if the icon is added, and else by NIM_ADD, after which it is added unless the call
-- fails, with NIM_SETVERSION next if there is a version to set.
pub notify-Balloon :
    (c : System) (n : Notification) (ni : NotifyIcon)
    → Refused ni (notify c n ni).0 (notify c n ni).1
      ⊎ ((e : Data) × Balloon c n (prepare c ni).1.icon_data e
          × Shows c e (prepare c ni).1 (notify c n ni).0 (notify c n ni).1)
unfolding notify
notify-Balloon c n ni =
    let (calls, still) = prepare-same c ni in prepared_shown c n ni (prepare c ni) calls still
