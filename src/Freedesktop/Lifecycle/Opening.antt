-- ===== src/Freedesktop/Lifecycle/Opening.antt =====
-- What `New` does on the connection.
use go_notify.Base.{
  ◌≡◌, refl, ap, append_assoc, ◌∙◌, [], ◌∷◌, ◌++◌, Option, none, some, Bytes, codes,
}
use go_notify.Freedesktop.Types.{notification_closed, action_invoked}
use go_notify.Freedesktop.Bus.{
  Action, call, bus, string_arg, signal_channel, History, Error, Bus, invoke,
}
use go_notify.Freedesktop.Lifecycle.{
  match_rule, add_match_method, remove_match_method, add_match, call_rule, after_match, add_matches,
  Created, refused, created, connected, new, remove_matches, remove_match,
}

-- The rules, written out.
abbrev pub closed_rule : Bytes
closed_rule =
    codes "type='signal',interface='org.freedesktop.Notifications',member='NotificationClosed'"

abbrev pub invoked_rule : Bytes
invoked_rule =
    codes "type='signal',interface='org.freedesktop.Notifications',member='ActionInvoked'"

abbrev pub on_rule : Bytes → Bytes → Action
on_rule m r = call (record { object = bus; method = m; args = string_arg r ∷ [] })

-- What is done on the connection of a client before it is returned, and when its loop ends.
abbrev pub opening : History
opening =
    signal_channel
    ∷ on_rule add_match_method closed_rule
    ∷ on_rule add_match_method invoked_rule
    ∷ []

abbrev pub removals : History
removals = on_rule remove_match_method closed_rule ∷ on_rule remove_match_method invoked_rule ∷ []

after_match-created :
    (o : Option (Option Error × History)) (k : History → Created) (h : History)
    → after_match o k ≡ created h
    → (h' : History) × (o ≡ some (none, h')) × (k h' ≡ created h)
unfolding after_match
after_match-created none k h e = cc
after_match-created (some (some x, g)) k h e = cc
after_match-created (some (none, g)) k h e = (g, refl, e)

add_match-closed :
    (b : Bus) (h : History)
    → (x : Option Error) × (add_match b notification_closed h
        ≡ some (x, h ++ on_rule add_match_method closed_rule ∷ []))
unfolding add_match call_rule invoke match_rule
add_match-closed b h = (_, refl)

add_match-invoked :
    (b : Bus) (h : History)
    → (x : Option Error) × (add_match b action_invoked h
        ≡ some (x, h ++ on_rule add_match_method invoked_rule ∷ []))
unfolding add_match call_rule invoke match_rule
add_match-invoked b h = (_, refl)

connected-opening :
    (b : Bus) (o : Option Error) (h : History) → connected b o ≡ created h → h ≡ opening
unfolding connected add_matches
connected-opening b (some x) h f = cc
connected-opening b none h f =
    let (g, a, f') =
      after_match-created (add_match b notification_closed (signal_channel ∷ [])) _ h f in
    let (g', a', f'') = after_match-created (add_match b action_invoked g) _ h f' in
    let (x, c) = add_match-closed b (signal_channel ∷ []) in
    let (x', c') = add_match-invoked b g in
    let e : g ≡ signal_channel ∷ on_rule add_match_method closed_rule ∷ [] = cc in
    let e' : g' ≡ g ++ on_rule add_match_method invoked_rule ∷ [] = cc in
    let e'' : h ≡ g' = cc in e'' ∙ e' ∙ rw e refl

pub new-opening : (b : Bus) (h : History) → new b ≡ created h → h ≡ opening
unfolding new
new-opening b h e = connected-opening b b.session_bus h e

-- The error of a call, by what was done before it.
abbrev error_of : Bus → History → Bytes → Option Error
error_of b h r =
    (b.answer h (record { object = bus; method = add_match_method; args = string_arg r ∷ [] })).err

-- The channel is registered and the first match added.
abbrev pub half_open : History
half_open = signal_channel ∷ on_rule add_match_method closed_rule ∷ []

-- All that `New` may come to.
abbrev pub NewCases : Bus → Option Error → Option Error → Option Error → Created → Type 0
NewCases b (some e) f g c = c ≡ refused e []
NewCases b none (some e) g c = c ≡ refused e half_open
NewCases b none none (some e) c = c ≡ refused e opening
NewCases b none none none c = c ≡ created opening

new_cases :
    (b : Bus) (o f g : Option Error)
    → error_of b (signal_channel ∷ []) closed_rule ≡ f
    → error_of b half_open invoked_rule ≡ g
    → NewCases b o f g (connected b o)
unfolding connected add_matches add_match call_rule match_rule invoke after_match
new_cases b (some e) f g x y = refl
new_cases b none (some e) g x y = rw x refl
new_cases b none none (some e) x y = rw (x, after_match, y) refl
new_cases b none none none x y = rw (x, after_match, y) refl

-- Without a session bus `New` returns its error. Otherwise it registers the channel and adds the
-- matches of the two signals, in that order; the first error of the bus is returned, and then the
-- channel stays registered, the matches that were added stay, and the connection is not closed.
-- Only without an error is there a client. It never panics.
pub new-NewCases :
    (b : Bus)
    → NewCases b b.session_bus
        (error_of b (signal_channel ∷ []) closed_rule)
        (error_of b half_open invoked_rule)
        (new b)
unfolding new
new-NewCases b = new_cases b b.session_bus _ _ refl refl

pub remove_matches-removals :
    (b : Bus) (h : History)
    → remove_matches b (notification_closed ∷ action_invoked ∷ []) h ≡ some (h ++ removals)
unfolding remove_matches remove_match call_rule invoke match_rule
remove_matches-removals b h =
    ap some (append_assoc h (on_rule remove_match_method closed_rule ∷ []) _)
