-- ===== src/Freedesktop/Client/Delivery.antt =====
-- What `Client.Notify` does on the bus.
use go_notify.Base.{
  ℕ, ◌≡◌, ◌≢◌, refl, ◌⊎◌, inl, inr, List, [], ◌∷◌, ◌++◌, Option, none, some, Option-cases, Bytes,
}
use go_notify.Base.Int.{ℤ}
use go_notify.Go.Scan.{scan_version}
use go_notify.Freedesktop.Types.{Any}
use go_notify.Freedesktop.Bus.{
  Action, call, Call, server, uint32_arg, int32_arg, string_arg, strings_arg, variants_arg, History,
  ServerInfo, Error, Answer, Bus, invoke,
}
use go_notify.Freedesktop.Notification.Names.{OwnNames}
use go_notify.Freedesktop.Notifier.{Notification}
use go_notify.Freedesktop.Client.Names.{AllTyped, OneUntyped, AreSent, renamed-AreSent}
use go_notify.Freedesktop.Client.{
  Failure, dbus, scan, Outcome, returned, panicked, sent_as, renamed, notify, notify_with,
  call_notify, informed, versioned, failed, stored, get_server_information,
  get_server_information_method, notify_method,
}

-- The two calls that a notification may take.
abbrev pub asks_version : Action
asks_version = call (record { object = server; method = get_server_information_method; args = [] })

abbrev pub notifies : Notification → List (Bytes × Any) → Action
notifies n hints = call (record {
  object = server;
  method = notify_method;
  args =
      string_arg n.name
      ∷ uint32_arg n.id
      ∷ string_arg n.icon
      ∷ string_arg n.summary
      ∷ string_arg n.body
      ∷ strings_arg n.actions
      ∷ variants_arg hints
      ∷ int32_arg n.timeout
      ∷ [];
})

abbrev pub version_of : Bus → History → ServerInfo × Option Error
version_of b h = (get_server_information b h).0

abbrev FailedAs : Option Error → Option Failure → Type 0
FailedAs none f = f ≡ none
FailedAs (some e) f = f ≡ some (dbus e)

-- The result, read off the answer: an error of the call, or what `Store` makes of its body.
abbrev pub IsAnswered : Bus → Answer → ℕ × Option Failure → Type 0
IsAnswered b a r =
    ((e : Error) × (a.err ≡ some e) × (r ≡ (0, some (dbus e))))
    ⊎ ((a.err ≡ none) × (r.0 ≡ (b.store_id a.body).0) × FailedAs (b.store_id a.body).1 r.1)

-- The notification with these hints is sent, and what is returned is the server's answer.
abbrev pub IsSent : Bus → Notification → List (Bytes × Any) → History → Outcome × History → Type 0
IsSent b n hints h (o, h') =
    (h' ≡ h ++ notifies n hints ∷ [])
    × (c : Call) × (call c ≡ notifies n hints)
    × (id : ℕ) × (f : Option Failure) × (o ≡ returned id f)
    × IsAnswered b (b.answer h c) (id, f)

-- The version of the server is not to be had, and that is the error.
abbrev pub IsUnversioned : ServerInfo × Option Error → Outcome → Type 0
IsUnversioned (si, some e) o = o ≡ returned 0 (some (dbus e))
IsUnversioned (si, none) o = (scan_version si.spec_version ≡ none) × (o ≡ returned 0 (some scan))

abbrev pub IsVersioned : ServerInfo × Option Error → ℤ → ℤ → Type 0
IsVersioned r major minor = (r.1 ≡ none) × (scan_version r.0.spec_version ≡ some (major, minor))

abbrev pub Delivers : Bus → Notification → History → Outcome × History → Type 0
Delivers b n h (r, h') =
    ((n.hints ≡ []) × IsSent b n [] h (r, h'))
    ⊎ ((n.hints ≢ []) × (h' ≡ h ++ asks_version ∷ []) × IsUnversioned (version_of b h) r)
    ⊎ ((n.hints ≢ [])
        × (major : ℤ) × (minor : ℤ) × IsVersioned (version_of b h) major minor
        × ((OneUntyped b n.hints × (r ≡ panicked) × (h' ≡ h ++ asks_version ∷ []))
            ⊎ (AllTyped b n.hints
                × (sent : List (Bytes × Any)) × AreSent major minor n.hints sent
                × IsSent b n sent (h ++ asks_version ∷ []) (r, h'))))

failed-FailedAs : (e : Option Error) → FailedAs e (failed e)
unfolding failed
failed-FailedAs none = refl
failed-FailedAs (some e) = refl

stored-IsAnswered :
    (b : Bus) (a : Answer) → IsAnswered b a (let (id, e) = stored 0 b.store_id a in (id, failed e))
unfolding stored failed
stored-IsAnswered b a = elim (Option-cases a.err) [
  | inl ok ↦ rw ok (inr (refl, refl, failed-FailedAs (b.store_id a.body).1))
  | inr (e, bad) ↦ rw bad (inl (e, refl, refl))
]

sent_as-IsSent :
    (b : Bus) (n : Notification) (hints : List (Bytes × Any)) (h : History)
    → IsSent b n hints h (sent_as b n (some hints) h)
unfolding sent_as call_notify invoke
sent_as-IsSent b n hints h = (refl, _, refl, _, _, refl, stored-IsAnswered b _)

-- With the version of the server.
named-Delivers :
    (b : Bus) (n : Notification) (major minor : ℤ) (h : History)
    → OwnNames n.hints
    → n.hints ≢ []
    → IsVersioned (version_of b h) major minor
    → Delivers b n h (sent_as b n (renamed b major minor n.hints []) (h ++ asks_version ∷ []))
named-Delivers b n major minor h o ne v = elim (renamed-AreSent b major minor n.hints o) [
  | inl (typed, sent, made, are) ↦
      rw made (inr (inr (ne, major, minor, v, inr (typed, sent, are, sent_as-IsSent b n sent _))))
  | inr (untyped, fails) ↦
      rw fails (unfold sent_as in inr (inr (ne, major, minor, v, inl (untyped, refl, refl))))
]

versioned-Delivers :
    (b : Bus) (n : Notification) (si : ServerInfo) (v : Option (ℤ × ℤ)) (h : History)
    → OwnNames n.hints
    → n.hints ≢ []
    → version_of b h ≡ (si, none)
    → scan_version si.spec_version ≡ v
    → Delivers b n h (versioned b n v (h ++ asks_version ∷ []))
unfolding versioned
versioned-Delivers b n si none h o ne e s = inr (inl (ne, refl, rw e (s, refl)))
versioned-Delivers b n si (some (major, minor)) h o ne e s =
    named-Delivers b n major minor h o ne (rw e (refl, s))

informed-Delivers :
    (b : Bus) (n : Notification) (i : ServerInfo × Option Error) (h : History)
    → OwnNames n.hints
    → n.hints ≢ []
    → version_of b h ≡ i
    → Delivers b n h (informed b n i (h ++ asks_version ∷ []))
unfolding informed
informed-Delivers b n (si, some e) h o ne eq = inr (inl (ne, refl, rw eq refl))
informed-Delivers b n (si, none) h o ne eq = versioned-Delivers b n si _ h o ne eq refl

notify_with-Delivers :
    (b : Bus) (n : Notification) (hints : List (Bytes × Any)) (h : History)
    → n.hints ≡ hints
    → OwnNames n.hints
    → Delivers b n h (notify_with b n hints h)
unfolding notify_with
notify_with-Delivers b n [] h e o = inl (e, sent_as-IsSent b n [] h)
notify_with-Delivers b n (p ∷ hints) h e o =
    unfold get_server_information invoke in informed-Delivers b n _ h o (λ f. cc) refl

-- On a notification whose hints each stand once under the name that Hint keeps: `Notify` without
-- hints makes the one call Notify, and its result is the answer. With hints it first asks the server
-- for its information. Where that fails, or the version is not two numbers, the error is returned
-- and no notification is sent. Where a hint has no type of D-Bus, it panics then, and nothing is sent
-- either. Otherwise the one call Notify follows, its result is the answer, and its hints are exactly
-- those of the notification, each under its name in the server's version.
pub notify-Delivers :
    (b : Bus) (n : Notification) (h : History) → OwnNames n.hints → Delivers b n h (notify b n h)
unfolding notify
notify-Delivers b n h o = notify_with-Delivers b n n.hints h refl o
