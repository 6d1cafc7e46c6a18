-- ===== src/Freedesktop/Notifier/Delivered.antt =====
-- `notifier.Notify` of freedesktop/impl.go down to the bus, after any registrations.
use go_notify.Base.{
  ◌≡◌, refl, sym, ◌∙◌, subst, inl, inr, List, [], ◌∷◌, Option, none, some, if◌then◌else◌, Bool,
  true, false, Option-cases, Bytes, bytes_eq,
}
use go_notify.Dict.{lookup, lookup-insert}
use go_notify.Util.Convert.{Draw}
use go_notify.Freedesktop.Types.{Any}
use go_notify.Freedesktop.Bus.{Bus, History}
use go_notify.Freedesktop.Client
use go_notify.Freedesktop.Client.{Failure, Outcome, returned, panicked}
use go_notify.Freedesktop.Client.Delivery.{Delivers, notify-Delivers}
use go_notify.Freedesktop.Lifecycle.{Created, refused, created, crashed, new}
use go_notify.Freedesktop.Notifier.{
  Notification, Checked, accepted, refused, panicked, Options, Events, Reply, unknown_event,
  notifies, enter, register, notify,
}
use go_notify.Freedesktop.Notifier.Well.{IsWell, IsSafe, event_of-IsSafe}

-- `notifier`, whose client is the bus with its history.
pub record Notifier : Type 0 where
  pub name : Bytes
  pub events : Events

fresh : Bytes → Created → Option Notifier
fresh app (created h) = some (record { name = app; events = [] })
fresh app _ = none

-- `NewNotifier`; `none` is the error of `New`.
unfoldable pub new_notifier : Bus → Bytes → Option Notifier
unfolding fresh
new_notifier b app = fresh app (new b)

-- What `Notify` comes to: an error of its own, or what `Client.Notify` comes to.
pub data Posted : Type 0 where
  not_posted : Reply → Posted
  posted : Option Failure → Posted
  post_panicked : Posted

-- `_, err := ...`; the identifier is dropped.
posted_of : Outcome → Posted
posted_of (returned id e) = posted e
posted_of panicked = post_panicked

replied : Bus → Reply → History → Posted × History
replied b (notifies n) h = let (r, h') = Client.notify b n h in (posted_of r, h')
replied b r h = (not_posted r, h)

unfoldable pub post : Bus → Notifier → Bytes → Bytes → Bytes → History → Posted × History
unfolding replied posted_of
post b p event title body h = replied b (notify p.name event title body p.events) h

-- The registrations made on a new notifier.
pub record Registration : Type 0 where
  pub event : Bytes
  pub icon : Any
  pub opts : Options

unfoldable pub register_all : Draw → List Registration → Notifier → Notifier
register_all draw [] p = p
register_all draw (r ∷ rs) p =
    register_all draw rs (record p { events = (register draw r.event r.icon r.opts p.events).0 })

-- The notifications in the table are well formed.
abbrev AllWell : Events → Type 0
AllWell evs = (event : Bytes) (n : Notification) → lookup event evs ≡ some n → IsWell n

insert-IsWell :
    (c : Bool) (n m : Notification) (o : Option Notification)
    → IsWell n
    → (o ≡ some m → IsWell m)
    → (if c then some n else o) ≡ some m
    → IsWell m
insert-IsWell true n m o s w e = let e' : n ≡ m = cc in subst IsWell e' s
insert-IsWell false n m o s w e = w e

enter-AllWell :
    (event : Bytes) (c : Checked) (evs : Events)
    → IsSafe c
    → AllWell evs
    → AllWell (enter event c evs).0
unfolding enter
enter-AllWell event (accepted n) evs s w = λ j m e.
    insert-IsWell (bytes_eq event j) n m _ s (w j m) (sym (lookup-insert event j n evs) ∙ e)
enter-AllWell event (refused r) evs s w = w
enter-AllWell event panicked evs s w = w

register_all-AllWell :
    (draw : Draw) (rs : List Registration) (p : Notifier)
    → AllWell p.events
    → AllWell (register_all draw rs p).events
unfolding register_all register
register_all-AllWell draw [] p w = w
register_all-AllWell draw (r ∷ rs) p w =
    register_all-AllWell draw rs _
      (enter-AllWell r.event _ p.events (event_of-IsSafe draw r.icon r.opts) w)

register_all-name :
    (draw : Draw) (rs : List Registration) (p : Notifier) → (register_all draw rs p).name ≡ p.name
unfolding register_all
register_all-name draw [] p = refl
register_all-name draw (r ∷ rs) p = register_all-name draw rs _

fresh-empty :
    (app : Bytes) (c : Created) (p : Notifier)
    → fresh app c ≡ some p
    → p ≡ record { name = app; events = [] }
unfolding fresh
fresh-empty app (created h) p e = cc
fresh-empty app (refused x h) p e = cc
fresh-empty app crashed p e = cc

abbrev named : Bytes → Bytes → Bytes → Notification → Notification
named app title body n = record n { name = app; summary = title; body = body }

abbrev pub Reports : Outcome → Posted → Type 0
Reports (returned id e) p = p ≡ posted e
Reports panicked p = p ≡ post_panicked

posted_of-Reports : (o : Outcome) → Reports o (posted_of o)
unfolding posted_of
posted_of-Reports (returned id e) = refl
posted_of-Reports panicked = refl

-- What a notification comes to: ErrEvent and nothing sent, or the delivery of the notification of
-- the event, whose error is returned.
abbrev pub Posts :
    Bus → Bytes → Bytes → Bytes → Option Notification → History → Posted × History → Type 0
Posts b app title body none h r = r ≡ (not_posted unknown_event, h)
Posts b app title body (some n) h r =
    (x : Outcome × History) × Delivers b (named app title body n) h x
    × Reports x.0 r.0
    × (r.1 ≡ x.1)

replied-Posts :
    (b : Bus) (p : Notifier) (event title body : Bytes) (h : History)
    → AllWell p.events
    → Posts b p.name title body (lookup event p.events) h (post b p event title body h)
unfolding post notify replied
replied-Posts b p event title body h w = elim (Option-cases (lookup event p.events)) [
  | inl missing ↦ rw (missing, replied) refl
  | inr (n, found) ↦
      rw (found, replied)
        (
          _,
          notify-Delivers b (named p.name title body n) h (w event n found).1,
          posted_of-Reports _,
          refl,
        )
]

-- On a notifier that `NewNotifier` returned, with whatever registrations behind it: a notification
-- of an event that is not in the table is ErrEvent and nothing is sent. Where the event is in the
-- table, its notification, under the notifier's name and with the title and text, is delivered as
-- `Client.Notify` delivers one with hints under their own names: its error is returned, and it panics
-- where a server with a version is to be sent a hint that has no type of D-Bus.
pub post-Posts :
    (b : Bus) (draw : Draw) (p : Notifier) (rs : List Registration) (app event title body : Bytes)
    (h : History)
    → new_notifier b app ≡ some p
    → Posts b app title body
        (lookup event (register_all draw rs p).events)
        h
        (post b (register_all draw rs p) event title body h)
unfolding new_notifier
post-Posts b draw p rs app event title body h e =
    let f : p ≡ record { name = app; events = [] } = fresh-empty app (new b) p e in
    let w : AllWell p.events = rw f (λ j m x. unfold lookup in cc) in
    let n : (register_all draw rs p).name ≡ app = register_all-name draw rs p ∙ rw f refl in
    subst
      (λ a.
        Posts b a title body (lookup event (register_all draw rs p).events) h
          (post b (register_all draw rs p) event title body h))
      n
      (replied-Posts b (register_all draw rs p) event title body h
        (register_all-AllWell draw rs p w))
