-- ===== src/Freedesktop/Notifier/Events.antt =====
-- What a registration does to the table of events.
use go_notify.Base.{◌≡◌, refl, arith, if◌then◌else◌, Bytes, bytes_eq}
use go_notify.Dict.{insert, lookup-insert}
use go_notify.Util.Convert.{Draw}
use go_notify.Freedesktop.Types.{Any}
use go_notify.Freedesktop.Notifier.{
  Notification, Checked, accepted, refused, panicked, Options, event_of, Events, Reply, registered,
  rejects, notifies, enter, register, notify,
}
use go_notify.Freedesktop.Notifier.Well.{IsSafe, event_of-IsSafe}

-- A registration that is refused changes nothing, and none panics; an accepted one decides the
-- later notifications of its event, and those of every other event are what they were.
abbrev pub Enters :
    Checked → Bytes → Bytes → Bytes → Bytes → Bytes → Events → Events × Reply → Type 0
Enters panicked app event j title text evs next = ⊥
Enters (refused r) app event j title text evs next = next ≡ (evs, rejects r)
Enters (accepted n) app event j title text evs next =
    (next.1 ≡ registered)
    × (notify app j title text next.0 ≡ (
        if bytes_eq event j
        then notifies (record n { name = app; summary = title; body = text })
        else notify app j title text evs))

notify-insert :
    (n : Notification) (app event j title text : Bytes) (evs : Events)
    → notify app j title text (insert event n evs) ≡ (
        if bytes_eq event j
        then notifies (record n { name = app; summary = title; body = text })
        else notify app j title text evs)
unfolding notify
notify-insert n app event j title text evs = ground (arith, lookup-insert event j n evs)

enter-Enters :
    (c : Checked) (app event j title text : Bytes) (evs : Events)
    → IsSafe c
    → Enters c app event j title text evs (enter event c evs)
unfolding enter
enter-Enters panicked app event j title text evs h = h
enter-Enters (refused r) app event j title text evs h = refl
enter-Enters (accepted n) app event j title text evs h =
    (refl, notify-insert n app event j title text evs)

-- No registration panics. One that is refused leaves the table as it is; after one that is
-- accepted, a notification of the event is the one registered, under the notifier's name and with
-- its title and text, and those of every other event are what they were.
pub register-Enters :
    (draw : Draw) (app event j title text : Bytes) (icon : Any) (opts : Options) (evs : Events)
    → Enters
        (event_of draw icon opts)
        app
        event
        j
        title
        text
        evs
        (register draw event icon opts evs)
unfolding register
register-Enters draw app event j title text icon opts evs =
    enter-Enters (event_of draw icon opts) app event j title text evs
      (event_of-IsSafe draw icon opts)
