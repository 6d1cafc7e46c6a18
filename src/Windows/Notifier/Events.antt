-- ===== src/Windows/Notifier/Events.antt =====
-- What a later notification is made of.
use go_notify.Base.{◌≡◌, refl, arith, if◌then◌else◌, Bytes, bytes_eq}
use go_notify.Dict.{insert, lookup-insert}
use go_notify.Windows.Data.{System}
use go_notify.Windows.Icon.{NotifyIcon, Notification}
use go_notify.Windows.Icon
use go_notify.Windows.Notifier.{
  Any, Options, Loader, Checked, accepted, refused, event_of, Events, Reply, rejects, registered,
  notified, shown_by, register, notify, enter,
}
use go_notify.Windows.Notifier.Icons.{Described, event_of-Described}

-- What a registration does to a later notification.
abbrev pub Pictures :
    System
    → Loader
    → Any
    → Options
    → Checked Notification
    → Bytes
    → Bytes
    → Bytes
    → Bytes
    → Events
    → NotifyIcon
    → Events × Reply
    → Type 0
Pictures c l icon opts (refused r) event j title body evs ni next = next ≡ (evs, rejects r)
Pictures c l icon opts (accepted n) event j title body evs ni next =
    Described c l icon opts n
    × (next.1 ≡ registered)
    × (notify c j title body next.0 ni ≡ (
        if bytes_eq event j
        then (let (f, after) = Icon.notify c (record n { title = title; body = body }) ni in
            (notified f, after))
        else notify c j title body evs ni))

notify-insert :
    (c : System) (n : Notification) (event j title body : Bytes) (evs : Events) (ni : NotifyIcon)
    → notify c j title body (insert event n evs) ni ≡ (
        if bytes_eq event j
        then shown_by c ni (record n { title = title; body = body })
        else notify c j title body evs ni)
unfolding notify
notify-insert c n event j title body evs ni = ground (arith, lookup-insert event j n evs)

enter-Pictures :
    (c : System) (l : Loader) (icon : Any) (opts : Options) (m : Checked Notification)
    (event j title body : Bytes) (evs : Events) (ni : NotifyIcon)
    → event_of c l icon opts ≡ m
    → Pictures c l icon opts m event j title body evs ni (enter event m evs)
unfolding enter shown_by
enter-Pictures c l icon opts (refused r) event j title body evs ni e = refl
enter-Pictures c l icon opts (accepted n) event j title body evs ni e =
    (event_of-Described c l icon opts n e, refl, notify-insert c n event j title body evs ni)

-- Where a registration is refused, the table stays as it is. Else the event has the icon that is
-- given: none, a type, or a handle, which is the image's or the resource's of a 16-bit number and
-- which an older shell replaces by the type of the fallback option; and the sound that is given, on a
-- shell that can be silent. A later notification of the event is this one with its title and text,
-- and those of every other event are what they were.
pub register-Pictures :
    (c : System) (l : Loader) (event j title body : Bytes) (icon : Any) (opts : Options)
    (evs : Events) (ni : NotifyIcon)
    → Pictures c l icon opts
        (event_of c l icon opts)
        event
        j
        title
        body
        evs
        ni
        (register c l event icon opts evs)
unfolding register
register-Pictures c l event j title body icon opts evs ni =
    enter-Pictures c l icon opts (event_of c l icon opts) event j title body evs ni refl
