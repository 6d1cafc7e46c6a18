-- ===== src/Gntp/Notifier/Events.antt =====
-- The table of events: what a notification of an event is made of.
use go_notify.Base.{◌≡◌, refl, arith, if◌then◌else◌, Bytes, bytes_eq}
use go_notify.Dict.{insert, lookup-insert}
use go_notify.Gntp.Buffer.{Any}
use go_notify.Gntp.Request.{Notification}
use go_notify.Gntp.Notifier.{
  Checked, accepted, refused, Options, event_of, Events, Reply, notifies, rejects, register, notify,
  registered,
}

-- What a registration does to a later notification.
abbrev pub Registers :
    Checked Notification → Bytes → Bytes → Bytes → Bytes → Events → Events × Reply → Type 0
Registers (refused r) event j title body evs next = next ≡ (evs, rejects r)
Registers (accepted n) event j title body evs next = notify j title body next.0 ≡ (
    if bytes_eq event j
    then notifies (record n { title = title; text = body })
    else notify j title body evs)

notify-insert :
    (n : Notification) (event j title body : Bytes) (evs : Events)
    → notify j title body (insert event n evs) ≡ (
        if bytes_eq event j
        then notifies (record n { title = title; text = body })
        else notify j title body evs)
unfolding notify
notify-insert n event j title body evs = ground (arith, lookup-insert event j n evs)

registered-Registers :
    (c : Checked Notification) (event j title body : Bytes) (evs : Events)
    → Registers c event j title body evs (registered event c evs)
unfolding registered
registered-Registers (refused r) event j title body evs = refl
registered-Registers (accepted n) event j title body evs = notify-insert n event j title body evs

-- Where an option of a registration is refused, the table stays as it is and nothing is sent; else
-- a later notification of the event is the one registered, with its title and text, and those of
-- every other event are what they were.
pub register-Registers :
    (event j title body : Bytes) (icon : Any) (opts : Options) (evs : Events)
    → Registers (event_of event icon opts) event j title body evs (register event icon opts evs)
unfolding register
register-Registers event j title body icon opts evs =
    registered-Registers (event_of event icon opts) event j title body evs
