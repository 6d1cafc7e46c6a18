-- ===== src/Gntp/Notifier.antt =====
-- The notifier of gntp/impl.go over its client: the table of events, and the requests that it hands
-- to `Client.Register` and `Client.Notify`.
pub mod Events
pub mod Options
use go_notify.Base.{
  ℕ, Bool, true, false, ◌&&◌, List, [], map, none, some, leb, if◌then◌else◌, Bytes, codes,
}
use go_notify.Base.Int.{ℤ, pos, negsuc, leb_ℤ}
use go_notify.Dict.{insert, lookup}
use go_notify.Go.Value.{
  string, bool, int, int8, int16, int32, int64, uint, uint8, uint16, uint32, uint64,
}
use go_notify.Gntp.Buffer.{Any}
use go_notify.Gntp.Request.{Notification}

-- The errors of the options, each with its key.
pub data Refusal : Type 0 where
  expects_string expects_bool expects_int overflows_int : Bytes → Refusal

pub data Checked (A : Type 0) : Type 0 where
  accepted : A → Checked A
  refused : Refusal → Checked A

infixl 5 ◌>>=◌
abbrev pub ◌>>=◌ : {A C : Type 0} → Checked A → (A → Checked C) → Checked C
refused r >>= f = refused r
accepted a >>= f = f a

abbrev pub Options : Type 0
Options = List (Bytes × Any)

as_string : Bytes → Any → Checked Bytes
as_string k (string s) = accepted s
as_string k v = refused (expects_string k)

as_bool : Bytes → Any → Checked Bool
as_bool k (bool b) = accepted b
as_bool k v = refused (expects_bool k)

-- `i2i` and `u2i`.
i2i : Bytes → ℤ → Checked ℤ
i2i k i =
    if leb_ℤ (negsuc 0x7fffffff) i && leb_ℤ i (pos 0x7fffffff)
    then accepted i
    else refused (overflows_int k)

u2i : Bytes → ℕ → Checked ℤ
u2i k u = if leb u 0x7fffffff then accepted (pos u) else refused (overflows_int k)

as_int : Bytes → Any → Checked ℤ
unfolding i2i u2i
as_int k (int v) = accepted v
as_int k (int8 v) = i2i k v
as_int k (int16 v) = i2i k v
as_int k (int32 v) = i2i k v
as_int k (int64 v) = i2i k v
as_int k (uint v) = u2i k v
as_int k (uint8 v) = u2i k v
as_int k (uint16 v) = u2i k v
as_int k (uint32 v) = u2i k v
as_int k (uint64 v) = u2i k v
as_int k v = refused (expects_int k)

-- `if v, ok := opts[k]; ok`.
option_or : {A : Type 0} → (Bytes → Any → Checked A) → Bytes → A → Options → Checked A
option_or f k default opts = elim (lookup k opts) [ none ↦ accepted default | some v ↦ f k v ]

-- What an event is registered as.
unfoldable pub event_of : Bytes → Any → Options → Checked Notification
unfolding option_or as_string as_bool as_int
event_of event icon opts = do
  display_name ← option_or as_string (codes "gntp:display-name") [] opts
  enabled ← option_or as_bool (codes "gntp:enabled") true opts
  sticky ← option_or as_bool (codes "gntp:sticky") false opts
  priority ← option_or as_int (codes "gntp:priority") (pos 0) opts
  accepted (record {
    name = event;
    display_name = display_name;
    enabled = enabled;
    id = [];
    title = [];
    text = [];
    sticky = sticky;
    priority = priority;
    icon_value = icon;
    coalescing_id = [];
    callback_context = [];
    callback_context_type = [];
    callback_target = [];
  })

-- The map `ev`, in the order of one iteration over it.
abbrev pub Events : Type 0
Events = List (Bytes × Notification)

-- `registers` and `notifies`: the client's method is called with this argument, and its error is
-- what the notifier returns.
pub data Reply : Type 0 where
  registers : List Notification → Reply
  notifies : Notification → Reply
  rejects : Refusal → Reply
  unknown_event : Reply

registered : Bytes → Checked Notification → Events → Events × Reply
registered event (refused r) evs = (evs, rejects r)
registered event (accepted n) evs =
    let evs' = insert event n evs in
    (evs', registers (map (λ (e : Bytes × Notification). e.1) evs'))

unfoldable pub register : Bytes → Any → Options → Events → Events × Reply
unfolding event_of registered
register event icon opts evs = registered event (event_of event icon opts) evs

unfoldable pub notify : Bytes → Bytes → Bytes → Events → Reply
notify event title body evs = elim (lookup event evs) [
  | none ↦ unknown_event
  | some n ↦ notifies (record n { title = title; text = body })
]
