-- ===== src/Gntp/Callback/Fields.antt =====
-- What a callback takes out of its header.
use go_notify.Base.{
  ◌≡◌, ◌∙◌, refl, Bool, true, false, ◌&&◌, ◌||◌, [], Option, if◌then◌else◌, Bytes, codes,
}
use go_notify.Go.Textproto.{Header, get}
use go_notify.Go.Textproto.Headers.{same_key, get-del}
use go_notify.Gntp.Response.{Callback}
use go_notify.Gntp.Callback.{is_result, is_some, untold, del_if, callback_of}

-- The names whose fields a callback has taken over.
abbrev pub taken_name : Bytes → Bool
taken_name k =
    same_key (codes "Notification-Callback-Context-Type") k
    || (same_key (codes "Notification-Callback-Context") k
        || (same_key (codes "Notification-ID") k || same_key (codes "Application-Name") k))

abbrev pub is_taken : {Time : Type 0} → Callback Time → Bytes → Bool
is_taken cb k =
    is_some cb.timestamp && same_key (codes "Notification-Callback-Timestamp") k
    || (is_result cb.outcome && same_key (codes "Notification-Callback-Result") k || taken_name k)

if-or :
    (a b : Bool) (x y : Bytes)
    → y ≡ (if b then [] else x)
    → (if a then [] else y) ≡ (if a || b then [] else x)
if-or true b x y e = refl
if-or false b x y e = e

get-untold : (k : Bytes) (h : Header) → get k (untold h) ≡ (if taken_name k then [] else get k h)
get-untold k h =
    let last = get-del (codes "Application-Name") k h in
    let third = get-del (codes "Notification-ID") k _ ∙ if-or _ _ _ _ last in
    let second = get-del (codes "Notification-Callback-Context") k _ ∙ if-or _ _ _ _ third in
    get-del (codes "Notification-Callback-Context-Type") k _ ∙ if-or _ _ _ _ second

get-del_if :
    (b : Bool) (j k : Bytes) (h : Header)
    → get k (del_if b j h) ≡ (if b && same_key j k then [] else get k h)
unfolding del_if
get-del_if true j k h = get-del j k h
get-del_if false j k h = refl

get-del_if_behind :
    (b : Bool) (j k : Bytes) (h : Header) (t : Bool) (x : Bytes)
    → get k h ≡ (if t then [] else x)
    → get k (del_if b j h) ≡ (if b && same_key j k || t then [] else x)
get-del_if_behind b j k h t x e = get-del_if b j k h ∙ if-or (b && same_key j k) t x (get k h) e

module _ {Time : Type 0} (parse_time : Bytes → Option Time) (name : Bytes) where
  -- Under any name, however it is spelled, the header of a callback has what the message's header
  -- has, save the fields that have become the callback's own: the application's name, the ID, the
  -- context and its type, the result if it is one that is known, and the timestamp if it is read.
  pub callback_of-header :
      (k : Bytes) (h : Header)
      → get k (callback_of parse_time name h).header
        ≡ (if is_taken (callback_of parse_time name h) k then [] else get k h)
  unfolding callback_of
  callback_of-header k h =
      let cb = callback_of parse_time name h in
      let result = codes "Notification-Callback-Result" in
      let told =
        get-del_if_behind (is_result cb.outcome) result k (untold h) (taken_name k) (get k h)
          (get-untold k h) in
      get-del_if_behind (is_some cb.timestamp) (codes "Notification-Callback-Timestamp") k
        (del_if (is_result cb.outcome) result (untold h))
        (is_result cb.outcome && same_key result k || taken_name k) (get k h) told
