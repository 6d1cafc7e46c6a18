-- ===== src/Freedesktop/Signal/Taken.antt =====
-- What one signal on the bus does to `Client.signal` of freedesktop/notify.go.
use go_notify.Base.{
  ◌≡◌, ◌≢◌, ◌⊎◌, inl, inr, refl, sym, ℕ, List, [], ◌∷◌, ◌++◌, append-nil, Option, none, some, arith,
  true, false, Bool-cases, Bytes, bytes_eq, bytes_eq_iff, get_elem?,
}
use go_notify.Go.Value.{uint32, string}
use go_notify.Outbox.Fifo.{IsWell, pending, pending-put}
use go_notify.Freedesktop.Types.{
  NotificationClosed, ActionInvoked, Any, Signal, path, notification_closed, action_invoked,
}
use go_notify.Freedesktop.Signal.Order.{Ordered, step-take_case}
use go_notify.Freedesktop.Signal.{
  Loop, take_signal, append_closed, append_invoked, Outcome, running, panicked, assert_uint32,
  assert_string, closed_of_body, invoked_of_body, receive, take_case, step,
}

-- The first two values of a body, by their types.
abbrev pub HasClosed : List Any → NotificationClosed → Type 0
HasClosed body v =
    (get_elem? body 0 ≡ some (uint32 v.id)) × (get_elem? body 1 ≡ some (uint32 v.reason))

abbrev pub HasInvoked : List Any → ActionInvoked → Type 0
HasInvoked body v =
    (get_elem? body 0 ≡ some (uint32 v.id)) × (get_elem? body 1 ≡ some (string v.key))

assert_uint32_cases :
    (o : Option Any)
    → ((n : ℕ) × (o ≡ some (uint32 n)) × (assert_uint32 o ≡ some n))
      ⊎ (((n : ℕ) → o ≢ some (uint32 n)) × (assert_uint32 o ≡ none))
unfolding assert_uint32
assert_uint32_cases (some (uint32 n)) = inl (n, refl, refl)
assert_uint32_cases _ = inr ((λ n e. cc), refl)

assert_string_cases :
    (o : Option Any)
    → ((s : Bytes) × (o ≡ some (string s)) × (assert_string o ≡ some s))
      ⊎ (((s : Bytes) → o ≢ some (string s)) × (assert_string o ≡ none))
unfolding assert_string
assert_string_cases (some (string s)) = inl (s, refl, refl)
assert_string_cases _ = inr ((λ s e. cc), refl)

closed_of_body_cases :
    (body : List Any)
    → ((v : NotificationClosed) × HasClosed body v × (closed_of_body body ≡ some v))
      ⊎ (((v : NotificationClosed) → ¬ HasClosed body v) × (closed_of_body body ≡ none))
unfolding closed_of_body
closed_of_body_cases body = elim (assert_uint32_cases (get_elem? body 0)) [
  | inr (lacks, e) ↦ inr ((λ v h. lacks v.id h.0), rw (e, closed_of_body) refl)
  | inl (n, is, e) ↦ elim (assert_uint32_cases (get_elem? body 1)) [
    | inr (lacks, f) ↦ inr ((λ v h. lacks v.reason h.1), rw (e, closed_of_body) (rw f refl))
    | inl (r, is_r, f) ↦
        inl (record { id = n; reason = r }, (is, is_r), rw (e, closed_of_body) (rw f refl))
  ]
]

invoked_of_body_cases :
    (body : List Any)
    → ((v : ActionInvoked) × HasInvoked body v × (invoked_of_body body ≡ some v))
      ⊎ (((v : ActionInvoked) → ¬ HasInvoked body v) × (invoked_of_body body ≡ none))
unfolding invoked_of_body
invoked_of_body_cases body = elim (assert_uint32_cases (get_elem? body 0)) [
  | inr (lacks, e) ↦ inr ((λ v h. lacks v.id h.0), rw (e, invoked_of_body) refl)
  | inl (n, is, e) ↦ elim (assert_string_cases (get_elem? body 1)) [
    | inr (lacks, f) ↦ inr ((λ v h. lacks v.key h.1), rw (e, invoked_of_body) (rw f refl))
    | inl (k, is_k, f) ↦
        inl (record { id = n; key = k }, (is, is_k), rw (e, invoked_of_body) (rw f refl))
  ]
]

-- What is held back after a round, with what is handed on and removed as before it.
abbrev pub Adds : List NotificationClosed → List ActionInvoked → Loop → Outcome → Type 0
Adds vs ws l o =
    (l' : Loop) × (o ≡ running l')
    × (pending l'.closed ≡ pending l.closed ++ vs)
    × (pending l'.invoked ≡ pending l.invoked ++ ws)
    × (l'.closed_got ≡ l.closed_got)
    × (l'.invoked_got ≡ l.invoked_got)
    × (l'.removed ≡ l.removed)

-- What a signal comes to.
abbrev pub Takes : Loop → Signal → Outcome → Type 0
Takes l s o =
    (((s.path ≢ path) ⊎ ((s.name ≢ notification_closed) × (s.name ≢ action_invoked)))
      × (o ≡ running l))
    ⊎ ((s.path ≡ path)
        × (s.name ≡ notification_closed)
        × (((v : NotificationClosed) × HasClosed s.body v × Adds (v ∷ []) [] l o)
            ⊎ (((v : NotificationClosed) → ¬ HasClosed s.body v) × (o ≡ panicked))))
    ⊎ ((s.path ≡ path)
        × (s.name ≡ action_invoked)
        × (((v : ActionInvoked) × HasInvoked s.body v × Adds [] (v ∷ []) l o)
            ⊎ (((v : ActionInvoked) → ¬ HasInvoked s.body v) × (o ≡ panicked))))

append_closed-Adds :
    (v : NotificationClosed) (l : Loop)
    → IsWell l.closed
    → Adds (v ∷ []) [] l (append_closed (some v) l)
unfolding append_closed
append_closed-Adds v l w =
    (_, refl, pending-put v l.closed w, sym (append-nil (pending l.invoked)), refl, refl, refl)

append_invoked-Adds :
    (v : ActionInvoked) (l : Loop)
    → IsWell l.invoked
    → Adds [] (v ∷ []) l (append_invoked (some v) l)
unfolding append_invoked
append_invoked-Adds v l w =
    (_, refl, sym (append-nil (pending l.closed)), pending-put v l.invoked w, refl, refl, refl)

byte_cases : (s t : Bytes) → ((s ≡ t) × (bytes_eq s t ≡ true)) ⊎ ((s ≢ t) × (bytes_eq s t ≡ false))
byte_cases s t = elim (Bool-cases (bytes_eq s t)) [
  | inl e ↦ inl ((bytes_eq_iff s t).0 e, e)
  | inr e ↦ inr (ground (arith, bytes_eq_iff s t), e)
]

receive-Takes :
    {cl : List NotificationClosed} {iv : List ActionInvoked} (s : Signal) (l : Loop)
    → Ordered cl iv l
    → Takes l s (receive (some s) l)
unfolding receive
receive-Takes s l h = elim (byte_cases s.path path) [
  | inr (lacks, e) ↦ rw e (inl (inl lacks, refl))
  | inl (ours, e) ↦ elim (byte_cases s.name notification_closed) [
    | inl (closed, f) ↦
        rw (e, f)
          (inr (
            inl (
              ours,
              closed,
              elim (closed_of_body_cases s.body) [
                | inl (v, has, g) ↦ inl (v, has, rw g (append_closed-Adds v l h.closed_well))
                | inr (lacks, g) ↦ inr (lacks, rw g (unfold append_closed in refl))
              ],
            )))
    | inr (other, f) ↦ elim (byte_cases s.name action_invoked) [
      | inl (invoked, k) ↦
          rw (e, f, k)
            (inr (
              inr (
                ours,
                invoked,
                elim (invoked_of_body_cases s.body) [
                  | inl (v, has, g) ↦ inl (v, has, rw g (append_invoked-Adds v l h.invoked_well))
                  | inr (lacks, g) ↦ inr (lacks, rw g (unfold append_invoked in refl))
                ],
              )))
      | inr (lacks, k) ↦ rw (e, f, k) (inl (inr (other, lacks), refl))
    ]
  ]
]

-- In every state that the loop is in between two rounds, whatever signal comes: one of another path or
-- another name changes nothing. A NotificationClosed whose body starts with two uint32 is held
-- back behind those that are, and so is an ActionInvoked whose body starts with a uint32 and a
-- string; what is held back of the other kind, and what has been handed on, stay. With any other
-- body the loop panics.
pub step-Takes :
    {cl : List NotificationClosed} {iv : List ActionInvoked} (l : Loop) (s : Signal)
    → Ordered cl iv l
    → Takes l s (step l (take_signal (some s)))
unfolding take_case
step-Takes l s h =
    let (v, w, ev, ew, e) = step-take_case (take_signal (some s)) l h in rw e (receive-Takes s l h)
