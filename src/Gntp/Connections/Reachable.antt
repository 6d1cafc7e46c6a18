-- ===== src/Gntp/Connections/Reachable.antt =====
-- What holds of every connection that waits for a callback, whatever the order of steps.
use go_notify.Base.{
  ℕ, ◌+◌, ◌≤◌, ◌≡◌, ◌⊎◌, inl, inr, refl, sym, ap, ◌∙◌, Bool, true, false, not, List, [], ◌∷◌, ◌++◌,
  map, arith, Bool-cases,
}
use mathlib.Core.Bool.{true≢false}
use go_notify.Gntp.Connections.{
  Phase, unspawned, reading, offering, closing, removing, finished, Waiter, World, new_waiter, Move,
  spawn, hear, fail, deliver, cancel, close, remove, shut, reset, Step, register, move, reset_all,
  Reached, start, next,
}

abbrev pub All {ℓ} : {A : Type ℓ} → (A → Type 0) → List A → Type 0
All P [] = Unit
All P (a ∷ s) = P a × All P s

-- The phases in which the connection has not been closed by its goroutine.
abbrev pub is_live : Phase → Bool
is_live removing = false
is_live finished = false
is_live _ = true

abbrev pub is_finished : Phase → Bool
is_finished finished = true
is_finished _ = false

-- The connection is in the map until its goroutine has ended, is closed by then, and is of the
-- latest context unless it is closed.
pub record Kept (g : ℕ) (w : Waiter) : Type 0 where
  pub in_map : w.registered ≡ not (is_finished w.phase)
  pub has_closed : (is_live w.phase ≡ true) ⊎ (w.opened ≡ false)
  pub latest : w.context ≤ g
  pub fresh : (w.opened ≡ false) ⊎ (w.context ≡ g)

Kept-new : (g : ℕ) → Kept g (new_waiter g)
Kept-new g = record { in_map = refl; has_closed = inl refl; latest = omega arith; fresh = inr refl }

not_finished : (p : Phase) → is_live p ≡ true → is_finished p ≡ false
not_finished unspawned e = refl
not_finished reading e = refl
not_finished offering e = refl
not_finished closing e = refl
not_finished removing e = refl
not_finished finished e = cc

closed_of :
    (w : Waiter)
    → w.phase ≡ removing
    → (is_live w.phase ≡ true) ⊎ (w.opened ≡ false)
    → w.opened ≡ false
closed_of w e (inl live) = absurd (true≢false (sym live ∙ ap is_live e))
closed_of w e (inr off) = off

Kept-live :
    (g : ℕ) (w : Waiter) (p : Phase)
    → is_live w.phase ≡ true
    → is_live p ≡ true
    → Kept g w
    → Kept g (record w { phase = p })
Kept-live g w p h e k = record {
  in_map = k.in_map ∙ ap not (not_finished w.phase h) ∙ ap not (sym (not_finished p e));
  has_closed = inl e;
  latest = k.latest;
  fresh = k.fresh;
}

Kept-move : {g : ℕ} {a b : Waiter} → Move g a b → Kept g a → Kept g b
Kept-move {g} (spawn w e) k = record {
  in_map = k.in_map ∙ ap (λ p. not (is_finished p)) e;
  has_closed = inl refl;
  latest = omega arith;
  fresh = inr refl;
}
Kept-move {g} (hear w e) k = Kept-live g w offering (ap is_live e) refl k
Kept-move {g} (fail w e) k = Kept-live g w closing (ap is_live e) refl k
Kept-move {g} (deliver w e) k = Kept-live g w closing (ap is_live e) refl k
Kept-move {g} (cancel w e lt) k = Kept-live g w closing (ap is_live e) refl k
Kept-move (close w e) k = record {
  in_map = k.in_map ∙ ap (λ p. not (is_finished p)) e;
  has_closed = inr refl;
  latest = k.latest;
  fresh = inl refl;
}
Kept-move (remove w e) k =
    let is_closed : w.opened ≡ false = closed_of w e k.has_closed in
    record { in_map = refl; has_closed = inr is_closed; latest = k.latest; fresh = inl is_closed }

finished_not_live : (p : Phase) → not (is_finished p) ≡ false → is_live p ≡ false
finished_not_live unspawned e = cc
finished_not_live reading e = cc
finished_not_live offering e = cc
finished_not_live closing e = cc
finished_not_live removing e = refl
finished_not_live finished e = refl

unregistered_closed : (g : ℕ) (w : Waiter) → Kept g w → w.registered ≡ false → w.opened ≡ false
unregistered_closed g w k off =
    let ended = finished_not_live w.phase (sym k.in_map ∙ off) in
    elim k.has_closed [ inl live ↦ absurd (true≢false (sym live ∙ ended)) | inr e ↦ e ]

pub Kept-shut : (g : ℕ) (w : Waiter) → Kept g w → Kept (g + 1) (shut w) × ((shut w).opened ≡ false)
unfolding shut
Kept-shut g w k = elim (Bool-cases w.registered) [
  | inl on ↦
      rw (on, shut)
        (
          record {
            in_map = sym on ∙ k.in_map;
            has_closed = inr refl;
            latest = omega (arith, k.latest);
            fresh = inl refl;
          },
          refl,
        )
  | inr off ↦
      let is_closed = unregistered_closed g w k off in
      rw (off, shut)
        (
          record {
            in_map = sym off ∙ k.in_map;
            has_closed = inr is_closed;
            latest = omega (arith, k.latest);
            fresh = inl is_closed;
          },
          is_closed,
        )
]

All-append : {A : Type 0} (P : A → Type 0) (s t : List A) → All P s → All P t → All P (s ++ t)
All-append P [] t h k = k
All-append P (a ∷ s) t h k = (h.0, All-append P s t h.1 k)

All-replace :
    {A : Type 0} (P : A → Type 0) (s t : List A) (a b : A)
    → (P a → P b)
    → All P (s ++ a ∷ t)
    → All P (s ++ b ∷ t)
All-replace P [] t a b f h = (f h.0, h.1)
All-replace P (c ∷ s) t a b f h = (h.0, All-replace P s t a b f h.1)

pub All-map :
    {A B : Type 0} (P : A → Type 0) (Q : B → Type 0) (f : A → B) (s : List A)
    → ((a : A) → P a → Q (f a))
    → All P s
    → All Q (map f s)
All-map P Q f [] h k = tt
All-map P Q f (a ∷ s) h k = (h a k.0, All-map P Q f s h k.1)

Step-Kept :
    {v w : World} → Step v w → All (Kept v.current) v.waiters → All (Kept w.current) w.waiters
unfolding reset
Step-Kept (register w) h = All-append (Kept w.current) w.waiters _ h (Kept-new w.current, tt)
Step-Kept (move g before after a b m) h =
    All-replace (Kept g) before after a b (λ k. Kept-move m k) h
Step-Kept (reset_all w) h =
    All-map (Kept w.current) (Kept (w.current + 1)) shut w.waiters
      (λ v k. (Kept-shut w.current v k).0) h

-- In whatever order the client registers connections, starts their goroutines, hands on callbacks
-- and is reset, each connection is in the map exactly until its goroutine has ended, it is closed
-- before it leaves the map, and while it is open its goroutine has, or its registration had, the
-- context that the next `Reset` cancels: none that is open escapes that `Reset`.
pub Reached-Kept : (w : World) → Reached w → All (Kept w.current) w.waiters
Reached-Kept _ start = tt
Reached-Kept _ (next {v} {w} r s) = Step-Kept s (Reached-Kept v r)
