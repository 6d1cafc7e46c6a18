-- ===== src/Freedesktop/Lifecycle/Callers.antt =====
-- The callers of `Close`, counted by how far they are.
use go_notify.Base.{
  ℕ, zero, suc, ◌+◌, ◌≤◌, ◌≡◌, refl, Bool, true, false, List, [], ◌∷◌, Option, some, arith,
  get_elem?, replicate,
}
use go_notify.Freedesktop.Bus.{Error}
use go_notify.Freedesktop.Lifecycle.{Caller, idle, waiting, back, closed, set_caller}

abbrev pub is_waiting : Caller → ℕ
is_waiting waiting = 1
is_waiting _ = 0

abbrev pub is_closed : Caller → ℕ
is_closed (closed e) = 1
is_closed _ = 0

abbrev pub is_busy : Caller → ℕ
is_busy idle = 0
is_busy _ = 1

abbrev pub count : (Caller → ℕ) → List Caller → ℕ
count f [] = 0
count f (c ∷ cs) = f c + count f cs

pub count-set_caller :
    (f : Caller → ℕ) (i : ℕ) (c d : Caller) (cs : List Caller)
    → get_elem? cs i ≡ some c
    → count f (set_caller i d cs) + f c ≡ count f cs + f d
unfolding set_caller
count-set_caller f i c d [] e = cc
count-set_caller f zero c d (x ∷ cs) e = let e' : x ≡ c = cc in rw e' (omega arith)
count-set_caller f (suc i) c d (x ∷ cs) e = omega (arith, count-set_caller f i c d cs e)

pub get_elem?-set_caller :
    (i : ℕ) (c d : Caller) (cs : List Caller)
    → get_elem? cs i ≡ some c
    → get_elem? (set_caller i d cs) i ≡ some d
unfolding set_caller
get_elem?-set_caller i c d [] e = cc
get_elem?-set_caller zero c d (x ∷ cs) e = refl
get_elem?-set_caller (suc i) c d (x ∷ cs) e = get_elem?-set_caller i c d cs e

pub count_le :
    (f : Caller → ℕ) (i : ℕ) (c : Caller) (cs : List Caller)
    → get_elem? cs i ≡ some c
    → f c ≤ count f cs
count_le f i c [] e = cc
count_le f zero c (x ∷ cs) e = let e' : x ≡ c = cc in rw e' (omega arith)
count_le f (suc i) c (x ∷ cs) e = omega (arith, count_le f i c cs e)

pub count-replicate : (f : Caller → ℕ) (n : ℕ) → f idle ≡ 0 → count f (replicate n idle) ≡ 0
count-replicate f zero e = refl
count-replicate f (suc n) e = omega (arith, e, count-replicate f n e)

-- Before `done` is closed nobody has come in; afterwards exactly one of them waits for the
-- goroutine or has closed the connection.
abbrev pub Tally : Bool → List Caller → Type 0
Tally false cs = (count is_busy cs ≡ 0) × (count is_closed cs ≡ 0)
Tally true cs = count is_waiting cs + count is_closed cs ≡ 1

pub Tally-closed_le : (d : Bool) (cs : List Caller) → Tally d cs → count is_closed cs ≤ 1
Tally-closed_le false cs t = omega (arith, t.1)
Tally-closed_le true cs t = omega (arith, t)

count-busy : (cs : List Caller) → count is_waiting cs + count is_closed cs ≤ count is_busy cs
count-busy [] = omega arith
count-busy (idle ∷ cs) = omega (arith, count-busy cs)
count-busy (waiting ∷ cs) = omega (arith, count-busy cs)
count-busy (back ∷ cs) = omega (arith, count-busy cs)
count-busy (closed e ∷ cs) = omega (arith, count-busy cs)

module _ (i : ℕ) (cs : List Caller) where
  pub Tally-back : get_elem? cs i ≡ some idle → Tally true cs → Tally true (set_caller i back cs)
  Tally-back e t = omega (
    arith,
    count-set_caller is_waiting i idle back cs e,
    count-set_caller is_closed i idle back cs e,
    t,
  )

  pub Tally-waiting :
      get_elem? cs i ≡ some idle → Tally false cs → Tally true (set_caller i waiting cs)
  Tally-waiting e t = omega (
    arith,
    count-set_caller is_waiting i idle waiting cs e,
    count-set_caller is_closed i idle waiting cs e,
    count-busy cs,
    t.0,
  )

  pub Tally-closed :
      (x : Option Error)
      → get_elem? cs i ≡ some waiting
      → Tally true cs
      → Tally true (set_caller i (closed x) cs)
  Tally-closed x e t = omega (
    arith,
    count-set_caller is_waiting i waiting (closed x) cs e,
    count-set_caller is_closed i waiting (closed x) cs e,
    t,
  )

  -- The one that waits is the one that closes.
  pub none_closed : get_elem? cs i ≡ some waiting → Tally true cs → count is_closed cs ≡ 0
  none_closed e t = omega (arith, count_le is_waiting i waiting cs e, t)

  -- Nobody has come in while `done` is open.
  pub busy_done :
      (c : Caller) (d : Bool) → get_elem? cs i ≡ some c → is_busy c ≡ 1 → Tally d cs → d ≡ true
  busy_done c true e b t = refl
  busy_done c false e b t = absurd (omega (arith, count_le is_busy i c cs e, b, t.0))
