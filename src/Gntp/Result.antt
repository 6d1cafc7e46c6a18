-- ===== src/Gntp/Result.antt =====
-- Outcomes of the package's functions: a value, one of its errors, or a run-time panic.
use go_notify.Base.{ℕ, ◌≡◌, refl, Bool, true, false, Option, none, some}

-- `protocol` to `pkcs7` are the errors that gntp.go declares; `system` is an error that comes from
-- a call of another package, told by a number.
pub data Failure : Type 0 where
  protocol hash encryption key_length password pkcs7 : Failure
  system : ℕ → Failure

pub data Result {ℓ} (A : Type ℓ) : Type ℓ where
  ok : A → Result A
  err : Failure → Result A
  panic : Result A

infixl 5 ◌>>=◌ ◌>>◌
abbrev pub ◌>>=◌ {ℓ κ} : {S : Type ℓ} {T : Type κ} → Result S → (S → Result T) → Result T
panic >>= next = panic
err why >>= next = err why
ok s >>= next = next s

abbrev pub ◌>>◌ {ℓ} : {T : Type ℓ} → Result (Unit {0}) → Result T → Result T
before >> next = before >>= λ u. next

abbrev pub guard : Bool → Failure → Result (Unit {0})
guard true e = ok tt
guard false e = err e

-- A run-time check that panics.
abbrev pub assert : Bool → Result (Unit {0})
assert true = ok tt
assert false = panic

abbrev pub or_fail {ℓ} : {A : Type ℓ} → Option A → Failure → Result A
or_fail none e = err e
or_fail (some a) e = ok a

pub bind-eq-ok {ℓ κ} :
    {S : Type ℓ} {T : Type κ} (r : Result S) (next : S → Result T) {t : T}
    → r >>= next ≡ ok t
    → (s : S) × (r ≡ ok s) × (next s ≡ ok t)
bind-eq-ok panic next e = cc
bind-eq-ok (err why) next e = cc
bind-eq-ok (ok s) next e = (s, refl, e)

pub guard-eq-ok {ℓ} :
    {B : Type ℓ} (t : Bool) (e : Failure) (k : Result B) {b : B}
    → guard t e >> k ≡ ok b
    → (t ≡ true) × (k ≡ ok b)
guard-eq-ok true e k h = (refl, h)
guard-eq-ok false e k h = cc

pub or_fail-eq-ok {ℓ κ} :
    {A : Type ℓ} {B : Type κ} (o : Option A) (e : Failure) (f : A → Result B) {b : B}
    → or_fail o e >>= f ≡ ok b
    → (a : A) × (o ≡ some a) × (f a ≡ ok b)
or_fail-eq-ok (some a) e f h = (a, refl, h)
or_fail-eq-ok none e f h = cc

pub ok-injective {ℓ} : {A : Type ℓ} {a b : A} → ok a ≡ ok b → a ≡ b
ok-injective h = cc

pub or_fail-eq-ok_some {ℓ} :
    {A : Type ℓ} (o : Option A) (e : Failure) {a : A} → or_fail o e ≡ ok a → o ≡ some a
or_fail-eq-ok_some none e h = cc
or_fail-eq-ok_some (some b) e h = cc
