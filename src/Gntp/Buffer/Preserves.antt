-- ===== src/Gntp/Buffer/Preserves.antt =====
-- Properties of the buffer that an action keeps where it does not fail.
use go_notify.Gntp.Result.{Result, ok, err, panic}
use go_notify.Gntp.Buffer.{Buffer, B, ◌>>=◌}

abbrev pub After : {A : Type 0} → (Buffer → Type 0) → Result (A × Buffer) → Type 0
After P (ok (a, b)) = P b
After P (err e) = Unit
After P panic = Unit

abbrev pub Preserves : {A : Type 0} → (Buffer → Type 0) → B A → Type 0
Preserves P m = (b : Buffer) → P b → After P (m b)

pub Preserves-bind :
    {A C : Type 0} (P : Buffer → Type 0) (m : B A) (f : A → B C)
    → Preserves P m
    → ((a : A) → Preserves P (f a))
    → Preserves P (m >>= f)
Preserves-bind {A} {C} P m f h k b v = by_result (m b) (h b v)
  where
    by_result :
        (r : Result (A × Buffer))
        → After P r
        → After P (elim r as (λ _. Result (C × Buffer)) [
          | ok (a, b') ↦ f a b'
          | err e ↦ err e
          | panic ↦ panic
        ])
    by_result (ok (a, b')) w = k a b' w
    by_result (err e) w = tt
    by_result panic w = tt
