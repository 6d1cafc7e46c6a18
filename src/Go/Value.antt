-- ===== src/Go/Value.antt =====
-- A value of type `interface{}`, by its dynamic type. `X` stands for the types that a package adds.
use go_notify.Base.{Option, none, some, ℕ, Bool, List, Bytes}
use go_notify.Base.Int.{ℤ, pos}
use go_notify.Go.Image.{Image}

mutual
  pub data Value (X : Type 0) : Type 0 where
    nil : Value X
    string : Bytes → Value X
    bytes : Bytes → Value X
    bool : Bool → Value X
    int int8 int16 int32 int64 : ℤ → Value X
    uint uint8 uint16 uint32 uint64 : ℕ → Value X
    image : Image → Value X
    -- an `io.Reader`, by its place in the store of readers
    reader : ℕ → Value X
    string_map : List (Bytes × Bytes) → Value X
    value_map : Entries X → Value X
    ext : X → Value X

  -- a `map[string]interface{}`, in the order of one iteration over it
  pub data Entries (X : Type 0) : Type 0 where
    end : Entries X
    entry : Bytes → Value X → Entries X → Entries X

-- The number that a value of an integer type stands for.
unfoldable pub number_of : {X : Type 0} → Value X → Option ℤ
number_of (int v) = some v
number_of (int8 v) = some v
number_of (int16 v) = some v
number_of (int32 v) = some v
number_of (int64 v) = some v
number_of (uint v) = some (pos v)
number_of (uint8 v) = some (pos v)
number_of (uint16 v) = some (pos v)
number_of (uint32 v) = some (pos v)
number_of (uint64 v) = some (pos v)
number_of v = none
