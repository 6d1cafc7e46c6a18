-- ===== src/Gntp/Buffer.antt =====
-- The body of a request: `buffer` and `sanitizer` of gntp/gntp.go.
pub mod Preserves
pub mod Sanitizer
pub mod Lined
pub mod Resources
use go_notify.Base.{
  ℕ, Bool, false, List, [], ◌∷◌, ◌++◌, Option, none, some, ◌==◌, if◌then◌else◌, drop, Bytes, codes,
}
use go_notify.Dict.{insert}
use go_notify.Go.Hex.{format_hex}
use go_notify.Go.Decimal.{format_int}
use go_notify.Gntp.Result.{Failure, system, Result, ok, err, panic, or_fail}
use go_notify.Gntp.Crypto.{HashAlgorithm, Crypto, new_hash}
use go_notify.Go.Image.{Image}
use go_notify.Go.Value.{Value, nil, string, bytes, int, image, reader}
use go_notify.Util.Convert.{Draw, convert}

-- This package adds no types to `interface{}`; a value of any other type carries its name.
abbrev pub Any : Type 0
Any = Value Bytes

-- What the body takes from other packages: `png.Encode`, `draw.Draw` and the text that `%v` gives
-- for a value that is neither a string nor an int.
pub record Platform : Type 0 where
  pub crypto : Crypto
  pub png : Image → Option Bytes
  pub draw : Draw
  pub print : Any → Bytes

-- What one byte adds; the flag says that the byte before it is a "\r".
abbrev pub sanitized : Bool → ℕ → Bytes
sanitized after_cr x =
    if after_cr
    then (if x == b'\n' then b'\n' ∷ [] else if x == b'\r' then b' ' ∷ [] else b' ' ∷ x ∷ [])
    else (if x == b'\r' then [] else x ∷ [])

sanitize_from : Bool → Bytes → Bytes
sanitize_from after_cr [] = if after_cr then b' ' ∷ [] else []
sanitize_from after_cr (x ∷ s) = sanitized after_cr x ++ sanitize_from (x == b'\r') s

-- `sanitizer.Replace`: "\r\n" to "\n", and any other "\r" to " ".
unfoldable pub sanitize : Bytes → Bytes
unfolding sanitize_from
sanitize s = sanitize_from false s

-- The reader with a number has these bytes left; `none` is a read error.
abbrev pub Readers : Type 0
Readers = ℕ → Option Bytes

-- `list` in the order of insertion.
pub record Buffer : Type 0 where
  pub text : Bytes
  pub list : List (Bytes × Bytes)
  pub readers : Readers

abbrev pub B : Type 0 → Type 0
B A = Buffer → Result (A × Buffer)

infixl 5 ◌>>=◌ ◌>>◌
abbrev pub ◌>>=◌ : {A C : Type 0} → B A → (A → B C) → B C
◌>>=◌ m f b = elim (m b) [ ok (a, b') ↦ f a b' | err e ↦ err e | panic ↦ panic ]

abbrev pub ◌>>◌ : {C : Type 0} → B (Unit {0}) → B C → B C
m >> k = m >>= λ _. k

abbrev pub return : {A : Type 0} → A → B A
return a b = ok (a, b)

abbrev pub fail : {A : Type 0} → Failure → B A
fail e b = err e

abbrev pub lift : {A : Type 0} → Result A → B A
lift (ok a) b = ok (a, b)
lift (err e) b = err e
lift panic b = panic

abbrev write : Bytes → B (Unit {0})
write s b = ok (tt, record b { text = b.text ++ s })

unfoldable pub crlf : B (Unit {0})
crlf = write (codes "\r\n")

-- `%v` of a header's value, a string sanitized.
unfoldable pub value_text : Platform → Any → Bytes
unfolding sanitize
value_text p (string s) = sanitize s
value_text p (int n) = format_int n
value_text p v = p.print v

unfoldable pub header : Platform → Bytes → Any → B (Unit {0})
unfolding value_text
header p k v = write (k ++ (codes ": " ++ (value_text p v ++ codes "\r\n")))

abbrev pub scheme : Bytes
scheme = codes "x-growl-resource://"

add_resource : Bytes → Bytes → B (Unit {0})
add_resource k v b = ok (tt, record b { list = insert k v b.list })

-- The resource's name is what follows the 19 bytes of the scheme.
unfoldable pub uniqueid : Platform → HashAlgorithm → Bytes → B Bytes
unfolding add_resource
uniqueid p h s = do
  sum ← lift (new_hash p.crypto h)
  let id = scheme ++ format_hex (sum s)
  add_resource (drop 19 id) s
  return id

-- `io.ReadAll` leaves the reader at its end.
unfoldable pub read_all : ℕ → B Bytes
read_all r b = elim (b.readers r) [
  | none ↦ err (system 1)
  | some s ↦ ok (s, record b { readers = λ n. if n == r then some [] else b.readers n })
]

-- The PNG file of an image, once it is converted.
image_bytes : Platform → Image → Result Bytes
image_bytes p img = elim (convert p.draw img) [
  | none ↦ err (system 2)
  | some converted ↦ or_fail (p.png converted) (system 3)
]

unfoldable pub icon : Platform → HashAlgorithm → Any → B Bytes
unfolding uniqueid read_all image_bytes
icon p h nil = return []
icon p h (string s) = return s
icon p h (bytes s) = uniqueid p h s
icon p h (image img) = do s ← lift (image_bytes p img); uniqueid p h s
icon p h (reader r) = do s ← read_all r; uniqueid p h s
icon p h v = fail (system 4)

unfoldable pub resource : Platform → HashAlgorithm → Any → B Bytes
unfolding uniqueid read_all
resource p h (bytes s) = uniqueid p h s
resource p h (reader r) = do s ← read_all r; uniqueid p h s
resource p h v = return []
