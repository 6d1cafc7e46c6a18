-- ===== src/Go/Mime.antt =====
-- `textproto.CanonicalMIMEHeaderKey`.
use go_notify.Base.{
  ℕ, ◌+◌, Bool, true, false, ◌&&◌, ◌||◌, [], ◌∷◌, leb, ◌==◌, if◌then◌else◌, Bytes, codes,
}
use go_notify.Go.Strings.{upper_byte}

in_range : ℕ → ℕ → ℕ → Bool
in_range lo hi c = leb lo c && leb c hi

member : ℕ → Bytes → Bool
member c [] = false
member c (x ∷ s) = c == x || member c s

-- The bytes of a header's key: letters, digits and "!#$%&'*+-.^_`|~".
unfoldable pub is_token_byte : ℕ → Bool
unfolding in_range member
is_token_byte c =
    in_range b'a' b'z' c
    || in_range b'A' b'Z' c
    || in_range b'0' b'9' c
    || member c (codes "!#$%&'*+-.^_`|~")

all_token : Bytes → Bool
unfolding is_token_byte
all_token [] = true
all_token (c ∷ s) = is_token_byte c && all_token s

lower_byte : ℕ → ℕ
unfolding in_range
lower_byte c = if in_range b'A' b'Z' c then c + 32 else c

-- A letter at the start or behind "-" is a capital, any other is small.
capitalize : Bool → Bytes → Bytes
unfolding lower_byte
capitalize upper [] = []
capitalize upper (c ∷ s) = (if upper then upper_byte c else lower_byte c) ∷ capitalize (c == b'-') s

-- A key with any other byte is left alone.
unfoldable pub canonical_key : Bytes → Bytes
unfolding all_token capitalize
canonical_key k = if all_token k then capitalize true k else k
