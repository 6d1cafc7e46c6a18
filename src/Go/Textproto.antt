-- ===== src/Go/Textproto.antt =====
-- Package net/textproto as gntp/ uses it: ReadLine, ReadMIMEHeader, and Get and Del of a MIMEHeader.
pub mod Lines
pub mod Headers
use go_notify.Base.{
  ℕ, ◌+◌, ◌-◌, Bool, true, false, not, ◌&&◌, ◌||◌, List, [], ◌∷◌, ◌++◌, Option, none, some, leb,
  ◌==◌, if◌then◌else◌, length, take, drop, last, Bytes, bytes_eq,
}
use go_notify.Go.Strings.{index_byte}
use go_notify.Go.Mime.{canonical_key, is_token_byte}

-- The input cut behind each "\n"; the last line may have none.
push : ℕ → List Bytes → List Bytes
push c [] = (c ∷ []) ∷ []
push c (l ∷ ls) = (c ∷ l) ∷ ls

unfoldable pub raw_lines : Bytes → List Bytes
unfolding push
raw_lines [] = []
raw_lines (c ∷ s) = let ls = raw_lines s in if c == b'\n' then (c ∷ []) ∷ ls else push c ls

unfoldable pub join : List Bytes → Bytes
join [] = []
join (l ∷ ls) = l ++ join ls

-- `if s[len(s)-1] == c`.
abbrev pub ends_with : ℕ → Bytes → Bool
ends_with c s = elim (last s) [ none ↦ false | some x ↦ x == c ]

unfoldable pub drop_last : Bytes → Bytes
drop_last s = take (length s - 1) s

-- A line without its "\n" or "\r\n".
unfoldable pub chop : Bytes → Bytes
chop l =
    if ends_with b'\n' l
    then (if ends_with b'\r' (drop_last l) then drop_last (drop_last l) else drop_last l)
    else l

-- `ReadLine`: the line, and what is left to be read; `none` is the error at the end of the input.
unfoldable pub read_line : Bytes → Option (Bytes × Bytes)
unfolding raw_lines chop join
read_line s = elim (raw_lines s) [ [] ↦ none | l ∷ ls ↦ some (chop l, join ls) ]

abbrev pub is_blank : ℕ → Bool
is_blank c = c == b' ' || c == b'\t'

abbrev pub starts_blank : Bytes → Bool
starts_blank [] = false
starts_blank (c ∷ s) = is_blank c

unfoldable pub trim_blank_left : Bytes → Bytes
trim_blank_left [] = []
trim_blank_left (c ∷ s) = if is_blank c then trim_blank_left s else c ∷ s

keep_unless_blank : ℕ → Bytes → Bytes
keep_unless_blank c [] = if is_blank c then [] else c ∷ []
keep_unless_blank c (d ∷ s) = c ∷ d ∷ s

trim_blank_right : Bytes → Bytes
unfolding keep_unless_blank
trim_blank_right [] = []
trim_blank_right (c ∷ s) = keep_unless_blank c (trim_blank_right s)

unfoldable pub trim_blank : Bytes → Bytes
unfolding trim_blank_left trim_blank_right
trim_blank s = trim_blank_right (trim_blank_left s)

-- A `MIMEHeader`: the values in the order in which they were added, each with its key.
abbrev pub Header : Type 0
Header = List (Bytes × Bytes)

find_first : Bytes → Header → Bytes
find_first k [] = []
find_first k ((j, v) ∷ h) = if bytes_eq j k then v else find_first k h

remove_all : Bytes → Header → Header
remove_all k [] = []
remove_all k ((j, v) ∷ h) =
    let rest = remove_all k h in if bytes_eq j k then rest else (j, v) ∷ rest

unfoldable pub get : Bytes → Header → Bytes
unfolding find_first canonical_key
get k h = find_first (canonical_key k) h

unfoldable pub del : Bytes → Header → Header
unfolding remove_all canonical_key
del k h = remove_all (canonical_key k) h

-- `done` at the empty line, with what is left to be read; `ended` at the reader's error; `malformed`
-- is a `ProtocolError`.
pub data Mime : Type 0 where
  done : Header → Bytes → Mime
  ended : Header → Mime
  malformed : Mime

-- A key's byte may also be a blank; a value's is a tab or no control character.
key_byte : ℕ → Bool
unfolding is_token_byte
key_byte c = is_token_byte c || c == b' '

value_byte : ℕ → Bool
value_byte c = c == b'\t' || leb 0x20 c && not (c == 0x7f)

all_bytes : (ℕ → Bool) → Bytes → Bool
all_bytes p [] = true
all_bytes p (c ∷ s) = p c && all_bytes p s

-- The key and the value of a line, added unless the key is empty.
add_pair : Bytes → Bytes → Header → Header
unfolding trim_blank_left canonical_key
add_pair [] v h = h
add_pair (c ∷ k) v h = h ++ (canonical_key (c ∷ k), trim_blank_left v) ∷ []

add_line : Bytes → Header → Option Header
unfolding index_byte key_byte value_byte all_bytes add_pair
add_line kv h = elim (index_byte b':' kv) [
  | none ↦ none
  | some x ↦
      if all_bytes key_byte (take x kv) && all_bytes value_byte (drop (x + 1) kv)
      then some (add_pair (take x kv) (drop (x + 1) kv) h)
      else none
]

-- The first line of a field, or what it is instead.
pub data Start : Type 0 where
  blank_line no_colon : Start
  field : Bytes → Start

start_of : Bytes → Start
unfolding index_byte trim_blank
start_of [] = blank_line
start_of (c ∷ l) = elim (index_byte b':' (c ∷ l)) [
  | none ↦ no_colon
  | some x ↦ field (trim_blank (c ∷ l))
]

-- `fields pending h lines`: `pending` is the field that is read, to which a line that starts with a
-- blank is appended.
fields : Option Bytes → Header → List Bytes → Mime
unfolding add_line start_of chop trim_blank
fields none h [] = ended h
fields none h (l ∷ ls) = elim (start_of (chop l)) [
  | blank_line ↦ done h (join ls)
  | no_colon ↦ malformed
  | field kv ↦ fields (some kv) h ls
]
fields (some kv) h [] = elim (add_line kv h) [ none ↦ malformed | some h' ↦ ended h' ]
fields (some kv) h (l ∷ ls) = elim (starts_blank l) [
  | true ↦ fields (some (kv ++ b' ' ∷ trim_blank (chop l))) h ls
  | false ↦ elim (add_line kv h) [
    | none ↦ malformed
    | some h' ↦ elim (start_of (chop l)) [
      | blank_line ↦ done h' (join ls)
      | no_colon ↦ malformed
      | field kv' ↦ fields (some kv') h' ls
    ]
  ]
]

unfoldable pub read_header : Bytes → Mime
unfolding fields raw_lines join
read_header s =
    let read = fields none [] (raw_lines s) in if starts_blank s then malformed else read
