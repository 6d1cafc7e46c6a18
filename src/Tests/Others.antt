-- ===== src/Tests/Others.antt =====
-- internal/util/util.go and windows/notify_windows.go.
use go_notify.Base.{
  List, ◌≡◌, ◌≢◌, ◌⊎◌, refl, [], ◌∷◌, none, some, ◌*◌, last, codes, bytes_eq, arith,
}
use go_notify.Go.Image.{Image, gray, gray16, nrgba, rgba, other_image}
use go_notify.Go.Strings.{has_suffix}
use go_notify.Go.Hex.{hex_value, decode_string}
use go_notify.Util.ReadBytes.{read, failed, read_bytes, read_loop, read_until}
use go_notify.Util.ReadBytes.First.{Found, read_bytes-Found}
use go_notify.Util.Convert.{convert, convert_kinds}
use go_notify.Windows.Event.{
  Choice, take_event, send_balloon, balloon_event, menu_event, running, start, run,
}
use go_notify.Windows.Event.Order.{Runs, run-Runs, balloons_in, menus_in}
use go_notify.Windows.Guid.{Guid, parse, parse_uint}
use go_notify.Windows.Guid.Formats.{parse-of_groups}

read_bytes-Found_example :
    Found (codes "\r\n") (codes "a\nb\r\nc") (read_bytes 7 (codes "a\nb\r\nc") (codes "\r\n"))
read_bytes-Found_example = read_bytes-Found (codes "a\nb\r\nc") (codes "\r\n") (λ e. cc)

-- The line feed alone does not end the line.
read_bytes_line :
    read_bytes 7 (codes "a\nb\r\nc") (codes "\r\n") ≡ read (codes "a\nb\r\n") (codes "c")
unfolding read_bytes read_loop read_until has_suffix last bytes_eq
read_bytes_line = refl

read_bytes-failed : read_bytes 3 (codes "ab") (codes "\r\n") ≡ failed
unfolding read_bytes read_loop read_until has_suffix last bytes_eq
read_bytes-failed = refl

abbrev picture : Image
picture = record { kind = rgba; width = 1; height = 1; stride = 4; pix = 1 ∷ 2 ∷ 3 ∷ 4 ∷ [] }

convert-picture :
    ((rgba ≡ other_image) × (convert (λ k img. img.pix) picture ≡ none))
    ⊎ ((rgba ≡ gray) ⊎ (rgba ≡ nrgba)) × (convert (λ k img. img.pix) picture ≡ some picture)
    ⊎ ((r : Image) × (convert (λ k img. img.pix) picture ≡ some r)
        × (((rgba ≡ gray16) × (r.kind ≡ gray) × (r.stride ≡ r.width))
            ⊎ ((rgba ≢ gray16) × (r.kind ≡ nrgba) × (r.stride ≡ 4 * r.width)))
        × (r.width ≡ 1)
        × (r.height ≡ 1))
convert-picture = convert_kinds (λ k img. img.pix) picture

abbrev guid : Guid
guid = record {
  data1 = 0x01234567;
  data2 = 0x89ab;
  data3 = 0xcdef;
  data4 = 0x01 ∷ 0x23 ∷ 0x45 ∷ 0x67 ∷ 0x89 ∷ 0xab ∷ 0xcd ∷ 0xef ∷ [];
}

-- A text behind the last group.
parse-of_groups_example :
    (parse (codes "01234567-89ab-cdef-0123-456789abcdef, and more") ≡ some guid)
    × (parse (codes "{01234567-89ab-cdef-0123-456789abcdef, and more}") ≡ some guid)
    × (parse (codes "0123456789abcdef0123456789abcdef") ≡ some guid)
unfolding parse_uint decode_string hex_value
parse-of_groups_example =
    parse-of_groups (codes "01234567") (codes "89ab") (codes "cdef") (codes "0123")
      (codes "456789abcdef") refl refl refl refl refl (codes ", and more") (omega arith)

parse_short : parse (codes "{}") ≡ none
unfolding parse
parse_short = refl

-- Two balloon events before the first is received, and a menu event.
abbrev rounds : List Choice
rounds =
    take_event (balloon_event 5)
    ∷ take_event (menu_event (record { id = 1 }))
    ∷ take_event (balloon_event 6)
    ∷ send_balloon
    ∷ []

run-Runs_example : Runs (5 ∷ 6 ∷ []) (record { id = 1 } ∷ []) (run rounds (running start))
unfolding balloons_in menus_in
run-Runs_example = run-Runs rounds
