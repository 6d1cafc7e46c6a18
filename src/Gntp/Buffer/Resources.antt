-- ===== src/Gntp/Buffer/Resources.antt =====
-- The resources of a body: each is listed under the hash of its bytes.
use go_notify.Base.{
  ℕ, ◌≡◌, inl, inr, refl, sym, ap, ◌∙◌, [], ◌++◌, none, some, arith, ◌==◌, ==_iff, if◌then◌else◌,
  Option-cases, Bytes, bytes_eq,
}
use go_notify.Dict.{lookup, insert, lookup-insert}
use go_notify.Go.Hex.{format_hex}
use go_notify.Gntp.Result.{system, Result, ok, err, panic, ok-injective}
use go_notify.Gntp.Crypto.{HashAlgorithm, new_hash}
use go_notify.Go.Value.{reader}
use go_notify.Gntp.Buffer.{Platform, Buffer, icon, uniqueid, read_all, scheme}

uniqueid-ok :
    (p : Platform) (h : HashAlgorithm) (s : Bytes) (b : Buffer) (sum : Bytes → Bytes)
    → new_hash p.crypto h ≡ ok sum
    → uniqueid p h s b
      ≡ ok (scheme ++ format_hex (sum s), record b { list = insert (format_hex (sum s)) s b.list })
unfolding uniqueid
uniqueid-ok p h s b sum e = rw e

uniqueid-hashes :
    (p : Platform) (h : HashAlgorithm) (s : Bytes) (b : Buffer) {r : Bytes × Buffer}
    → uniqueid p h s b ≡ ok r
    → (sum : Bytes → Bytes) × (new_hash p.crypto h ≡ ok sum)
unfolding uniqueid
uniqueid-hashes p h s b {r} e = by_result (new_hash p.crypto h) refl
  where
    by_result :
        (m : Result (Bytes → Bytes))
        → new_hash p.crypto h ≡ m
        → (sum : Bytes → Bytes) × (new_hash p.crypto h ≡ ok sum)
    by_result (ok sum) f = (sum, f)
    by_result (err x) f = let e' = rw f at e in cc
    by_result panic f = let e' = rw f at e in cc

-- `uniqueid` returns the resource's address: the text behind the scheme is the one name that now
-- finds the bytes in the list; under any other name `j` the list finds what it found before, and the
-- text of the body is as it was.
pub uniqueid_sound :
    (p : Platform) (h : HashAlgorithm) (s : Bytes) (b b' : Buffer) (id j : Bytes)
    → uniqueid p h s b ≡ ok (id, b')
    → (k : Bytes) × (id ≡ scheme ++ k)
      × (lookup j b'.list ≡ (if bytes_eq k j then some s else lookup j b.list))
      × (b'.text ≡ b.text)
uniqueid_sound p h s b b' id j e =
    let (sum, hashes) = uniqueid-hashes p h s b e in
    let k = format_hex (sum s) in
    let pair = ok-injective (sym e ∙ uniqueid-ok p h s b sum hashes) in
    let is_b' : b' ≡ record b { list = insert k s b.list } =
      ap (λ (r : Bytes × Buffer). r.1) pair in
    rw is_b' (k, ap (λ (r : Bytes × Buffer). r.0) pair, lookup-insert k j s b.list, refl)

uniqueid-readers :
    (p : Platform) (h : HashAlgorithm) (s : Bytes) (b b' : Buffer) (id : Bytes)
    → uniqueid p h s b ≡ ok (id, b')
    → b'.readers ≡ b.readers
uniqueid-readers p h s b b' id e =
    let (sum, hashes) = uniqueid-hashes p h s b e in
    ap (λ (r : Bytes × Buffer). r.1.readers) (ok-injective (sym e ∙ uniqueid-ok p h s b sum hashes))

abbrev pub emptied : ℕ → Buffer → Buffer
emptied r b = record b { readers = λ n. if n == r then some [] else b.readers n }

after_read : Platform → HashAlgorithm → Result (Bytes × Buffer) → Result (Bytes × Buffer)
after_read p h m = elim m [ ok (a, b') ↦ uniqueid p h a b' | err e ↦ err e | panic ↦ panic ]

read_all-some :
    (r : ℕ) (b : Buffer) (s : Bytes) → b.readers r ≡ some s → read_all r b ≡ ok (s, emptied r b)
unfolding read_all
read_all-some r b s has = ground arith

read_all-none : (r : ℕ) (b : Buffer) → b.readers r ≡ none → read_all r b ≡ err (system 1)
unfolding read_all
read_all-none r b fault = ground arith

icon-reader :
    (p : Platform) (h : HashAlgorithm) (r : ℕ) (b : Buffer) (s : Bytes)
    → b.readers r ≡ some s
    → icon p h (reader r) b ≡ uniqueid p h s (emptied r b)
unfolding icon after_read
icon-reader p h r b s has = ap (after_read p h) (read_all-some r b s has)

icon-reader_fault :
    (p : Platform) (h : HashAlgorithm) (r : ℕ) (b : Buffer)
    → b.readers r ≡ none
    → icon p h (reader r) b ≡ err (system 1)
unfolding icon after_read
icon-reader_fault p h r b fault = ap (after_read p h) (read_all-none r b fault)

-- An icon that is an `io.Reader` is read to its end by the first request that carries it: any later
-- body that carries the same reader, built on the readers that the first one left, gets the
-- resource of no bytes.
pub icon-reader_again :
    (p : Platform) (h : HashAlgorithm) (r : ℕ) (b b' later : Buffer) (id : Bytes)
    → icon p h (reader r) b ≡ ok (id, b')
    → later.readers ≡ b'.readers
    → icon p h (reader r) later ≡ uniqueid p h [] (emptied r later)
icon-reader_again p h r b b' later id e same = elim (Option-cases (b.readers r)) [
  | inl fault ↦ let e' = sym (icon-reader_fault p h r b fault) ∙ e in cc
  | inr (s, has) ↦
      let first =
        uniqueid-readers p h s (emptied r b) b' id (sym (icon-reader p h r b s has) ∙ e) in
      let none_left : later.readers r ≡ some [] = rw (same, first) (rw (==_iff r r).1 refl) in
      icon-reader p h r later [] none_left
]
