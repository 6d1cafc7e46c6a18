-- ===== src/Gntp/Send/Server.antt =====
-- What a server that knows the password reads of a request that `Client.send` writes.
use go_notify.Base.{
  if◌then◌else◌, ◌≡◌, ◌⊎◌, inl, inr, refl, subst, true, false, [], ◌∷◌, ◌++◌, some, Bool-cases,
  Bytes, ℕ, List, codes, length,
}
use go_notify.Go.Decimal.{format_nat}
use go_notify.Go.Strings.Cut.{Lacks}
use go_notify.Go.Textproto.{read_line}
use go_notify.Go.Textproto.Lines.{read_line-line}
use go_notify.Gntp.Result.{ok}
use go_notify.Gntp.Crypto.{Crypto, HashAlgorithm, EncryptionAlgorithm, is_encrypted}
use go_notify.Gntp.Info.{Info, is_message_type}
use go_notify.Gntp.Info.Verified.{HasCipher-block, Verified}
use go_notify.Gntp.Info.RoundTrip.OneLine.{to_string-one_line}
use go_notify.Gntp.Info.Parse.{parse_info}
use go_notify.Gntp.Info.Print.{to_string, Entropy, set_password}
use go_notify.Gntp.Info.Print.Keyed.{
  Fills, request_info, set_password_sound, parse_info-set_password,
}
use go_notify.Gntp.Info.Crypt.{decrypt}
use go_notify.Gntp.Info.Crypt.Padding.{decrypt-encrypt}
use go_notify.Gntp.Send.{
  Settings, Network, crlf_text, blank_line_text, sealed, body_text, described, resource_text,
  resource_texts, request_text, exchange, request_of, send,
}

-- A text that is sealed, and opens to the data: as it is, or by the cipher of the line.
abbrev pub Seals : Crypto → Info → Bytes → Bytes → Type 0
Seals c j s u =
    ((is_encrypted j.enc ≡ false) × (u ≡ s))
    ⊎ ((is_encrypted j.enc ≡ true) × (decrypt c j u ≡ ok s))

-- The resources as they are written, one behind the other: the identifier, the length of the data as
-- they are written, a blank line, these data, and a blank line.
abbrev pub Sections : Crypto → Info → List (Bytes × Bytes) → Bytes → Type 0
Sections c j [] rs = rs ≡ []
Sections c j ((id, s) ∷ list) rs =
    (u : Bytes) × (more : Bytes) × Seals c j s u
    × Sections c j list more
    × (rs
        ≡ (codes "Identifier: "
            ++ (id
                ++ (codes "\r\nLength: "
                    ++ (format_nat (length u) ++ (codes "\r\n\r\n" ++ (u ++ codes "\r\n\r\n"))))))
          ++ more)

-- The end of the body.
abbrev pub ending : EncryptionAlgorithm → Bytes
ending a = if is_encrypted a then blank_line_text else crlf_text

module _ (c : Crypto) (pw : Bytes) (j : Info) (v : Verified c pw j) where
  sealed-Seals : (s : Bytes) → (u : Bytes) × (sealed c j.enc j s ≡ ok u) × Seals c j s u
  unfolding sealed
  sealed-Seals s = elim (Bool-cases (is_encrypted j.enc)) [
    | inl on ↦
        let (b, _, is_b, fits) = HasCipher-block j _ v.has_cipher on in
        let (u, made, back, _, _, _) = decrypt-encrypt c j b is_b s fits in
        (u, rw (on, sealed) made, inr (on, back))
    | inr off ↦ (s, rw (off, sealed) refl, inl (off, refl))
  ]

  resource_texts-ok :
      (list : List (Bytes × Bytes))
      → (rs : Bytes) × (resource_texts c j.enc j list ≡ ok rs) × Sections c j list rs
  unfolding resource_texts resource_text described
  resource_texts-ok [] = ([], refl, refl)
  resource_texts-ok ((id, s) ∷ list) =
      let (u, made, seals) = sealed-Seals s in
      let (rs, rest, sections) = resource_texts-ok list in
      (described id u ++ rs, rw (made, rest) refl, (u, rs, seals, sections, refl))

  -- The line, a blank line, and the body.
  request_text-Seals :
      (body : Bytes) (list : List (Bytes × Bytes))
      → (u : Bytes) × (rs : Bytes) × (request_text c j.enc j body list
          ≡ ok (to_string j ++ (crlf_text ++ ((u ++ ending j.enc) ++ (rs ++ crlf_text)))))
        × Seals c j body u
        × Sections c j list rs
  unfolding request_text body_text
  request_text-Seals body list =
      let (u, made, seals) = sealed-Seals body in
      let (rs, rest, sections) = resource_texts-ok list in
      (u, rs, rw (made, rest) refl, seals, sections)

module _ (c : Crypto) (salts ivs : Entropy) (fs : Fills salts) (fi : Fills ivs) (x : ℕ)
    (xs : Bytes) where
  abbrev pw : Bytes
  pw = x ∷ xs

  to_string-set_password :
      (t : Bytes) (a : EncryptionAlgorithm) (h : HashAlgorithm) (j : Info)
      → is_message_type t ≡ true
      → set_password c salts ivs pw (request_info t a h) ≡ ok j
      → Lacks b'\n' (to_string j)
  to_string-set_password t a h j known e =
      let k = set_password_sound c salts ivs fs fi x xs t a h j e in
      to_string-one_line c pw j (record { version_is = k.version_is; type_is = rw k.type_is known })
        k.verified k.salt_bytes k.iv_bytes

  -- With a password that is not empty, a `rand.Read` that fills its slice, a server that can be
  -- dialed and a known message type: once the password is set on the request, whatever its body and
  -- resources, a server that reads a line gets the information line, which it reads back whole under the
  -- same password; behind it stands the body, up to the blank line or the line end that closes it; then
  -- the resources in their order, each with its identifier and the length of its data as they are
  -- written; then a line end, and no more. The body and the data of each resource are written as the client
  -- has them, or so that the server decrypts them to that.
  pub send-server_reads :
      (z : Settings) (net : Network) (t : Bytes) (body : Bytes) (list : List (Bytes × Bytes))
      (j : Info)
      → z.password ≡ pw
      → net.dials ≡ true
      → is_message_type t ≡ true
      → set_password c salts ivs pw (request_info t z.enc z.hash_alg) ≡ ok j
      → (u : Bytes) × (rs : Bytes) × (read_line (send c salts ivs z net t body list).written
          ≡ some (to_string j, (u ++ ending j.enc) ++ (rs ++ crlf_text)))
        × (parse_info c (to_string j) pw ≡ ok j)
        × Seals c j body u
        × Sections c j list rs
  unfolding send exchange request_of
  send-server_reads z net t body list j is_pw up known e =
      let k = set_password_sound c salts ivs fs fi x xs t z.enc z.hash_alg j e in
      let (u, rs, text, seals, sections) = request_text-Seals c pw j k.verified body list in
      let line = to_string-set_password t z.enc z.hash_alg j known e in
      let asked : request_text c z.enc j body list
          ≡ ok (to_string j ++ (crlf_text ++ ((u ++ ending j.enc) ++ (rs ++ crlf_text)))) =
        subst
          (λ (a : EncryptionAlgorithm).
            request_text c a j body list
            ≡ ok (to_string j ++ (crlf_text ++ ((u ++ ending j.enc) ++ (rs ++ crlf_text)))))
          k.enc_is text in
      (
        u,
        rs,
        rw (up, is_pw) (rw (e, asked) (read_line-line (to_string j) _ line)),
        parse_info-set_password c salts ivs fs fi x xs t z.enc z.hash_alg j known e,
        seals,
        sections,
      )
