-- ===== src/Gntp/Buffer/Lined.antt =====
-- The text of a body is a list of lines: no value can end one early.
use go_notify.Base.{
  ℕ, zero, suc, ◌/◌, ◌≡◌, inl, inr, refl, sym, ap, ◌∙◌, subst, List, [], ◌∷◌, ◌++◌, append_assoc,
  arith, ltb, Bool-cases, Bytes, codes,
}
use go_notify.Base.Int.{ℤ, negsuc}
use go_notify.Go.Decimal.{format_int}
use go_notify.Gntp.Result.{Result, ok, err, panic}
use go_notify.Gntp.Crypto.{HashAlgorithm}
use go_notify.Go.Value.{nil, string, bytes, int, image, reader}
use go_notify.Base.Int.{pos}
use go_notify.Go.Decimal.{format_nat, decimal}
use go_notify.Go.Strings.Cut.{Lacks, Lacks-append}
use go_notify.Gntp.Buffer.{
  Any, Platform, Buffer, ◌>>=◌, lift, crlf, header, icon, resource, value_text, uniqueid, read_all,
  image_bytes,
}
use go_notify.Gntp.Buffer.Sanitizer.{sanitize-Lacks}
use go_notify.Gntp.Buffer.Preserves.{Preserves, Preserves-bind}

-- Each line with the "\r\n" behind it.
abbrev pub render : List Bytes → Bytes
render [] = []
render (l ∷ ls) = l ++ b'\r' ∷ b'\n' ∷ render ls

abbrev pub AllLack : List Bytes → Type 0
AllLack [] = Unit
AllLack (l ∷ ls) = Lacks b'\r' l × AllLack ls

pub record IsLined (t : Bytes) : Type 0 where
  pub lines : List Bytes
  pub text_is : t ≡ render lines
  pub no_cr : AllLack lines

render-append : (ls ms : List Bytes) → render (ls ++ ms) ≡ render ls ++ render ms
render-append [] ms = refl
render-append (l ∷ ls) ms =
    ap (λ z. l ++ b'\r' ∷ b'\n' ∷ z) (render-append ls ms)
    ∙ sym (append_assoc l (b'\r' ∷ b'\n' ∷ render ls) (render ms))

AllLack-append : (ls ms : List Bytes) → AllLack ls → AllLack ms → AllLack (ls ++ ms)
AllLack-append [] ms h k = k
AllLack-append (l ∷ ls) ms h k = (h.0, AllLack-append ls ms h.1 k)

IsLined-append : (t l : Bytes) → Lacks b'\r' l → IsLined t → IsLined (t ++ (l ++ codes "\r\n"))
IsLined-append t l k h = record {
  lines = h.lines ++ l ∷ [];
  text_is = ap (λ z. z ++ (l ++ codes "\r\n")) h.text_is ∙ sym (render-append h.lines (l ∷ []));
  no_cr = AllLack-append h.lines (l ∷ []) h.no_cr (k, tt);
}

decimal-Lacks : (f n : ℕ) → Lacks b'\r' (decimal f n)
unfolding decimal
decimal-Lacks zero n = tt
decimal-Lacks (suc f) n = elim (Bool-cases (ltb n 10)) [
  | inl small ↦ rw small ((λ e. absurd (omega arith)), tt)
  | inr big ↦ rw big (
      Lacks-append b'\r' (decimal f (n / 10)) _ (decimal-Lacks f (n / 10))
        ((λ e. absurd (omega arith)), tt))
]

format_int-Lacks : (z : ℤ) → Lacks b'\r' (format_int z)
unfolding format_int format_nat
format_int-Lacks (pos n) = decimal-Lacks (suc n) n
format_int-Lacks (negsuc n) = ((λ e. absurd (omega arith)), decimal-Lacks (suc (suc n)) (suc n))

-- The text that `%v` gives for other values holds no "\r".
abbrev pub PrintsLack : Platform → Type 0
PrintsLack p = (v : Any) → Lacks b'\r' (p.print v)

module _ (p : Platform) (prints : PrintsLack p) where
  value_text-Lacks : (v : Any) → Lacks b'\r' (value_text p v)
  unfolding value_text
  value_text-Lacks (string s) = sanitize-Lacks s
  value_text-Lacks (int n) = format_int-Lacks n
  value_text-Lacks v = prints v

  abbrev pub Lined : Buffer → Type 0
  Lined b = IsLined b.text

  pub header-Lined : (k : Bytes) (v : Any) → Lacks b'\r' k → Preserves Lined (header p k v)
  unfolding header
  header-Lined k v l b h =
      let line = k ++ (codes ": " ++ value_text p v) in
      let lacks : Lacks b'\r' line =
        Lacks-append b'\r' k _ l
          ((λ e. absurd (omega arith)), ((λ e. absurd (omega arith)), value_text-Lacks v)) in
      subst (λ z. IsLined (b.text ++ z))
        (append_assoc k (codes ": " ++ value_text p v) (codes "\r\n"))
        (IsLined-append b.text line lacks h)

  pub crlf-Lined : Preserves Lined crlf
  unfolding crlf
  crlf-Lined b h = IsLined-append b.text [] tt h

  uniqueid-Lined : (h : HashAlgorithm) (s : Bytes) → Preserves Lined (uniqueid p h s)
  unfolding uniqueid
  uniqueid-Lined h s b v = ground arith

  read_all-Lined : (r : ℕ) → Preserves Lined (read_all r)
  unfolding read_all
  read_all-Lined r b v = ground arith

  reader-Lined : (h : HashAlgorithm) (r : ℕ) → Preserves Lined (read_all r >>= λ s. uniqueid p h s)
  reader-Lined h r =
      Preserves-bind Lined (read_all r) _ (read_all-Lined r) (λ s. uniqueid-Lined h s)

  lift-Lined : {A : Type 0} (m : Result A) → Preserves Lined (lift m)
  lift-Lined (ok a) b v = v
  lift-Lined (err e) b v = tt
  lift-Lined panic b v = tt

  pub icon-Lined : (h : HashAlgorithm) (v : Any) → Preserves Lined (icon p h v)
  unfolding icon
  icon-Lined h nil = λ b v. v
  icon-Lined h (string s) = λ b v. v
  icon-Lined h (bytes s) = uniqueid-Lined h s
  icon-Lined h (image img) =
      Preserves-bind Lined (lift (image_bytes p img)) _ (lift-Lined (image_bytes p img))
        (λ s. uniqueid-Lined h s)
  icon-Lined h (reader r) = reader-Lined h r
  icon-Lined h _ = λ b v. tt

  pub resource-Lined : (h : HashAlgorithm) (v : Any) → Preserves Lined (resource p h v)
  unfolding resource
  resource-Lined h (bytes s) = uniqueid-Lined h s
  resource-Lined h (reader r) = reader-Lined h r
  resource-Lined h _ = λ b v. v
