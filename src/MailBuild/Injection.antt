-- ===== src/MailBuild/Injection.antt =====
-- How many lines the header of a composed message has.
use Prim.Native.String.{[] as empty, ◌∷◌ as ◌▹◌}
use text.Mathlib.TextLemmas.{nil-append, cons-append}
use envelope.Prelude.{
  ℕ, ◌+◌, ◌==◌, code, String, ◌<>◌, arith, ◌≡◌, refl, sym, ap, ◌∙◌, false, List, [], ◌∷◌, ◌++◌,
  length, All, has_char, replace, has_char-replace, has_char-replace_self, if◌then◌else◌,
}
use envelope.Context.{Result, ok, err, ◌>>=◌}
use envelope.MailBuild.{
  Message, Parts, sanitize_header_value, write_header, write_headers, fields, listed, build,
  top_part, render, build_body_part, labelled,
}

-- How often a character occurs.
unfoldable pub count_char : ℕ → String → ℕ
count_char n empty = 0
count_char n (c ▹ s) = (if code c == n then 1 else 0) + count_char n s

count_char-append : (n : ℕ) (s t : String) → count_char n (s <> t) ≡ count_char n s + count_char n t
unfolding count_char
count_char-append n empty t = ap (count_char n) (nil-append t) ∙ omega arith
count_char-append n (c ▹ s) t =
    ap (count_char n) (cons-append c s t) ∙ omega (arith, count_char-append n s t)

count_char-absent : (n : ℕ) (s : String) → has_char n s ≡ false → count_char n s ≡ 0
unfolding count_char has_char
count_char-absent n empty h = refl
count_char-absent n (c ▹ s) h = ground (arith, count_char-absent n s)

-- A line break is one of the two characters that end a line.
pub data IsBreak : ℕ → Type 0 where
  return_char : IsBreak 13
  line_feed : IsBreak 10

sanitize_header_value-absent :
    (n : ℕ) (s : String) → IsBreak n → has_char n (sanitize_header_value s) ≡ false
unfolding sanitize_header_value
sanitize_header_value-absent n s return_char =
    has_char-replace 13 10 " " (replace 13 " " s) refl (has_char-replace_self 13 " " s refl)
sanitize_header_value-absent n s line_feed = has_char-replace_self 10 " " (replace 13 " " s) refl

colon : (n : ℕ) → IsBreak n → count_char n ": " ≡ 0
unfolding count_char
colon n return_char = refl
colon n line_feed = refl

line_end : (n : ℕ) → IsBreak n → count_char n "\r\n" ≡ 1
unfolding count_char
line_end n return_char = refl
line_end n line_feed = refl

write_header-count_char :
    (n : ℕ) (name value : String)
    → IsBreak n
    → has_char n name ≡ false
    → count_char n (write_header name value) ≡ 1
unfolding write_header
write_header-count_char n name value b h =
    let safe = sanitize_header_value value in
    omega (
      arith,
      count_char-append n name (": " <> (safe <> "\r\n")),
      count_char-append n ": " (safe <> "\r\n"),
      count_char-append n safe "\r\n",
      count_char-absent n name h,
      count_char-absent n safe (sanitize_header_value-absent n value b),
      colon n b,
      line_end n b,
    )

-- The names of the fields hold no such character.
abbrev pub Clean : ℕ → List (String × String) → Type 0
Clean n = All (λ field. has_char n field.0 ≡ false)

write_headers-count_char :
    (n : ℕ) (list : List (String × String))
    → IsBreak n
    → Clean n list
    → count_char n (write_headers list) ≡ length list
unfolding write_headers count_char
write_headers-count_char n [] b h = refl
write_headers-count_char n ((name, value) ∷ list) b (h, hs) = omega (
  arith,
  count_char-append n (write_header name value) (write_headers list),
  write_header-count_char n name value b h,
  write_headers-count_char n list b hs,
)

Clean-append :
    (n : ℕ) (xs ys : List (String × String)) → Clean n xs → Clean n ys → Clean n (xs ++ ys)
Clean-append n [] ys h k = k
Clean-append n (x ∷ xs) ys (h, hs) k = (h, Clean-append n xs ys hs k)

listed-Clean :
    (n : ℕ) (name : String) (list : List String)
    → has_char n name ≡ false
    → Clean n (listed name list)
listed-Clean n name [] h = tt
listed-Clean n name (s ∷ list) h = (h, tt)

ok_injective : {A : Type 0} {a b : A} → ok a ≡ ok b → a ≡ b
ok_injective h = cc

module _ (p : Parts) where
  -- The names that Build writes itself.
  fields-Clean :
      (n : ℕ) (msg : Message) (content_type : String)
      → IsBreak n
      → Clean n msg.headers
      → Clean n (fields p msg content_type)
  unfolding fields has_char
  fields-Clean n msg content_type return_char h = (
    refl,
    Clean-append 13 (listed "To" msg.to) _ (listed-Clean 13 "To" msg.to refl) (
        Clean-append 13 (listed "Cc" msg.cc) _ (listed-Clean 13 "Cc" msg.cc refl)
          (refl, (refl, (refl, (refl, Clean-append 13 msg.headers _ h (refl, tt)))))),
  )
  fields-Clean n msg content_type line_feed h = (
    refl,
    Clean-append 10 (listed "To" msg.to) _ (listed-Clean 10 "To" msg.to refl) (
        Clean-append 10 (listed "Cc" msg.cc) _ (listed-Clean 10 "Cc" msg.cc refl)
          (refl, (refl, (refl, (refl, Clean-append 10 msg.headers _ h (refl, tt)))))),
  )

  -- What is rendered from a content type and a body.
  rendered :
      (msg : Message) (raw : String) (top : Result (String × String))
      → (top >>= render p msg) ≡ ok raw
      → (content_type body : String) × (raw
          ≡ write_headers (fields p msg content_type) <> ("\r\n" <> body))
  unfolding render
  rendered msg raw (err e) h = absurd (cc h)
  rendered msg raw (ok (content_type, body)) h = (content_type, body, sym (ok_injective h))

  -- A composed message is a header, an empty line and a body, and where no custom header's name holds a
  -- carriage return or a line feed, its header has exactly one of each for each field: no value, be it
  -- a subject, an address or a custom header's, adds a line.
  pub build-count_char :
      (msg : Message) (raw : String)
      → Clean 10 msg.headers
      → Clean 13 msg.headers
      → build p msg ≡ ok raw
      → (content_type body : String) × (raw
          ≡ write_headers (fields p msg content_type) <> ("\r\n" <> body))
        × (count_char 10 (write_headers (fields p msg content_type))
            ≡ length (fields p msg content_type))
        × (count_char 13 (write_headers (fields p msg content_type))
            ≡ length (fields p msg content_type))
  unfolding build
  build-count_char msg raw h k e =
      let (content_type, body, whole) =
        rendered msg raw
          (labelled p "mailbuild: build body part: " (build_body_part p msg.text msg.html)
            >>= top_part p msg)
          (sym opened ∙ e) in
      (
        content_type,
        body,
        whole,
        write_headers-count_char 10 (fields p msg content_type) line_feed
            (fields-Clean 10 msg content_type line_feed h),
        write_headers-count_char 13 (fields p msg content_type) return_char
            (fields-Clean 13 msg content_type return_char k),
      )
    where
      opened : build p msg ≡ (
          (labelled p "mailbuild: build body part: " (build_body_part p msg.text msg.html)
            >>= top_part p msg)
          >>= render p msg)
      opened = refl
