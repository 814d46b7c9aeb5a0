-- ===== src/Directory/Addresses.antt =====
-- ParseAddress splits at the first @.
use Prim.Native.String.{String, [], ◌∷◌, ◌++◌ as ◌<>◌}
use Prim.Native.Char.{Char, code}
use text.Mathlib.TextLemmas.{nil-append, cons-append}
use text.Mathlib.TextEquality.{Char-path}
use envelope.Prelude.{
  ℕ, ◌≡◌, refl, ap, false, Option, none, some, arith, cut, has_char, ◌==◌, Bool-cases, inl, inr,
  ◌≢◌, eq_iff, in_front, ◌↔◌, sym, ◌∙◌, subst,
}
use envelope.Directory.{parse_address, accept}

-- What strings.Cut returns at the separator `n`.
abbrev CutAt : ℕ → String → Option (String × String) → Type 0
CutAt n s none = has_char n s ≡ false
CutAt n s (some (head, tail)) =
    (has_char n head ≡ false) × ((c : Char) × (code c ≡ n) × (s ≡ head <> (c ∷ tail)))

in_front-CutAt :
    (n : ℕ) (c : Char) (s : String) (r : Option (String × String))
    → (code c == n) ≡ false
    → CutAt n s r
    → CutAt n (c ∷ s) (in_front c r)
unfolding has_char
in_front-CutAt n c s none h e = rw (h, e)
in_front-CutAt n c s (some (head, tail)) h (clear, (d, at_n, e)) =
    (rw (h, clear), (d, at_n, ap (◌∷◌ c) e ∙ sym (cons-append c head (d ∷ tail))))

cut-CutAt : (n : ℕ) (s : String) → CutAt n s (cut n s)
unfolding cut has_char
cut-CutAt n [] = refl
cut-CutAt n (c ∷ s) = elim (Bool-cases (code c == n)) [
  | inl found ↦ rw (found, cut) (refl, (c, ground (arith, found), sym (nil-append (c ∷ s))))
  | inr other ↦ rw (other, cut) (in_front-CutAt n c s (cut n s) other (cut-CutAt n s))
]

cut-append :
    (n : ℕ) (head : String) (c : Char) (tail : String)
    → has_char n head ≡ false
    → code c ≡ n
    → cut n (head <> (c ∷ tail)) ≡ some (head, tail)
unfolding cut has_char
cut-append n [] c tail clear at_n = rw nil-append (ground (arith, at_n))
cut-append n (d ∷ head) c tail clear at_n =
    rw cons-append (ground (arith, cut-append n head c tail))

at_append : (s : String) → "@" <> s ≡ "@" ∷ s
at_append s = cons-append "@" "" s ∙ ap (◌∷◌ "@") (nil-append s)

at_sign : (c : Char) → code c ≡ b'@' → c ≡ "@"
at_sign c e = Char-path c "@" e

accept-some :
    (r : Option (String × String)) (local domain : String)
    → accept r ≡ some (local, domain)
    → (r ≡ some (local, domain)) × (local ≢ "") × (domain ≢ "")
accept-some none local domain e = absurd (cc e)
accept-some (some (l, d)) local domain e = ground (arith, eq_iff l "", eq_iff d "")

-- ParseAddress accepts an address exactly when it is a local part without an @, an @, and a domain,
-- neither of them empty; the split is at the first @.
pub parse_address_iff :
    (addr local domain : String)
    → (parse_address addr ≡ some (local, domain)) ↔ (
        (addr ≡ local <> ("@" <> domain))
        × (has_char b'@' local ≡ false)
        × (local ≢ "")
        × (domain ≢ ""))
unfolding parse_address
parse_address_iff addr local domain = (parts, joined)
  where
    parts :
        accept (cut b'@' addr) ≡ some (local, domain)
        → (addr ≡ local <> ("@" <> domain))
          × (has_char b'@' local ≡ false)
          × (local ≢ "")
          × (domain ≢ "")
    parts e =
        let (found, named, hosted) = accept-some (cut b'@' addr) local domain e in
        let (clear, (c, at_n, whole)) = subst (CutAt b'@' addr) found (cut-CutAt b'@' addr) in
        (
          whole
              ∙ ap (λ x. local <> (x ∷ domain)) (at_sign c at_n)
              ∙ ap (◌<>◌ local) (sym (at_append domain)),
          clear,
          named,
          hosted,
        )

    joined :
        (addr ≡ local <> ("@" <> domain))
          × (has_char b'@' local ≡ false)
          × (local ≢ "")
          × (domain ≢ "")
        → accept (cut b'@' addr) ≡ some (local, domain)
    joined (whole, clear, named, hosted) =
        rw (whole, at_append domain, cut-append b'@' local "@" domain clear refl)
          (ground (arith, eq_iff local "", eq_iff domain ""))
