-- ===== src/Storage/Maildir/Flags.antt =====
-- The flags that a file name keeps.
use Prim.Native.String.{[] as empty, ◌∷◌ as ◌▹◌}
use envelope.Prelude.{
  Char, code, String, ◌=ₛ◌, ltb, eq_iff, arith, ◌≡◌, refl, sym, ap, ◌∙◌, Bool, true, false,
  Bool-cases, ◌&&◌, ◌||◌, inl, inr, Option, none, some, List, [], ◌∷◌,
}
use envelope.Storage.Maildir.{
  letter_of, flag_of, place_letter, add_letter, encode_flags, add_flag, decode_flags, flag_draft,
  flag_flagged, flag_answered, flag_seen, flag_deleted,
}

-- Whether a flag stands in a list.
abbrev pub has : String → List String → Bool
has f [] = false
has f (g ∷ flags) = (g =ₛ f) || has f flags

-- Whether Maildir has a letter for the flag.
unfoldable pub is_known : String → Bool
is_known f =
    (f =ₛ flag_draft)
    || ((f =ₛ flag_flagged) || ((f =ₛ flag_answered) || ((f =ₛ flag_seen) || (f =ₛ flag_deleted))))

abbrev means : String → Option String → Bool
means f none = false
means f (some g) = g =ₛ f

has-add_flag :
    (f : String) (o : Option String) (flags : List String)
    → has f (add_flag o flags) ≡ (means f o || has f flags)
has-add_flag f none flags = refl
has-add_flag f (some g) flags = refl

has-place_letter :
    (f : String) (c : Char) (s : String)
    → has f (decode_flags (place_letter c s)) ≡ (means f (flag_of c) || has f (decode_flags s))
unfolding decode_flags
has-place_letter f c empty = has-add_flag f (flag_of c) []
has-place_letter f c (d ▹ s) = elim (Bool-cases (ltb (code c) (code d))) [
  | inl e ↦ rw e (has-add_flag f (flag_of c) (add_flag (flag_of d) (decode_flags s)))
  | inr e ↦ rw e (
      has-add_flag f (flag_of d) (decode_flags (place_letter c s))
      ∙ ground (arith, has-place_letter f c s, has-add_flag f (flag_of d) (decode_flags s)))
]

abbrev decoded_letter : Option Char → Option String
decoded_letter none = none
decoded_letter (some c) = flag_of c

both_true : (b : Bool) → b ≡ (b && true)
both_true true = refl
both_true false = refl

miss : (b : Bool) → false ≡ (b && false)
miss true = refl
miss false = refl

hit : (f g l : String) → (g =ₛ l) ≡ true → (l =ₛ f) ≡ ((g =ₛ f) && true)
hit f g l e = ap (λ x. x =ₛ f) (sym ((eq_iff g l).0 e)) ∙ both_true (g =ₛ f)

shared : (a b k : Bool) → ((a && k) || (b && k)) ≡ ((a || b) && k)
shared true true true = refl
shared true true false = refl
shared true false true = refl
shared true false false = refl
shared false b k = refl

-- A flag's letter means the flag, and a flag without one is lost.
decoded_letter-letter_of :
    (f g : String) → means f (decoded_letter (letter_of g)) ≡ ((g =ₛ f) && is_known g)
unfolding letter_of flag_of is_known
decoded_letter-letter_of f g = elim (Bool-cases (g =ₛ flag_draft)) [
  | inl e ↦ rw e (hit f g flag_draft e)
  | inr a ↦ elim (Bool-cases (g =ₛ flag_flagged)) [
    | inl e ↦ rw (a, e) (hit f g flag_flagged e)
    | inr b ↦ elim (Bool-cases (g =ₛ flag_answered)) [
      | inl e ↦ rw (a, b, e) (hit f g flag_answered e)
      | inr c ↦ elim (Bool-cases (g =ₛ flag_seen)) [
        | inl e ↦ rw (a, b, c, e) (hit f g flag_seen e)
        | inr d ↦ elim (Bool-cases (g =ₛ flag_deleted)) [
          | inl e ↦ rw (a, b, c, d, e) (hit f g flag_deleted e)
          | inr e ↦ rw (a, b, c, d, e) (miss (g =ₛ f))
        ]
      ]
    ]
  ]
]

same_known : (f g : String) → ((g =ₛ f) && is_known g) ≡ ((g =ₛ f) && is_known f)
same_known f g = elim (Bool-cases (g =ₛ f)) [
  | inl e ↦ ap (λ x. (g =ₛ f) && is_known x) ((eq_iff g f).0 e)
  | inr e ↦ rw e refl
]

has-add_letter :
    (f : String) (o : Option Char) (s : String)
    → has f (decode_flags (add_letter o s)) ≡ (means f (decoded_letter o) || has f (decode_flags s))
has-add_letter f none s = refl
has-add_letter f (some c) s = has-place_letter f c s

-- What is decoded from a file name after these flags were encoded in it is exactly those of them
-- that Maildir has a letter for.
pub decode_flags-encode_flags :
    (f : String) (flags : List String)
    → has f (decode_flags (encode_flags flags)) ≡ (has f flags && is_known f)
unfolding encode_flags decode_flags
decode_flags-encode_flags f [] = refl
decode_flags-encode_flags f (g ∷ flags) =
    has-add_letter f (letter_of g) (encode_flags flags)
    ∙ ap (λ b. b || has f (decode_flags (encode_flags flags)))
        (decoded_letter-letter_of f g ∙ same_known f g)
    ∙ ap (λ b. ((g =ₛ f) && is_known f) || b) (decode_flags-encode_flags f flags)
    ∙ shared (g =ₛ f) (has f flags) (is_known f)
