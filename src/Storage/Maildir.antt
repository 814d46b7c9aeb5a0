-- ===== src/Storage/Maildir.antt =====
-- internal/storage/maildir/maildir.go: the store on a Maildir tree. filepath.Join and the operating
-- system's errors are parameters. A message's key is a file name without a separator, so that its
-- file is the entry of that name in a folder of the mailbox's directory.
pub mod Flags
pub mod Backend
use Prim.Native.String.{[] as empty, ◌∷◌ as ◌▹◌}
use envelope.Prelude.{
  ℕ, Char, code, String, ◌<>◌, ◌=ₛ◌, ◌==◌, quote, strip_prefix, ltb, Bool, true, false, not, ◌&&◌,
  ◌||◌, Option, none, some, List, [], ◌∷◌, ◌++◌, if◌then◌else◌,
}
use envelope.Context.{Context, Error, plain, wrap, Result, ok, err}
use envelope.Storage.{MessageRef, MessageMeta}

abbrev pub flag_draft : String
flag_draft = "\\Draft"

abbrev pub flag_flagged : String
flag_flagged = "\\Flagged"

abbrev pub flag_answered : String
flag_answered = "\\Answered"

abbrev pub flag_seen : String
flag_seen = "\\Seen"

abbrev pub flag_deleted : String
flag_deleted = "\\Deleted"

-- maildirFlagLetters
unfoldable pub letter_of : String → Option Char
letter_of flag =
    if flag =ₛ flag_draft
    then some "D"
    else if flag =ₛ flag_flagged
    then some "F"
    else if flag =ₛ flag_answered
    then some "R"
    else if flag =ₛ flag_seen
    then some "S"
    else if flag =ₛ flag_deleted
    then some "T"
    else none

-- letterToFlag
unfoldable pub flag_of : Char → Option String
flag_of letter =
    if code letter == b'D'
    then some flag_draft
    else if code letter == b'F'
    then some flag_flagged
    else if code letter == b'R'
    then some flag_answered
    else if code letter == b'S'
    then some flag_seen
    else if code letter == b'T'
    then some flag_deleted
    else none

-- sort.Slice, one letter more.
abbrev pub place_letter : Char → String → String
place_letter c empty = c ▹ empty
place_letter c (d ▹ s) =
    let rest = place_letter c s in if ltb (code c) (code d) then c ▹ (d ▹ s) else d ▹ rest

abbrev pub add_letter : Option Char → String → String
add_letter none s = s
add_letter (some c) s = place_letter c s

unfoldable pub encode_flags : List String → String
encode_flags [] = empty
encode_flags (f ∷ flags) = add_letter (letter_of f) (encode_flags flags)

abbrev pub add_flag : Option String → List String → List String
add_flag none flags = flags
add_flag (some f) flags = f ∷ flags

unfoldable pub decode_flags : String → List String
decode_flags empty = []
decode_flags (c ▹ info) = add_flag (flag_of c) (decode_flags info)

abbrev pub info_sep : String
info_sep = ":2,"

abbrev pub behind : Char → Option (String × String) → Option (String × String)
behind c none = none
behind c (some (base, info)) = some (c ▹ base, info)

-- strings.Cut at infoSep.
unfoldable pub cut_info : String → Option (String × String)
cut_info empty = none
cut_info (c ▹ s) =
    let later = behind c (cut_info s) in
    elim (strip_prefix info_sep (c ▹ s)) [ some info ↦ some (empty, info) | none ↦ later ]
