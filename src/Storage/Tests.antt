-- ===== src/Storage/Tests.antt =====
-- Flags in a file name, and a delivery to bob.
use Prim.Native.String.{[] as empty, ◌∷◌ as ◌▹◌}
use envelope.Prelude.{code, String, ◌==◌, ◌≡◌, refl, ◌&&◌, none, [], ◌∷◌, if◌then◌else◌}
use envelope.Samples.{live}
use envelope.Storage.Maildir.{encode_flags, decode_flags, letter_of}
use envelope.Storage.Maildir.Flags.{has, is_known, decode_flags-encode_flags}
use envelope.Storage.Maildir.Backend.{WriteFaults, find, write}
use envelope.Storage.Maildir.Backend.Writes.{Written, write-Written}

encoded : encode_flags ("\\Seen" ∷ "Junk" ∷ "\\Answered" ∷ []) ≡ "RS"
unfolding encode_flags letter_of
encoded = refl

decode_flags-encode_flags_example :
    has "\\Seen" (decode_flags (encode_flags ("\\Seen" ∷ "Junk" ∷ [])))
    ≡ (has "\\Seen" ("\\Seen" ∷ "Junk" ∷ []) && is_known "\\Seen")
decode_flags-encode_flags_example = decode_flags-encode_flags "\\Seen" ("\\Seen" ∷ "Junk" ∷ [])

-- Directories that are told apart by the last element of the mailbox.
abbrev last_from : String → String → String
last_from best empty = best
last_from best (c ▹ s) =
    let at_end = last_from s s in if code c == b'/' then at_end else last_from best s

abbrev last_dir : String → String → String
last_dir vhost mailbox = last_from mailbox mailbox

abbrev no_faults : WriteFaults
no_faults = record {
  mkdir = none;
  open_file = none;
  copy = none;
  copied = "";
  sync = none;
  close = none;
  rename = none;
  unlink = none;
}

write-Written_example :
    Written last_dir no_faults live "1.2_3.host" 7 "a.example" "bob/INBOX" "hello" []
      (write last_dir no_faults live "1.2_3.host" 7 "a.example" "bob/INBOX" "hello" [])
unfolding find
write-Written_example =
    write-Written last_dir no_faults live "1.2_3.host" 7 "a.example" "bob/INBOX" "hello" [] refl
