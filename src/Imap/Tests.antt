-- ===== src/Imap/Tests.antt =====
-- A session of ann@a.example, on a store with two messages in every mailbox.
use envelope.Prelude.{ℕ, ◌≡◌, refl, subst, ◌==◌, false, none, String, ◌=ₛ◌, cut, List, [], ◌∷◌, All}
use envelope.Prelude.Dict.{insert, delete}
use envelope.Context.{plain, ok}
use envelope.Storage.{MessageMeta, Store}
use envelope.Directory.{parse_address}
use envelope.Samples.{shelf_store, hosts_all}
use envelope.Imap.{
  Parts, Piece, StoreFlags, store_flags_add, seq_set, new_session, login, select, list_mailbox,
  store, num_set_contains, apply_store_op, show_flags, store,
}
use envelope.Imap.Confined.{
  Command, logs_in, selects, stores, step, run, ListsItsOwn, IsConfined, run-IsConfined,
}

abbrev message_at : String → String → String → MessageMeta
message_at key vhost mailbox = record {
  ref = record { vhost = vhost; mailbox = mailbox; key = key };
  size = 5;
  flags = "\\Seen" ∷ [];
  created_at = none;
}

abbrev two_everywhere : Store
two_everywhere = record shelf_store {
  list_mailbox =
      λ ctx vhost mailbox s. ok (message_at "2" vhost mailbox ∷ message_at "1" vhost mailbox ∷ []);
}

abbrev parts : Parts
parts = record {
  dir = hosts_all;
  store = two_everywhere;
  NumSet = ℕ;
  seq_contains = λ set n. set == n;
  uid_contains = λ set n. set == n;
  matches = λ reference pattern. pattern =ₛ "*";
  Writer = List Piece;
  send = λ piece w. piece ∷ w;
  send_failing = λ piece w. (none, piece ∷ w);
  auth_failed = plain "authentication failed";
}

ok_injective : {A : Type 0} {a b : A} → ok a ≡ ok b → a ≡ b
ok_injective h = cc

parts-ListsItsOwn : ListsItsOwn parts
parts-ListsItsOwn ctx vhost mailbox stored metas e =
    subst (λ m. All (λ x. (x.ref.vhost ≡ vhost) × (x.ref.mailbox ≡ mailbox)) m) (ok_injective e)
      ((refl, refl), ((refl, refl), tt))

abbrev add_flagged : StoreFlags
add_flagged = record { op = store_flags_add; silent = false; flags = "\\Flagged" ∷ [] }

abbrev commands : List (Command ℕ × two_everywhere.State × List Piece)
commands =
    (logs_in "ann@a.example" "wrong", [], [])
    ∷ (logs_in "ann@a.example" "secret", [], [])
    ∷ (selects "INBOX", [], [])
    ∷ (stores (seq_set 2) add_flagged, [], [])
    ∷ []

abbrev flags_in : List MessageMeta → List (String × List String)
flags_in [] = []
flags_in (m ∷ view) = (m.ref.key, m.flags) ∷ flags_in view

-- The view is sorted by key, and STORE 2 +FLAGS changes its second message.
flagged_second :
    flags_in (run parts commands new_session).view
    ≡ ("1", "\\Seen" ∷ []) ∷ ("2", "\\Flagged" ∷ "\\Seen" ∷ []) ∷ []
unfolding run step new_session login parse_address cut select list_mailbox store num_set_contains
    apply_store_op show_flags insert delete
flagged_second = refl

run-IsConfined_example : IsConfined parts (run parts commands new_session)
run-IsConfined_example = run-IsConfined parts parts-ListsItsOwn commands

abbrev both : List MessageMeta
both = message_at "1" "a.example" "ann/INBOX" ∷ message_at "2" "a.example" "ann/INBOX" ∷ []
