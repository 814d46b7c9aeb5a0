-- ===== src/Retention/Tests.antt =====
-- A purge of one vhost with an old message and a young one.
use envelope.Prelude.{
  ℕ, suc, ◌-◌, ◌≡◌, ◌≢◌, ◌&&◌, Bool, true, Bool-cases, inl, inr, refl, ap, pos, pos_part, none,
  some, String, ◌=ₛ◌, eq_iff, List, [], ◌∷◌, ◌++◌, length, length-append, take, arith,
  if◌then◌else◌,
}
use envelope.Context.{Context, background, plain, Result, ok, err}
use envelope.Storage.{Store, MessageRef, MessageMeta}
use envelope.Directory.{Vhost}
use envelope.Samples.{live, vhost_at}
use envelope.Retention.{
  Parts, default_vhost_page_size, default_days, days_of, has_expired, purge_messages, purge_vhost,
  purge_all, sweep,
}
use envelope.Retention.Pages.{IsListing, sweep-purge_all}
use envelope.Retention.Spared.{purge_vhost-IsSpared}

abbrev only : Vhost
only = vhost_at "a.example" (pos 5)

abbrev message_at : String → MessageRef
message_at key = record { vhost = "a.example"; mailbox = "ann/INBOX"; key = key }

abbrev entry : String → ℕ → MessageMeta
entry key created = record { ref = message_at key; size = 1; flags = []; created_at = some created }

-- A store that counts the calls of Delete.
abbrev counter : Store
counter = record {
  State = ℕ;
  write = λ ctx vhost mailbox body s. (ok (message_at "new"), s);
  read = λ ctx ref s. ok (ok ref.key);
  list_mailbox = λ ctx vhost mailbox s. ok [];
  list_vhost = λ ctx vhost s. ok (entry "old" 1 ∷ entry "young" 99 ∷ []);
  update_flags = λ ctx ref flags s. (none, s);
  delete_message = λ ctx ref s. (none, suc s);
}

abbrev list_one : Context → String → ℕ → Result (List Vhost)
list_one ctx cursor n = if cursor =ₛ "" then ok (take n (only ∷ [])) else ok []

abbrev parts : Parts
parts = record {
  store = counter;
  list_vhosts = list_one;
  days_before = λ days t. t - pos_part days;
}

abbrev noon : Vhost → ℕ
noon v = 100

old_deleted : purge_vhost parts (pos 0) noon (background "c1") only 0 ≡ 1
unfolding purge_vhost purge_messages has_expired days_of default_days
old_deleted = refl

abbrev tail : List Vhost → List Vhost
tail [] = []
tail (v ∷ rest) = rest

abbrev first_id : List Vhost → String
first_id [] = ""
first_id (v ∷ rest) = v.id

listed :
    (id : String) (later : List Vhost)
    → "v" ≡ id
    → [] ≡ later
    → list_one live id default_vhost_page_size ≡ ok (take default_vhost_page_size later)
listed id later e f = rw (← e, ← f) refl

after_first :
    (ctx : Context) (earlier : List Vhost) (v : Vhost) (later : List Vhost)
    → only ∷ [] ≡ earlier ++ v ∷ later
    → list_one ctx v.id default_vhost_page_size ≡ ok (take default_vhost_page_size later)
after_first ctx [] v later e = listed v.id later (ap first_id e) (ap tail e)
after_first ctx (x ∷ earlier) v later e =
    absurd (omega (arith, ap length e, length-append earlier (v ∷ later)))

one_listed : IsListing default_vhost_page_size list_one (only ∷ [])
one_listed = record { first_page = λ ctx. refl; next_page = after_first }

sweep-purge_all_example :
    sweep parts (pos 0) noon 2 (background "c1") 0
    ≡ purge_all parts (pos 0) noon (background "c1") (only ∷ []) 0
sweep-purge_all_example =
    sweep-purge_all parts (pos 0) noon (only ∷ []) "c1" 2 0 one_listed (omega arith)

-- A store that keeps messages with the times of their creation, and deletes them.
abbrev Drawer : Type 0
Drawer = List (MessageRef × String × ℕ)

abbrev same_ref : MessageRef → MessageRef → Bool
same_ref a b = (a.vhost =ₛ b.vhost) && ((a.mailbox =ₛ b.mailbox) && (a.key =ₛ b.key))

find_ref : MessageRef → Drawer → Result (Result String)
find_ref ref [] = err (plain "not found")
find_ref ref ((r, body, created) ∷ s) =
    let later = find_ref ref s in if same_ref r ref then ok (ok body) else later

without_ref : MessageRef → Drawer → Drawer
without_ref ref [] = []
without_ref ref ((r, body, created) ∷ s) =
    let rest = without_ref ref s in if same_ref r ref then rest else (r, body, created) ∷ rest

metas : Drawer → List MessageMeta
metas [] = []
metas ((r, body, created) ∷ s) =
    record { ref = r; size = 1; flags = []; created_at = some created } ∷ metas s

same_refs : (r a b : MessageRef) → same_ref r a ≡ true → same_ref r b ≡ true → a ≡ b
same_refs r a b h k =
    let vhosts : a.vhost ≡ b.vhost =
      ground (arith, h, k, eq_iff r.vhost a.vhost, eq_iff r.vhost b.vhost) in
    let mailboxes : a.mailbox ≡ b.mailbox =
      ground (arith, h, k, eq_iff r.mailbox a.mailbox, eq_iff r.mailbox b.mailbox) in
    let keys : a.key ≡ b.key = ground (arith, h, k, eq_iff r.key a.key, eq_iff r.key b.key) in
    cc (vhosts, mailboxes, keys)

find_ref-without_ref :
    (ref other : MessageRef) (s : Drawer)
    → ref ≢ other
    → find_ref other (without_ref ref s) ≡ find_ref other s
unfolding find_ref without_ref
find_ref-without_ref ref other [] h = refl
find_ref-without_ref ref other ((r, body, created) ∷ s) h = elim (Bool-cases (same_ref r ref)) [
  | inr e ↦ rw (e, without_ref) (rw (find_ref-without_ref ref other s h) refl)
  | inl e ↦ elim (Bool-cases (same_ref r other)) [
    | inl f ↦ absurd (h (same_refs r ref other e f))
    | inr f ↦ rw (e, f, without_ref) (find_ref-without_ref ref other s h)
  ]
]

abbrev drawer : Store
drawer = record {
  State = Drawer;
  write = λ ctx vhost mailbox body s. (ok (message_at "new"), (message_at "new", body, 100) ∷ s);
  read = λ ctx ref s. find_ref ref s;
  list_mailbox = λ ctx vhost mailbox s. ok (metas s);
  list_vhost = λ ctx vhost s. ok (metas s);
  update_flags = λ ctx ref flags s. (none, s);
  delete_message = λ ctx ref s. (none, without_ref ref s);
}

abbrev tidying : Parts
tidying = record {
  store = drawer;
  list_vhosts = list_one;
  days_before = λ days t. t - pos_part days;
}

abbrev two_messages : Drawer
two_messages = (message_at "old", "x", 1) ∷ (message_at "young", "y", 99) ∷ []

old_purged :
    purge_vhost tidying (pos 0) noon (background "c1") only two_messages
    ≡ (message_at "young", "y", 99) ∷ []
unfolding purge_vhost purge_messages has_expired days_of default_days without_ref metas
old_purged = refl

purge_vhost-IsSpared_example :
    find_ref
      (message_at "young")
      (purge_vhost tidying (pos 0) noon (background "c1") only two_messages)
    ≡ find_ref (message_at "young") two_messages
unfolding metas
purge_vhost-IsSpared_example =
    purge_vhost-IsSpared tidying (pos 0) noon (background "c1") only (pos 90) (message_at "young")
      (metas two_messages) two_messages
      (record { others = λ ctx ref other s h. find_ref-without_ref ref other s h })
      (inr (refl, inr (refl, refl))) refl
      (
        λ e. absurd (ground (arith, eq_iff "old" "young", ap (λ r. r.key) e)),
        (λ e. inr (99, refl, omega arith), tt),
      )
