-- ===== src/Samples.antt =====
-- Concrete parts for the tests: a random source, a store, a network, jobs.
pub mod Tally
use envelope.Prelude.{
  ℕ, ℤ, pos, negsuc, pos_part, ◌≡◌, refl, ◌+◌, ◌%◌, ◌/◌, ◌<◌, Bool, true, false, ◌&&◌, ◌==◌, ◌=ₛ◌,
  Option, none, some, String, List, [], ◌∷◌, ◌++◌, length, decimal, arith, if◌then◌else◌,
}
use envelope.Context.{Context, SmtpError, Error, plain, smtp, Result, ok, err}
use envelope.Storage.{MessageRef, MessageMeta, Store}
use envelope.Directory.{Vhost, Directory}
use envelope.Queue.{Job}
use envelope.Queue.Backoff.{Rand}
use envelope.Deliverer.Send.{Network}
use envelope.Filter.{Checks, DmarcRecord, policy_reject, alignment_strict, spf_pass, published}
use envelope.Smtp.Limits.{Limiter}

abbrev pub live : Context
live = record { done = none; correlation_id = "c1" }

abbrev pub half_open : Error
half_open = plain "connection refused"

abbrev pub int63n : ℕ → ℤ → ℕ × ℕ
int63n r n = (r % pos_part n, r + 1)

pub int63n_lt : (r n : ℕ) → 0 < n → (int63n r (pos n)).0 < n
int63n_lt r n h = omega arith

-- A counter in place of a random source.
abbrev pub counting : Rand
counting = record {
  float64 = λ n. n;
  float64_exact = λ n h. refl;
  int64_of_other = negsuc 0;
  State = ℕ;
  int63n = int63n;
  int63n_lt = int63n_lt;
}

abbrev pub Shelf : Type 0
Shelf = List (MessageRef × String)

abbrev pub put : Context → String → String → String → Shelf → Result MessageRef × Shelf
put ctx vhost mailbox body s =
    let ref : MessageRef = record { vhost = vhost; mailbox = mailbox; key = decimal (length s) } in
    (ok ref, s ++ (ref, body) ∷ [])

abbrev find_body : String → Shelf → Result (Result String)
find_body key [] = err (plain "no such message")
find_body key ((ref, body) ∷ s) =
    let rest = find_body key s in if ref.key =ₛ key then ok (ok body) else rest

abbrev pub describe : MessageRef × String → MessageMeta
describe (ref, body) = record { ref = ref; size = 0; flags = []; created_at = some 0 }

abbrev metas : Shelf → List MessageMeta
metas [] = []
metas (x ∷ s) = describe x ∷ metas s

abbrev without : String → Shelf → Shelf
without key [] = []
without key ((ref, body) ∷ s) =
    let rest = without key s in if ref.key =ₛ key then rest else (ref, body) ∷ rest

-- A store that keeps its messages in a list, under their numbers.
abbrev pub shelf_store : Store
shelf_store = record {
  State = Shelf;
  write = put;
  read = λ ctx ref s. find_body ref.key s;
  list_mailbox = λ ctx vhost mailbox s. ok (metas s);
  list_vhost = λ ctx vhost s. ok (metas s);
  update_flags = λ ctx ref flags s. (none, s);
  delete_message = λ ctx ref s. (none, without ref.key s);
}

-- A peer that gives one reply to RCPT TO, and takes everything else.
abbrev pub peer : Option Error → Network
peer reply = record {
  Conn = Unit;
  Client = Unit;
  Writer = Unit;
  tcp_dial = λ again addr. ok tt;
  new_client_start_tls = λ conn host. ok tt;
  new_client = λ conn. tt;
  hello = λ client domain. none;
  mail_from = λ client from. none;
  rcpt_to = λ client to. reply;
  begin_data = λ client. ok tt;
  write = λ writer body. none;
  end_data = λ writer. none;
}

-- go-smtp's classification, as its documentation has it: 4xx replies are temporary.
abbrev pub four_hundreds : SmtpError → Bool
four_hundreds e = (e.smtp_code / 100) == 4

abbrev pub reply : ℕ → Error
reply n = smtp (record { smtp_code = n; enhanced = (0, 0, 0); text = "no" })

abbrev pub first_job : Job
first_job = record {
  id = "j1";
  vhost = "a.example";
  from = "ann@a.example";
  to = "bob@b.example";
  body_ref = "0";
  attempts = 0;
  next_attempt_at = 5;
  last_error = "";
  correlation_id = "c1";
}

abbrev pub hosts_nothing : Directory
hosts_nothing = record {
  vhost = λ domain. none;
  vhost_active = λ domain. false;
  authenticate = λ vhost local password. false;
}

-- A sender that passes SPF at a domain whose DMARC policy is `reject`, scored 7 by rspamd.
abbrev pub strict_domain : DmarcRecord
strict_domain = record {
  policy = policy_reject;
  spf_alignment = alignment_strict;
  dkim_alignment = alignment_strict;
}

abbrev pub sender_checks : Checks
sender_checks = record {
  Ip = Unit;
  check_host = λ ip helo from. spf_pass;
  verify = λ body. ok [];
  lookup_record = λ domain. published strict_domain;
  rspamd_check = λ from to body. ok (pos 7);
  header_from = λ body. some "ann@a.example";
  effective_tld_plus_one = λ domain. some domain;
  to_lower = λ domain. domain;
}

abbrev pub vhost_at : String → ℤ → Vhost
vhost_at domain quarantine_threshold = record {
  id = "v";
  account_id = "acc";
  domain = domain;
  active = true;
  dkim_selector = "envelope";
  dkim_key = some 1;
  max_message_bytes = pos 0;
  daily_quota = pos 0;
  spam_reject_threshold = pos 0;
  spam_quarantine_threshold = quarantine_threshold;
  retention_days = pos 0;
}

-- Every domain is hosted, and one password is right.
abbrev pub hosts_all : Directory
hosts_all = record {
  vhost = λ domain. some (vhost_at domain (pos 5));
  vhost_active = λ domain. true;
  authenticate = λ vhost local password. password =ₛ "secret";
}

abbrev pub generous : Limiter
generous = record { State = Unit; allow = λ ctx key capacity rate s. (ok true, s) }
