-- ===== src/Smtp/Tests.antt =====
-- Sessions at servers that host every domain.
use envelope.Prelude.{◌≤◌, pos, true, some, String, ◌<>◌, decimal, List, [], ◌∷◌, All}
use envelope.Context.{ok}
use envelope.Directory.{Vhost}
use envelope.Filter.{evaluate}
use envelope.Filter.Strictness.{severity}
use envelope.Queue.Claims.{new_backend}
use envelope.Samples.{sender_checks, vhost_at, hosts_all, generous, shelf_store}
use envelope.Smtp.{Config}
use envelope.Smtp.Inbound.{Parts, Session, World, new_session, receive, input}
use envelope.Smtp.Inbound.Relay.{mails, rcpts, IsHosted, run, run-rcpts-IsHosted}
use envelope.Smtp.Inbound.Thresholds.{input_of, evaluate-strictest}
use envelope.Smtp.Inbound.Storing.{Received, receive-Received}
use envelope.Smtp.Submission
use envelope.Smtp.Submission.Relaying

abbrev cfg : Config
cfg = record {
  max_message_bytes = pos 0;
  rate_limiter = true;
  webhooks = true;
  quota = true;
  rate_limit_ip_capacity = pos 10;
  rate_limit_ip_refill = pos 1;
  rate_limit_sender_capacity = pos 10;
  rate_limit_sender_refill = pos 1;
}

abbrev parts : Parts
parts = record {
  checks = sender_checks;
  ip_text = λ ip. some "192.0.2.1";
  dir = hosts_all;
  store = shelf_store;
  limiter = generous;
}

abbrev fresh_world : World parts
fresh_world = record { stored = []; buckets = tt; fired = [] }

abbrev two_rcpts : List (String × Vhost)
two_rcpts =
    ("bob@b.example", vhost_at "b.example" (pos 5))
    ∷ ("cy@c.example", vhost_at "c.example" (pos 9))
    ∷ ("bea@b.example", vhost_at "b.example" (pos 5))
    ∷ []

abbrev open_session : Session parts
open_session = record {
  client_ip = tt;
  helo_domain = "mx.a.example";
  from = "ann@a.example";
  rcpts = two_rcpts;
  correlation_id = "c1";
}

run-rcpts-IsHosted_example :
    All
      (IsHosted parts)
      (run parts cfg
        (mails "c1" "ann@a.example" ∷ rcpts "bob@b.example" ∷ rcpts "nobody" ∷ [])
        (new_session parts cfg tt "mx.a.example", fresh_world)).0.rcpts
run-rcpts-IsHosted_example =
    run-rcpts-IsHosted parts cfg tt "mx.a.example"
      (mails "c1" "ann@a.example" ∷ rcpts "bob@b.example" ∷ rcpts "nobody" ∷ []) fresh_world

evaluate-strictest_example :
    All
      (λ r.
        severity (evaluate sender_checks (input_of parts cfg open_session "hello" r.1)).verdict
        ≤ severity (evaluate sender_checks (input parts cfg open_session "hello")).verdict)
      two_rcpts
evaluate-strictest_example = evaluate-strictest parts cfg open_session "hello"

receive-Received_example :
    Received parts cfg
      (ok "hello")
      7
      decimal
      open_session
      fresh_world
      (receive parts cfg (ok "hello") 7 decimal open_session fresh_world)
receive-Received_example =
    receive-Received parts cfg (ok "hello") 7 decimal open_session fresh_world

abbrev relay : Submission.Parts
relay = record {
  dir = hosts_all;
  store = shelf_store;
  limiter = generous;
  sign = λ domain selector key body. ok ("signed " <> body);
  auth_failed = Submission.authentication_required;
}

run-IsAuthentic_example : Relaying.IsAuthentic relay cfg (
    Relaying.run relay cfg
      (Relaying.auths "ann@a.example" "secret" ∷ Relaying.mails "c1" "ann@a.example" ∷ [])
      Submission.new_session)
run-IsAuthentic_example =
    Relaying.run-IsAuthentic relay cfg
      (Relaying.auths "ann@a.example" "secret" ∷ Relaying.mails "c1" "ann@a.example" ∷ [])

abbrev submitting : Submission.Session
submitting = record {
  auth_local = "ann";
  auth_vhost = "a.example";
  from = "ann@a.example";
  rcpts = "bob@b.example" ∷ "cy@c.example" ∷ [];
  correlation_id = "c1";
}

abbrev empty_queue : Submission.World relay
empty_queue = record { stored = []; buckets = tt; jobs = new_backend; fired = [] }
