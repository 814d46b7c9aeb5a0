-- ===== src/InternalApi/Tests.antt =====
-- An IMAP role that logs in and reads, over a wire that carries logins.
use Prim.Native.String.{String, [] as empty, ◌∷◌ as ◌▹◌}
use envelope.Prelude.{
  ℕ, zero, suc, ◌≡◌, ◌≢◌, refl, ap, Option, none, some, ◌<>◌, ◌=ₛ◌, cut, List, [], ◌∷◌,
  if◌then◌else◌,
}
use envelope.Prelude.Dict.{lookup}
use envelope.Context.{Error, plain, Result, ok, err}
use envelope.Storage.{MessageRef, Store}
use envelope.Samples.{live, shelf_store, hosts_all, generous}
use envelope.InternalApi.{
  Shape, error_response, vhost_request, authenticate_request, authenticate_response, Dto,
  AuthenticateRequest, Codec, KeepsKeys, scope_store_read, scope_directory_authenticate,
}
use envelope.InternalApi.Server.{Request, Parts, World, role_of, role_scopes, has_scope, handle}
use envelope.InternalApi.Client as Client
use envelope.InternalApi.Client.{Fault, sound, lost_reply}
use envelope.InternalApi.Confined.{Confined, handle-Confined}
use envelope.InternalApi.Refinement.{Call, log_in, read_message, IsGranted}
use envelope.InternalApi.Refinement.Sessions.{
  run_remote, run_direct, run_remote-run_direct, read-truncated,
}

-- A key as that many strokes, and a block as a text behind a dash.
abbrev strokes : ℕ → String
strokes zero = empty
strokes (suc n) = "x" ▹ strokes n

abbrev count_strokes : String → ℕ
count_strokes empty = 0
count_strokes (c ▹ s) = suc (count_strokes s)

abbrev behind_dash : String → Option String
behind_dash empty = none
behind_dash (c ▹ s) = some s

count_strokes-strokes : (n : ℕ) → count_strokes (strokes n) ≡ n
count_strokes-strokes zero = refl
count_strokes-strokes (suc n) = ap suc (count_strokes-strokes n)

abbrev encode : (s : Shape) → Dto s → String
encode error_response x = x
encode vhost_request x = x
encode authenticate_request x = x.vhost <> ("," <> (x.local_part <> ("," <> x.password)))
encode authenticate_response x = if x then "true" else "false"
encode _ x = ""

abbrev login : Option (String × String) → Option (String × String) → Result AuthenticateRequest
login (some (vhost, _)) (some (local, password)) =
    ok (record { vhost = vhost; local_part = local; password = password })
login _ _ = err (plain "no login")

abbrev rest_of : Option (String × String) → String
rest_of none = ""
rest_of (some (_, rest)) = rest

abbrev decode : (s : Shape) → String → Result (Dto s)
decode error_response t = ok t
decode vhost_request t = ok t
decode authenticate_request t = login (cut b',' t) (cut b',' (rest_of (cut b',' t)))
decode authenticate_response t = ok (t =ₛ "true")
decode _ t = err (plain "not read")

abbrev codec : Codec
codec = record {
  encode = encode;
  decode = decode;
  marshal_key = strokes;
  pem_encode = λ der. "-" ▹ der;
  pem_decode = behind_dash;
  parse_key = λ der. ok (count_strokes der);
  status_text = λ code. "";
  smtp_text = λ e. "";
}

codec-KeepsKeys : KeepsKeys codec
codec-KeepsKeys = record {
  block = λ der. refl;
  no_block = refl;
  key = λ key. ap ok (count_strokes-strokes key);
}

abbrev parts_on : Store → Parts
parts_on store = record {
  codec = codec;
  dir = hosts_all;
  store = store;
  read_before = λ ref s. "the first half";
  limiter = generous;
  Queued = Unit;
  enqueue = λ ctx job s. (none, s);
  Hooked = Unit;
  fire = λ ctx vhost event_type payload s. (none, s);
  no_route = λ r. record { status = 404; content = "" };
  ctx = live;
  tokens = ("t1", "imap") ∷ [];
}

abbrev parts : Parts
parts = parts_on shelf_store

abbrev ref : MessageRef
ref = record { vhost = "a.example"; mailbox = "ann/INBOX"; key = "0" }

abbrev world : World parts
world = record { stored = (ref, "hello") ∷ []; buckets = tt; queued = tt; hooked = tt }

reader-IsGranted : IsGranted parts "t1" scope_store_read
unfolding role_of lookup has_scope role_scopes
reader-IsGranted = record { given = refl; known = refl; granted = refl }

login-IsGranted : IsGranted parts "t1" scope_directory_authenticate
unfolding role_of lookup has_scope role_scopes
login-IsGranted = record { given = refl; known = refl; granted = refl }

abbrev session : List (Fault × Call)
session =
    (sound, log_in "a.example" "ann" "secret")
    ∷ (lost_reply (plain "timeout"), read_message ref)
    ∷ (sound, read_message ref)
    ∷ []

readable : (e : Error) → shelf_store.read live ref world.stored ≢ ok (err e)
readable e h = cc

run_remote-run_direct_example : run_remote parts "t1" session world ≡ run_direct parts session world
unfolding cut
run_remote-run_direct_example =
    run_remote-run_direct parts "t1" codec-KeepsKeys session world
      (login-IsGranted, (reader-IsGranted, (reader-IsGranted, tt)))
      ((refl, refl), ((refl, refl, refl, readable), ((refl, refl, refl, readable), tt)))

abbrev failing : Store
failing = record shelf_store { read = λ ctx ref s. ok (err (plain "input/output error")) }

abbrev failing_world : World (parts_on failing)
failing_world = record { stored = []; buckets = tt; queued = tt; hooked = tt }

failing-IsGranted : IsGranted (parts_on failing) "t1" scope_store_read
unfolding role_of lookup has_scope role_scopes
failing-IsGranted = record { given = refl; known = refl; granted = refl }

read-truncated_example :
    Client.read (parts_on failing) "t1" sound ref failing_world
    ≡ (ok (ok "the first half"), failing_world)
read-truncated_example =
    read-truncated (parts_on failing) "t1" ref failing_world (plain "input/output error")
      failing-IsGranted refl refl refl refl

-- An IMAP role that asks for a place in the queue.
abbrev overreach : Request
overreach = record {
  method = "POST";
  path = "/internal/v1/queue/enqueue";
  query = [];
  token = "t1";
  body = "{}";
}

handle-Confined_example :
    Confined parts (role_of parts.tokens "t1") world (handle parts overreach world).1
handle-Confined_example = handle-Confined parts overreach world
