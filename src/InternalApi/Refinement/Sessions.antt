-- ===== src/InternalApi/Refinement/Sessions.antt =====
-- Sessions of calls through the clients.
use envelope.Prelude.{◌≡◌, refl, ap, false, String, ◌=ₛ◌, List, [], ◌∷◌, All}
use envelope.Prelude.Dict.{lookup}
use envelope.Context.{Error, ok, err}
use envelope.Storage.{MessageRef}
use envelope.InternalApi.{KeepsKeys, scope_store_read}
use envelope.InternalApi.Server.{Parts, World, serve, handle, routes, handle_store_read, copied}
use envelope.InternalApi.Client as Client
use envelope.InternalApi.Client.{
  Fault, sound, lost_request, lost_reply, exchange, post, job_request, flags_request, write_request,
  read_request, meta_of, vhost_of, vhost_in, key_of, reply_of, reply_to, decoded, error_of, do_json,
  tell,
}
use envelope.InternalApi.Refinement.{
  Call, ask_vhost, ask_active, log_in, write_message, read_message, list_messages, set_flags,
  queue_job, take_token, fire_event, Reply, scope_of, direct_under, Carries, IsGranted, remote,
}
use envelope.InternalApi.Refinement.Exchange.{
  authorize-next, ref_in-read_request, ask_vhost-direct, ask_active-direct,
}
use envelope.InternalApi.Refinement.Calls.{
  log_in-direct, write_message-direct, read_message-direct, list_messages-direct, set_flags-direct,
  queue_job-direct, take_token-direct, fire_event-direct,
}

module _ (p : Parts) where
  module _ (token : String) where
    module _ (keys : KeepsKeys p.codec) where
      remote-direct_under :
          (fault : Fault) (c : Call) (w : World p)
          → IsGranted p token (scope_of c)
          → Carries p c w
          → remote p token fault c w ≡ direct_under p fault c w
      remote-direct_under fault (ask_vhost domain) w g k =
          ask_vhost-direct p token keys fault w domain g k
      remote-direct_under fault (ask_active domain) w g k =
          ask_active-direct p token keys fault w domain g k
      remote-direct_under fault (log_in vhost local password) w g k =
          log_in-direct p token fault w vhost local password g k
      remote-direct_under fault (write_message vhost mailbox body) w g k =
          write_message-direct p token fault w vhost mailbox body g k
      remote-direct_under fault (read_message ref) w g k =
          read_message-direct p token fault w ref g k
      remote-direct_under fault (list_messages vhost mailbox) w g k =
          list_messages-direct p token fault w vhost mailbox g k
      remote-direct_under fault (set_flags ref flags) w g k =
          set_flags-direct p token fault w ref flags g k
      remote-direct_under fault (queue_job job) w g k = queue_job-direct p token fault w job g k
      remote-direct_under fault (take_token key capacity refill) w g k =
          take_token-direct p token fault w key capacity refill g k
      remote-direct_under fault (fire_event vhost event_type payload) w g k =
          fire_event-direct p token fault w vhost event_type payload g k

    -- A session of calls.
    abbrev pub run_remote : List (Fault × Call) → World p → List Reply × World p
    run_remote [] w = ([], w)
    run_remote ((fault, c) ∷ calls) w =
        let (reply, after) = remote p token fault c w in
        let (replies, last) = run_remote calls after in (reply ∷ replies, last)

  abbrev pub run_direct : List (Fault × Call) → World p → List Reply × World p
  run_direct [] w = ([], w)
  run_direct ((fault, c) ∷ calls) w =
      let (reply, after) = direct_under p fault c w in
      let (replies, last) = run_direct calls after in (reply ∷ replies, last)

  -- The wire carries every call of the session, at the state where its turn comes.
  abbrev pub CarriesAll : List (Fault × Call) → World p → Type 0
  CarriesAll [] w = Unit
  CarriesAll ((fault, c) ∷ calls) w = Carries p c w × CarriesAll calls (direct_under p fault c w).1

  -- For any sequence of the calls that the role of a token has the scopes of, the client with this token
  -- tells its caller what the parts themselves would answer and leaves them in the state that calls of
  -- them would leave, up to the texts of errors and the account of a vhost. A call whose request the
  -- network loses fails and changes nothing; one whose reply it loses fails too, but has been carried
  -- out. The keys and the bodies must survive their encoding, names in a query must not be empty, a job
  -- must be new, and the reader of a message must not fail.
  pub run_remote-run_direct :
      (token : String) (keys : KeepsKeys p.codec) (calls : List (Fault × Call)) (w : World p)
      → All (λ call. IsGranted p token (scope_of call.1)) calls
      → CarriesAll calls w
      → run_remote token calls w ≡ run_direct calls w
  run_remote-run_direct token keys [] w granted k = refl
  run_remote-run_direct token keys ((fault, c) ∷ calls) w (g, granted) (k, carried) =
      rw (remote-direct_under token keys fault c w g k) (
        ap (λ r. ((direct_under p fault c w).0 ∷ r.0, r.1))
          (run_remote-run_direct token keys calls (direct_under p fault c w).1 granted carried))

  -- A stored message whose reader fails part of the way reaches the client of a role that may read as
  -- a shorter message, and not as an error.
  pub read-truncated :
      (token : String) (ref : MessageRef) (w : World p) (e : Error)
      → IsGranted p token scope_store_read
      → (ref.vhost =ₛ "") ≡ false
      → (ref.mailbox =ₛ "") ≡ false
      → (ref.key =ₛ "") ≡ false
      → p.store.read p.ctx ref w.stored ≡ ok (err e)
      → Client.read p token sound ref w ≡ (ok (ok (p.read_before ref w.stored)), w)
  unfolding Client.read exchange read_request reply_to handle routes serve handle_store_read copied
      lookup
  read-truncated token ref w e g some_vhost some_mailbox some_key h =
      simp
        (
          authorize-next p token _ (handle_store_read p) (read_request p token _) w refl g,
          ref_in-read_request p token ref,
          some_vhost,
          some_mailbox,
          some_key,
          h,
          handle_store_read,
          copied,
        )
        refl
