-- ===== src/Imap.antt =====
-- internal/platform/imap/session.go: an IMAP session over a message store. go-imap's number sets,
-- pattern matching and response writer are parameters.
pub mod Flags
pub mod Confined
mod Tests
use envelope.Prelude.{
  ℕ, suc, ◌+◌, ◌%◌, ◌^◌, Bool, true, false, not, ◌&&◌, ◌||◌, Option, none, some, String, ◌<>◌, ◌=ₛ◌,
  before, List, [], ◌∷◌, length, if◌then◌else◌,
}
use envelope.Prelude.Dict.{Dict, insert, delete}
use envelope.Context.{background, Error, plain, Result, ok, err}
use envelope.Storage.{Store, MessageRef, MessageMeta}
use envelope.Directory.{Directory, parse_address, mailbox_path}

-- What FETCH and STORE write to the client, piece by piece.
pub data Piece : Type 0 where
  create_message uid_of rfc822_size : ℕ → Piece
  flags_of : List String → Piece
  body_section : String → String → Piece
  close_message : Piece

-- What the server runs on. `matches reference pattern` is imapserver.MatchList of INBOX; a number set
-- is one of the library's two kinds, or neither; `send` writes a piece, and only a body section and
-- the end of a message can fail.
pub record Parts : Type 1 where
  pub dir : Directory
  pub store : Store
  pub NumSet : Type 0
  pub seq_contains : NumSet → ℕ → Bool
  pub uid_contains : NumSet → ℕ → Bool
  pub matches : String → String → Bool
  pub Writer : Type 0
  pub send : Piece → Writer → Writer
  pub send_failing : Piece → Writer → Option Error × Writer
  pub auth_failed : Error

pub record Session : Type 0 where
  pub local : String
  pub vhost : String
  pub mailbox : String
  pub view : List MessageMeta

pub data StoreOp : Type 0 where
  store_flags_set store_flags_add store_flags_del : StoreOp

pub record StoreFlags : Type 0 where
  pub op : StoreOp
  pub silent : Bool
  pub flags : List String

-- The body sections of a FETCH, which all serve the whole body.
pub record FetchOptions : Type 0 where
  pub uid : Bool
  pub flags : Bool
  pub rfc822_size : Bool
  pub body_section : List String

pub data NumKind (N : Type 0) : Type 0 where
  seq_set uid_set : N → NumKind N
  other_set : NumKind N

-- SelectData, without the constant flags and UIDVALIDITY.
pub record SelectData : Type 0 where
  pub num_messages : ℕ
  pub uid_next : ℕ

unfoldable pub err_not_supported : String → Error
err_not_supported command = plain (command <> " not supported")

unfoldable pub new_session : Session
new_session = record { local = ""; vhost = ""; mailbox = ""; view = [] }

unfoldable pub unselect : Session → Session
unselect s = record s { mailbox = ""; view = [] }

-- The keys of a Go map that is used as a set, in some order, and its changes.
abbrev pub add_all : List String → Dict Bool → Dict Bool
add_all [] set = set
add_all (f ∷ flags) set = add_all flags (insert f true set)

abbrev pub delete_all : List String → Dict Bool → Dict Bool
delete_all [] set = set
delete_all (f ∷ flags) set = delete_all flags (delete f set)

-- sort.Strings on the keys of a set.
abbrev pub place : String → List String → List String
place f [] = f ∷ []
place f (g ∷ out) = let rest = place f out in if before f g then f ∷ g ∷ out else g ∷ rest

abbrev pub sorted_keys : Dict Bool → List String
sorted_keys [] = []
sorted_keys ((f, _) ∷ set) = place f (sorted_keys set)

unfoldable pub apply_store_op : List String → StoreFlags → List String
apply_store_op current store = sorted_keys (elim store.op [
  | store_flags_set ↦ add_all store.flags []
  | store_flags_add ↦ add_all store.flags (add_all current [])
  | store_flags_del ↦ delete_all store.flags (add_all current [])
])

-- sort.Slice by key, on a listing, where keys are distinct.
abbrev pub place_meta : MessageMeta → List MessageMeta → List MessageMeta
place_meta m [] = m ∷ []
place_meta m (n ∷ metas) =
    let rest = place_meta m metas in if before m.ref.key n.ref.key then m ∷ n ∷ metas else n ∷ rest

abbrev pub sort_metas : List MessageMeta → List MessageMeta
sort_metas [] = []
sort_metas (m ∷ metas) = place_meta m (sort_metas metas)

-- uint32(i + 1)
abbrev pub seq_num : ℕ → ℕ
seq_num i = (i + 1) % 2 ^ 32

module _ (p : Parts) where
  unfoldable pub login : String → String → Session → Option Error × Session
  login username password s = elim (parse_address username) [
    | none ↦ (some p.auth_failed, s)
    | some (local, vhost) ↦
        if p.dir.authenticate vhost local password
        then (none, record s { local = local; vhost = vhost })
        else (some p.auth_failed, s)
  ]

  -- LIST: whether INBOX is reported.
  unfoldable pub list : String → List String → Bool
  list reference [] = false
  list reference (pattern ∷ patterns) = p.matches reference pattern || list reference patterns

  unfoldable pub list_mailbox : String → Session → p.store.State → Result (List MessageMeta)
  list_mailbox folder s stored =
      elim (p.store.list_mailbox (background "") s.vhost (mailbox_path s.local folder) stored) [
        | err e ↦ err e
        | ok metas ↦ ok (sort_metas metas)
      ]

  select_data : List MessageMeta → SelectData
  select_data metas = record {
    num_messages = length metas % 2 ^ 32;
    uid_next = seq_num (length metas);
  }

  unfoldable pub select : String → Session → p.store.State → Result SelectData × Session
  unfolding select_data
  select mailbox s stored = elim (list_mailbox mailbox s stored) [
    | err e ↦ (err e, s)
    | ok metas ↦ (ok (select_data metas), record s { mailbox = mailbox; view = metas })
  ]

  -- STATUS: UIDNEXT, and the number of messages if it is asked for.
  unfoldable pub status : String → Bool → Session → p.store.State → Result (ℕ × Option ℕ)
  status mailbox num_messages s stored = elim (list_mailbox mailbox s stored) [
    | err e ↦ err e
    | ok metas ↦
        ok (seq_num (length metas), if num_messages then some (length metas % 2 ^ 32) else none)
  ]

  unfoldable pub num_set_contains : NumKind p.NumSet → ℕ → Bool
  num_set_contains (seq_set set) n = p.seq_contains set n
  num_set_contains (uid_set set) n = p.uid_contains set n
  num_set_contains other_set n = false

  flatten_body : Result (Result String) → Result String
  flatten_body (err e) = err e
  flatten_body (ok r) = r

  unfoldable pub read_body : MessageRef → p.store.State → Result String
  unfolding flatten_body
  read_body ref stored = flatten_body (p.store.read (background "") ref stored)

  abbrev send_if : Bool → Piece → p.Writer → p.Writer
  send_if wanted piece w = if wanted then p.send piece w else w

  -- The loop over the body sections: an error closes the message.
  unfoldable pub write_sections :
      MessageRef → List String → p.store.State → p.Writer → Option Error × p.Writer
  write_sections ref [] stored w = p.send_failing close_message w
  write_sections ref (sec ∷ sections) stored w = elim (read_body ref stored) [
    | err e ↦ (some e, (p.send_failing close_message w).1)
    | ok body ↦
        let (failed, after) = p.send_failing (body_section sec body) w in
        let others = write_sections ref sections stored after in
        elim failed [ none ↦ others | some e ↦ (some e, (p.send_failing close_message after).1) ]
  ]

  unfoldable pub fetch_one :
      ℕ → MessageMeta → FetchOptions → p.store.State → p.Writer → Option Error × p.Writer
  fetch_one n meta options stored w =
      let begun = p.send (create_message n) w in
      let with_uid = send_if options.uid (uid_of n) begun in
      let with_flags = send_if options.flags (flags_of meta.flags) with_uid in
      write_sections meta.ref options.body_section stored
        (send_if options.rfc822_size (rfc822_size meta.size) with_flags)

  -- FETCH over the part of the view from index `i` on.
  unfoldable pub fetch :
      ℕ
      → List MessageMeta
      → NumKind p.NumSet
      → FetchOptions
      → p.store.State
      → p.Writer
      → Option Error × p.Writer
  fetch i [] set options stored w = (none, w)
  fetch i (meta ∷ view) set options stored w =
      let (failed, after) = fetch_one (seq_num i) meta options stored w in
      let others = fetch (suc i) view set options stored after in
      let skipping = fetch (suc i) view set options stored w in
      if num_set_contains set (seq_num i)
      then (elim failed [ none ↦ others | some e ↦ (some e, after) ])
      else skipping

  -- What STORE leaves: the view, the store and the writer.
  pub record Left : Type 0 where
    pub view : List MessageMeta
    pub stored : p.store.State
    pub writer : p.Writer

  -- The response to a message whose flags are stored.
  unfoldable pub show_flags : Bool → ℕ → List String → p.Writer → Option Error × p.Writer
  show_flags silent n flags w =
      if silent
      then (none, w)
      else p.send_failing close_message (p.send (flags_of flags) (p.send (create_message n) w))

  abbrev pub kept : MessageMeta → Option Error × Left → Option Error × Left
  kept meta (e, left) = (e, record left { view = meta ∷ left.view })

  -- STORE over the part of the view from index `i` on: an error leaves the rest as it was.
  unfoldable pub store :
      ℕ
      → List MessageMeta
      → NumKind p.NumSet
      → StoreFlags
      → p.store.State
      → p.Writer
      → Option Error × Left
  store i [] set flags stored w = (none, record { view = []; stored = stored; writer = w })
  store i (meta ∷ view) set flags stored w =
      let new_flags = apply_store_op meta.flags flags in
      let (refused, after) = p.store.update_flags (background "") meta.ref new_flags stored in
      let (failed, shown) = show_flags flags.silent (seq_num i) new_flags w in
      let others = store (suc i) view set flags after shown in
      let skipping = store (suc i) view set flags stored w in
      let changed = record meta { flags = new_flags } in
      if num_set_contains set (seq_num i)
      then (elim refused [
        | some e ↦ (some e, record { view = meta ∷ view; stored = after; writer = w })
        | none ↦ elim failed [
          | some e ↦ (some e, record { view = changed ∷ view; stored = after; writer = shown })
          | none ↦ kept changed others
        ]
      ])
      else kept meta skipping
