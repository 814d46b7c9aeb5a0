-- ===== src/Imap/Confined.antt =====
-- Whose messages a session can see and change.
use envelope.Prelude.{
  ℕ, suc, ◌≡◌, ◌≢◌, ◌⊎◌, refl, sym, subst, arith, eq_iff, Bool, true, false, Bool-cases, not, inl,
  inr, Option-cases, String, ◌=ₛ◌, before, List, [], ◌∷◌, All, if◌then◌else◌,
}
use envelope.Context.{Context, background, ok, Result-cases}
use envelope.Storage.{MessageRef, MessageMeta}
use envelope.Directory.{parse_address, mailbox_path}
use envelope.Directory.Addresses.{parse_address_iff}
use envelope.Imap.{
  Parts, Session, StoreFlags, NumKind, new_session, unselect, login, select, list_mailbox, store,
  place_meta, sort_metas, seq_num, num_set_contains, apply_store_op, show_flags,
}

-- The commands that change the session.
pub data Command (N : Type 0) : Type 0 where
  logs_in : String → String → Command N
  selects : String → Command N
  unselects : Command N
  stores : NumKind N → StoreFlags → Command N

-- go-imap takes LOGIN only before a login, and the other commands only after one.
abbrev pub admits : {N : Type 0} → Command N → Session → Bool
admits (logs_in username password) s = s.local =ₛ ""
admits _ s = not (s.local =ₛ "")

module _ (p : Parts) where
  -- One command, on the store and the connection as they are then.
  unfoldable pub step : Command p.NumSet → p.store.State → p.Writer → Session → Session
  step (logs_in username password) stored w s = (login p username password s).1
  step (selects mailbox) stored w s = (select p mailbox s stored).1
  step unselects stored w s = unselect s
  step (stores set flags) stored w s = record s {
    view = (store p 0 s.view set flags stored w).1.view;
  }

  -- The commands of one session. Others may change the store between any two of them.
  unfoldable pub run : List (Command p.NumSet × p.store.State × p.Writer) → Session → Session
  run [] s = s
  run ((c, stored, w) ∷ commands) s =
      let after = run commands (step c stored w s) in
      let refused = run commands s in if admits c s then after else refused

  -- A listing of a mailbox tells only of messages in it.
  abbrev pub ListsItsOwn : Type 0
  ListsItsOwn =
      (ctx : Context) (vhost mailbox : String) (stored : p.store.State) (metas : List MessageMeta)
      → p.store.list_mailbox ctx vhost mailbox stored ≡ ok metas
      → All (λ m. (m.ref.vhost ≡ vhost) × (m.ref.mailbox ≡ mailbox)) metas

  -- A session that has no identity and no view, or that has an authenticated one and sees messages of
  -- one of its mailboxes.
  pub record IsConfined (s : Session) : Type 0 where
    pub who :
        ((s.local ≡ "") × (s.view ≡ []))
        ⊎ ((password : String) × (s.local ≢ "")
            × (p.dir.authenticate s.vhost s.local password ≡ true))
    pub sees :
        All (λ m. (m.ref.vhost ≡ s.vhost) × (m.ref.mailbox ≡ mailbox_path s.local s.mailbox)) s.view

  place_meta-All :
      (P : MessageMeta → Type 0) (m : MessageMeta) (metas : List MessageMeta)
      → P m
      → All P metas
      → All P (place_meta m metas)
  place_meta-All P m [] h hs = (h, tt)
  place_meta-All P m (n ∷ metas) h (k, ks) = elim (Bool-cases (before m.ref.key n.ref.key)) [
    | inl e ↦ rw e (h, (k, ks))
    | inr e ↦ rw e (k, place_meta-All P m metas h ks)
  ]

  sort_metas-All :
      (P : MessageMeta → Type 0) (metas : List MessageMeta) → All P metas → All P (sort_metas metas)
  sort_metas-All P [] h = tt
  sort_metas-All P (m ∷ metas) (h, hs) =
      place_meta-All P m (sort_metas metas) h (sort_metas-All P metas hs)

  -- STORE does not move its messages.
  store-All :
      (P : MessageRef → Type 0) (i : ℕ) (view : List MessageMeta) (set : NumKind p.NumSet)
      (flags : StoreFlags) (stored : p.store.State) (w : p.Writer)
      → All (λ m. P m.ref) view
      → All (λ m. P m.ref) (store p i view set flags stored w).1.view
  unfolding store
  store-All P i [] set flags stored w h = tt
  store-All P i (m ∷ view) set flags stored w (h, hs) =
      elim (Bool-cases (num_set_contains p set (seq_num i))) [
        | inr e ↦ rw (e, store) (h, store-All P (suc i) view set flags stored w hs)
        | inl e ↦
            let new_flags = apply_store_op m.flags flags in
            let (refused, after) = p.store.update_flags (background "") m.ref new_flags stored in
            let (failed, shown) = show_flags p flags.silent (seq_num i) new_flags w in
            elim (Option-cases refused) [
              | inr (x, f) ↦ rw (e, f, store) (h, hs)
              | inl f ↦ elim (Option-cases failed) [
                | inr (x, g) ↦ rw (e, f, g, store) (h, hs)
                | inl g ↦ rw (e, f, g, store) (h, store-All P (suc i) view set flags after shown hs)
              ]
            ]
      ]

  no_view :
      (P : MessageMeta → Type 0) (s : Session)
      → (s.local =ₛ "") ≡ true
      → IsConfined s
      → All P s.view
  no_view P s anonymous c = elim c.who [
    | inl (nobody, empty) ↦ subst (All P) (sym empty) tt
    | inr (password, named, known) ↦ absurd (named ((eq_iff s.local "").0 anonymous))
  ]

  known_who :
      (s : Session)
      → (s.local =ₛ "") ≡ false
      → IsConfined s
      → (password : String) × (s.local ≢ "") × (p.dir.authenticate s.vhost s.local password ≡ true)
  known_who s known c = elim c.who [
    | inl (nobody, empty) ↦ ground (arith, nobody, known, eq_iff s.local "")
    | inr who ↦ who
  ]

  login-IsConfined :
      (username password : String) (s : Session)
      → (s.local =ₛ "") ≡ true
      → IsConfined s
      → IsConfined (login p username password s).1
  unfolding login
  login-IsConfined username password s anonymous c = elim (Option-cases (parse_address username)) [
    | inl e ↦ rw (e, login) c
    | inr ((local, vhost), e) ↦ elim (Bool-cases (p.dir.authenticate vhost local password)) [
      | inr f ↦ rw (e, f, login) c
      | inl f ↦
          rw (e, f, login)
            (record {
              who = inr (password, ((parse_address_iff username local vhost).0 e).2, f);
              sees =
                  no_view
                    (λ m. (m.ref.vhost ≡ vhost) × (m.ref.mailbox ≡ mailbox_path local s.mailbox)) s
                    anonymous c;
            })
    ]
  ]

  select-IsConfined :
      (lists : ListsItsOwn) (mailbox : String) (stored : p.store.State) (s : Session)
      → (s.local =ₛ "") ≡ false
      → IsConfined s
      → IsConfined (select p mailbox s stored).1
  unfolding select list_mailbox
  select-IsConfined lists mailbox stored s known c =
      elim (Result-cases
        (p.store.list_mailbox (background "") s.vhost (mailbox_path s.local mailbox) stored)) [
          | inr (x, e) ↦ rw (e, select, list_mailbox) c
          | inl (metas, e) ↦
              rw (e, select, list_mailbox)
                (record {
                  who = inr (known_who s known c);
                  sees =
                      sort_metas-All
                        (λ m.
                          (m.ref.vhost ≡ s.vhost) × (m.ref.mailbox ≡ mailbox_path s.local mailbox))
                        metas
                        (lists (background "") s.vhost (mailbox_path s.local mailbox) stored metas
                          e);
                })
        ]

  step-IsConfined :
      (lists : ListsItsOwn) (c : Command p.NumSet) (stored : p.store.State) (w : p.Writer)
      (s : Session)
      → admits c s ≡ true
      → IsConfined s
      → IsConfined (step c stored w s)
  unfolding step unselect
  step-IsConfined lists (logs_in username password) stored w s a c =
      login-IsConfined username password s a c
  step-IsConfined lists (selects mailbox) stored w s a c =
      select-IsConfined lists mailbox stored s (ground (arith, a)) c
  step-IsConfined lists unselects stored w s a c = record {
    who = inr (known_who s (ground (arith, a)) c);
    sees = tt;
  }
  step-IsConfined lists (stores set flags) stored w s a c = record {
    who = inr (known_who s (ground (arith, a)) c);
    sees =
        store-All (λ ref. (ref.vhost ≡ s.vhost) × (ref.mailbox ≡ mailbox_path s.local s.mailbox)) 0
          s.view set flags stored w c.sees;
  }

  new_session-IsConfined : IsConfined new_session
  unfolding new_session
  new_session-IsConfined = record { who = inl (refl, refl); sees = tt }

  run-IsConfined_from :
      (lists : ListsItsOwn) (commands : List (Command p.NumSet × p.store.State × p.Writer))
      (s : Session)
      → IsConfined s
      → IsConfined (run commands s)
  unfolding run
  run-IsConfined_from lists [] s c = c
  run-IsConfined_from lists ((cmd, stored, w) ∷ commands) s c = elim (Bool-cases (admits cmd s)) [
    | inl e ↦
        rw (e, run)
          (run-IsConfined_from lists commands _ (step-IsConfined lists cmd stored w s e c))
    | inr e ↦ rw (e, run) (run-IsConfined_from lists commands s c)
  ]

  -- Whatever a client sends and whatever others do to the store in between, the identity of an IMAP
  -- session is one that the directory authenticated, and every message that it sees, which are those
  -- that FETCH reads and STORE changes, stands in that vhost under a mailbox name that begins with
  -- that local part; without a login it sees none. This takes a store whose listing of a mailbox
  -- tells only of messages in it.
  pub run-IsConfined :
      (lists : ListsItsOwn) (commands : List (Command p.NumSet × p.store.State × p.Writer))
      → IsConfined (run commands new_session)
  run-IsConfined lists commands =
      run-IsConfined_from lists commands new_session new_session-IsConfined
