-- ===== src/Imap/Flags.antt =====
-- The flags that STORE leaves on a message.
use envelope.Prelude.{
  ℕ, suc, ◌≡◌, refl, ap, ◌∙◌, arith, Bool, true, false, not, ◌&&◌, ◌||◌, Option, none, some, String,
  ◌=ₛ◌, List, [], ◌∷◌,
}
use envelope.Prelude.Dict.{Dict, lookup, insert, delete, lookup-insert, lookup-delete}
use envelope.Context.{background, Error}
use envelope.Storage.{MessageMeta}
use envelope.Imap.{
  StoreOp, store_flags_set, store_flags_add, store_flags_del, StoreFlags, add_all, delete_all,
  place, sorted_keys, apply_store_op, Parts, NumKind, num_set_contains, seq_num, show_flags, store,
}

-- Whether a flag stands in a list.
abbrev pub has : String → List String → Bool
has f [] = false
has f (g ∷ flags) = (g =ₛ f) || has f flags

-- Whether a flag is in a set.
abbrev is_there : Option Bool → Bool
is_there none = false
is_there (some b) = true

abbrev in_set : String → Dict Bool → Bool
in_set f set = is_there (lookup f set)

in_set-insert :
    (f g : String) (set : Dict Bool) → in_set f (insert g true set) ≡ ((g =ₛ f) || in_set f set)
in_set-insert f g set = ap is_there (lookup-insert g f true set) ∙ ground arith

in_set-delete :
    (f g : String) (set : Dict Bool) → in_set f (delete g set) ≡ (not (g =ₛ f) && in_set f set)
in_set-delete f g set = ap is_there (lookup-delete g f set) ∙ ground arith

in_set-add_all :
    (f : String) (flags : List String) (set : Dict Bool)
    → in_set f (add_all flags set) ≡ (has f flags || in_set f set)
in_set-add_all f [] set = refl
in_set-add_all f (g ∷ flags) set =
    in_set-add_all f flags (insert g true set) ∙ ground (arith, in_set-insert f g set)

in_set-delete_all :
    (f : String) (flags : List String) (set : Dict Bool)
    → in_set f (delete_all flags set) ≡ (not (has f flags) && in_set f set)
in_set-delete_all f [] set = refl
in_set-delete_all f (g ∷ flags) set =
    in_set-delete_all f flags (delete g set) ∙ ground (arith, in_set-delete f g set)

has-place : (f g : String) (out : List String) → has f (place g out) ≡ ((g =ₛ f) || has f out)
has-place f g [] = refl
has-place f g (h ∷ out) = ground (arith, has-place f g out)

has-sorted_keys : (f : String) (set : Dict Bool) → has f (sorted_keys set) ≡ in_set f set
unfolding lookup
has-sorted_keys f [] = refl
has-sorted_keys f ((g, b) ∷ set) =
    has-place f g (sorted_keys set) ∙ ground (arith, has-sorted_keys f set)

-- Whether the flag is on a message with these flags once the operation is done.
abbrev pub asked_for : String → List String → StoreFlags → Bool
asked_for f current store = elim store.op [
  | store_flags_set ↦ has f store.flags
  | store_flags_add ↦ has f store.flags || has f current
  | store_flags_del ↦ not (has f store.flags) && has f current
]

op_asked_for :
    (f : String) (current : List String) (op : StoreOp) (silent : Bool) (flags : List String)
    → let store : StoreFlags = record { op = op; silent = silent; flags = flags } in
      has f (apply_store_op current store) ≡ asked_for f current store
unfolding apply_store_op lookup
op_asked_for f current store_flags_set silent flags =
    has-sorted_keys f (add_all flags []) ∙ in_set-add_all f flags [] ∙ ground arith
op_asked_for f current store_flags_add silent flags =
    has-sorted_keys f (add_all flags (add_all current []))
    ∙ in_set-add_all f flags (add_all current [])
    ∙ ground (arith, in_set-add_all f current [])
op_asked_for f current store_flags_del silent flags =
    has-sorted_keys f (delete_all flags (add_all current []))
    ∙ in_set-delete_all f flags (add_all current [])
    ∙ ground (arith, in_set-add_all f current [])

-- The flags that STORE names (FLAGS), those and the present ones (+FLAGS), or the present ones without
-- those (-FLAGS).
pub apply_store_op-asked_for :
    (f : String) (current : List String) (store : StoreFlags)
    → has f (apply_store_op current store) ≡ asked_for f current store
apply_store_op-asked_for f current store = op_asked_for f current store.op store.silent store.flags

module _ (p : Parts) (set : NumKind p.NumSet) (flags : StoreFlags) where
  -- What STORE does from index `i` on to the view and the store, up to an error: the store is told the
  -- flags asked for of each message in the set, in order, and the view has them too. It ends early
  -- where the store refuses, and where the client cannot be told.
  pub data Stored
      : ℕ
        → List MessageMeta
        → p.store.State
        → List MessageMeta
        → p.store.State
        → Option Error
        → Type 0 where
    finished : (i : ℕ) (s : p.store.State) → Stored i [] s [] s none
    flagged :
        (i : ℕ) (meta : MessageMeta) (new_flags : List String) (view view' : List MessageMeta)
        (s s' : p.store.State) (e : Option Error)
        → num_set_contains p set (seq_num i) ≡ true
        → ((f : String) → has f new_flags ≡ asked_for f meta.flags flags)
        → (p.store.update_flags (background "") meta.ref new_flags s).0 ≡ none
        → Stored
            (suc i)
            view
            (p.store.update_flags (background "") meta.ref new_flags s).1
            view'
            s'
            e
        → Stored i (meta ∷ view) s (record meta { flags = new_flags } ∷ view') s' e
    passed :
        (i : ℕ) (meta : MessageMeta) (view view' : List MessageMeta) (s s' : p.store.State)
        (e : Option Error)
        → num_set_contains p set (seq_num i) ≡ false
        → Stored (suc i) view s view' s' e
        → Stored i (meta ∷ view) s (meta ∷ view') s' e
    refused :
        (i : ℕ) (meta : MessageMeta) (new_flags : List String) (view : List MessageMeta)
        (s : p.store.State) (x : Error)
        → num_set_contains p set (seq_num i) ≡ true
        → ((f : String) → has f new_flags ≡ asked_for f meta.flags flags)
        → (p.store.update_flags (background "") meta.ref new_flags s).0 ≡ some x
        → Stored i
            (meta ∷ view)
            s
            (meta ∷ view)
            (p.store.update_flags (background "") meta.ref new_flags s).1
            (some x)
    untold :
        (i : ℕ) (meta : MessageMeta) (new_flags : List String) (view : List MessageMeta)
        (s : p.store.State) (w : p.Writer) (x : Error)
        → num_set_contains p set (seq_num i) ≡ true
        → ((f : String) → has f new_flags ≡ asked_for f meta.flags flags)
        → (p.store.update_flags (background "") meta.ref new_flags s).0 ≡ none
        → (show_flags p flags.silent (seq_num i) new_flags w).0 ≡ some x
        → Stored i
            (meta ∷ view)
            s
            (record meta { flags = new_flags } ∷ view)
            (p.store.update_flags (background "") meta.ref new_flags s).1
            (some x)
