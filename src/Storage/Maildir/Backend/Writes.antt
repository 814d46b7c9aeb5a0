-- ===== src/Storage/Maildir/Backend/Writes.antt =====
-- What a delivery leaves.
use envelope.Prelude.{
  ℕ, String, eq_refl, ◌≡◌, ◌≢◌, refl, sym, ap, ◌∙◌, Bool, true, false, inl, inr, Option, none, some,
  Option-cases, List, [], ◌∷◌, ◌++◌, if◌then◌else◌,
}
use envelope.Context.{Context, Error, Result, ok, err}
use envelope.Storage.{MessageRef}
use envelope.Storage.Maildir.Backend.{
  File, WriteFaults, clean_up, dir_new, dir_tmp, is_at, find, remove, move, write, locate,
  locate_in, read,
}

both_absent :
    (here : Bool) (f : File) (later : Option File)
    → (if here then some f else later) ≡ none
    → (here ≡ false) × (later ≡ none)
both_absent true f later h = absurd (cc h)
both_absent false f later h = (refl, h)

remove_absent :
    (dir sub name : String) (fs rest : List File)
    → find dir sub name fs ≡ none
    → remove dir sub name (fs ++ rest) ≡ fs ++ remove dir sub name rest
unfolding find remove
remove_absent dir sub name [] rest h = refl
remove_absent dir sub name (f ∷ fs) rest h =
    let (e, k) = both_absent (is_at dir sub name f) f (find dir sub name fs) h in
    rw e (ap (◌∷◌ f) (remove_absent dir sub name fs rest k))

find_absent :
    (dir sub name : String) (fs rest : List File)
    → find dir sub name fs ≡ none
    → find dir sub name (fs ++ rest) ≡ find dir sub name rest
unfolding find
find_absent dir sub name [] rest h = refl
find_absent dir sub name (f ∷ fs) rest h =
    let (e, k) = both_absent (is_at dir sub name f) f (find dir sub name fs) h in
    rw e (find_absent dir sub name fs rest k)

append_nil : (fs : List File) → fs ++ [] ≡ fs
append_nil [] = refl
append_nil (f ∷ fs) = ap (◌∷◌ f) (append_nil fs)

-- A file behind files of which none has its address.
module _ (f : File) (fs : List File) where
  -- Removed, it leaves them.
  remove_last : find f.dir f.sub f.name fs ≡ none → remove f.dir f.sub f.name (fs ++ f ∷ []) ≡ fs
  unfolding remove
  remove_last h =
      remove_absent f.dir f.sub f.name fs (f ∷ []) h ∙ ap (λ rest. fs ++ rest) alone ∙ append_nil fs
    where
      alone : remove f.dir f.sub f.name (f ∷ []) ≡ []
      alone = simp (eq_refl, remove) refl

  -- It is found.
  find_last : find f.dir f.sub f.name fs ≡ none → find f.dir f.sub f.name (fs ++ f ∷ []) ≡ some f
  unfolding find
  find_last h = find_absent f.dir f.sub f.name fs (f ∷ []) h ∙ simp eq_refl refl

remove-none :
    (dir sub name : String) (fs : List File)
    → find dir sub name fs ≡ none
    → remove dir sub name fs ≡ fs
unfolding remove
remove-none dir sub name fs h =
    ap (remove dir sub name) (sym (append_nil fs))
    ∙ remove_absent dir sub name fs [] h
    ∙ append_nil fs

module _ (mailbox_dir : String → String → String) (unlink : Option Error) (name : String) (now : ℕ)
    (vhost mailbox : String) (fs : List File) where
  -- No file is added, or one in tmp/ under the new name that could not be removed.
  pub data Leftover : List File → Type 0 where
    clean : Leftover fs
    stuck :
        (body' : String)
        → unlink ≢ none
        → Leftover (
            fs
            ++ record {
              dir = mailbox_dir vhost mailbox;
              sub = "tmp";
              name = name;
              body = body';
              mod_time = now;
            }
              ∷ [])

  clean_up-Leftover :
      (body' : String)
      → find (mailbox_dir vhost mailbox) dir_tmp name fs ≡ none
      → Leftover (
          clean_up unlink
            (record {
              dir = mailbox_dir vhost mailbox;
              sub = dir_tmp;
              name = name;
              body = body';
              mod_time = now;
            })
            fs)
  unfolding clean_up
  clean_up-Leftover body' untaken =
      let tmp : File = record {
        dir = mailbox_dir vhost mailbox;
        sub = dir_tmp;
        name = name;
        body = body';
        mod_time = now;
      } in
      elim (Option-cases unlink) [
        | inl e ↦ rw (e, remove_last tmp fs untaken, clean_up) clean
        | inr (x, e) ↦ rw (e, clean_up) (stuck body' (λ h. absurd (cc h)))
      ]

module _ (mailbox_dir : String → String → String) (os : WriteFaults) (ctx : Context) (name : String)
    (now : ℕ) (vhost mailbox body : String) (fs : List File) where
  delivered_file : File
  delivered_file = record {
    dir = mailbox_dir vhost mailbox;
    sub = dir_new;
    name = name;
    body = body;
    mod_time = now;
  }

  abbrev pub delivered_ref : MessageRef
  delivered_ref = record { vhost = vhost; mailbox = mailbox; key = name }

  -- Nothing stands in the way of the delivery.
  pub Works : Type 0
  Works =
      (ctx.done ≡ none)
      × (os.mkdir ≡ none)
      × (os.open_file ≡ none)
      × (find (mailbox_dir vhost mailbox) dir_tmp name fs ≡ none)
      × (os.copy ≡ none)
      × (os.sync ≡ none)
      × (os.close ≡ none)
      × (os.rename ≡ none)

  -- What a delivery does: it fails, or there is one more file, from which the body is read.
  pub data Written : Result MessageRef × List File → Type 0 where
    refused :
        (e : Error) (left : List File)
        → ¬ Works
        → Leftover mailbox_dir os.unlink name now vhost mailbox fs left
        → Written (err e, left)
    delivered :
        (f : File)
        → ((reader : Context)
            → reader.done ≡ none
            → read mailbox_dir none none reader delivered_ref (fs ++ f ∷ []) ≡ ok (ok body))
        → Written (ok delivered_ref, fs ++ f ∷ [])

  read_delivered :
      (reader : Context)
      → reader.done ≡ none
      → find (mailbox_dir vhost mailbox) dir_new name fs ≡ none
      → read mailbox_dir none none reader delivered_ref (fs ++ delivered_file ∷ []) ≡ ok (ok body)
  unfolding read locate locate_in delivered_file
  read_delivered reader live fresh =
      let found = find_last delivered_file fs fresh in rw (live, found, read, locate_in) refl

  -- The rename.
  moved :
      let tmp : File = record delivered_file { sub = dir_tmp } in
      find (mailbox_dir vhost mailbox) dir_new name fs ≡ none
      → find (mailbox_dir vhost mailbox) dir_tmp name fs ≡ none
      → move tmp dir_new name (fs ++ tmp ∷ []) ≡ fs ++ delivered_file ∷ []
  unfolding move delivered_file
  moved fresh untaken =
      let tmp : File = record delivered_file { sub = dir_tmp } in
      ap (λ left. remove (mailbox_dir vhost mailbox) dir_new name left ++ delivered_file ∷ [])
        (remove_last tmp fs untaken)
      ∙ ap (λ left. left ++ delivered_file ∷ [])
          (remove-none (mailbox_dir vhost mailbox) dir_new name fs fresh)

  -- From the copy on.
  closing :
      ctx.done ≡ none
      → os.mkdir ≡ none
      → os.open_file ≡ none
      → find (mailbox_dir vhost mailbox) dir_tmp name fs ≡ none
      → find (mailbox_dir vhost mailbox) dir_new name fs ≡ none
      → Written (write mailbox_dir os ctx name now vhost mailbox body fs)
  unfolding write Works delivered_file
  closing a b c untaken fresh = elim (Option-cases os.copy) [
    | inr (x, e) ↦
        rw (a, b, c, untaken, e, write)
          (refused _ _ (λ w. absurd (cc (w.4)))
            (clean_up-Leftover mailbox_dir os.unlink name now vhost mailbox fs os.copied untaken))
    | inl d ↦ elim (Option-cases os.sync) [
      | inr (x, e) ↦
          rw (a, b, c, untaken, d, e, write)
            (refused _ _ (λ w. absurd (cc (w.5)))
              (clean_up-Leftover mailbox_dir os.unlink name now vhost mailbox fs body untaken))
      | inl f ↦ elim (Option-cases os.close) [
        | inr (x, e) ↦
            rw (a, b, c, untaken, d, f, e, write)
              (refused _ _ (λ w. absurd (cc (w.6)))
                (clean_up-Leftover mailbox_dir os.unlink name now vhost mailbox fs body untaken))
        | inl g ↦ elim (Option-cases os.rename) [
          | inr (x, e) ↦
              rw (a, b, c, untaken, d, f, g, e, write)
                (refused _ _ (λ w. absurd (cc (w.7)))
                  (clean_up-Leftover mailbox_dir os.unlink name now vhost mailbox fs body untaken))
          | inl h ↦
              rw (a, b, c, untaken, d, f, g, h, moved fresh untaken, write)
                (delivered delivered_file (λ reader live. read_delivered reader live fresh))
        ]
      ]
    ]
  ]

  -- A delivery under a name that new/ does not have either succeeds, and then the message is read back
  -- as it was written and every other file is as it was, or it fails for an error of the context or of
  -- the operating system or a name that tmp/ has; and then the files are as they were, but for one in
  -- tmp/ if that could not be removed.
  pub write-Written :
      find (mailbox_dir vhost mailbox) dir_new name fs ≡ none
      → Written (write mailbox_dir os ctx name now vhost mailbox body fs)
  unfolding write Works delivered_file
  write-Written fresh =
      let dir = mailbox_dir vhost mailbox in
      let tmp : File = record delivered_file { sub = dir_tmp } in
      elim (Option-cases ctx.done) [
        | inr (x, e) ↦ rw (e, write) (refused _ fs (λ w. absurd (cc (w.0))) clean)
        | inl a ↦ elim (Option-cases os.mkdir) [
          | inr (x, e) ↦ rw (a, e, write) (refused _ fs (λ w. absurd (cc (w.1))) clean)
          | inl b ↦ elim (Option-cases os.open_file) [
            | inr (x, e) ↦ rw (a, b, e, write) (refused _ fs (λ w. absurd (cc (w.2))) clean)
            | inl c ↦ elim (Option-cases (find dir dir_tmp name fs)) [
              | inr (x, e) ↦ rw (a, b, c, e, write) (refused _ fs (λ w. absurd (cc (w.3))) clean)
              | inl untaken ↦ closing a b c untaken fresh
            ]
          ]
        ]
      ]
