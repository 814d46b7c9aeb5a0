-- ===== src/Storage/Maildir/Backend.antt =====
-- The operations of the Maildir store. A state is the list of its files, in the order in which
-- os.ReadDir gives the entries of a folder. Directories are no part of it: Write makes those of a
-- mailbox and leaves them also where it fails, and a directory without files is read as a missing one.
pub mod Writes
use Prim.Native.String.{[] as empty, ◌∷◌ as ◌▹◌}
use envelope.Prelude.{
  ℕ, suc, String, ◌<>◌, ◌=ₛ◌, quote, Bool, true, false, ◌&&◌, Option, none, some, List, [], ◌∷◌,
  ◌++◌, if◌then◌else◌,
}
use envelope.Context.{Context, Error, plain, wrap, Result, ok, err}
use envelope.Storage.{MessageRef, MessageMeta}
use envelope.Storage.Maildir.{info_sep, cut_info, encode_flags, decode_flags}

pub record File : Type 0 where
  pub dir : String
  pub sub : String
  pub name : String
  pub body : String
  pub mod_time : ℕ

abbrev pub dir_new : String
dir_new = "new"

abbrev pub dir_cur : String
dir_cur = "cur"

abbrev pub dir_tmp : String
dir_tmp = "tmp"

-- The errors that the operating system gives to the calls of one Write, each `none` for success, and
-- what a copy that fails has written. `unlink` is that of os.Remove, which Write ignores.
pub record WriteFaults : Type 0 where
  pub mkdir : Option Error
  pub open_file : Option Error
  pub copy : Option Error
  pub copied : String
  pub sync : Option Error
  pub close : Option Error
  pub rename : Option Error
  pub unlink : Option Error

abbrev pub is_at : String → String → String → File → Bool
is_at dir sub name f = (f.dir =ₛ dir) && ((f.sub =ₛ sub) && (f.name =ₛ name))

-- os.Stat, os.Open
unfoldable pub find : String → String → String → List File → Option File
find dir sub name [] = none
find dir sub name (f ∷ fs) =
    let later = find dir sub name fs in if is_at dir sub name f then some f else later

-- os.Remove
unfoldable pub remove : String → String → String → List File → List File
remove dir sub name [] = []
remove dir sub name (f ∷ fs) =
    let rest = remove dir sub name fs in if is_at dir sub name f then rest else f ∷ rest

-- os.Rename of a file into another folder of its mailbox, over what is there.
unfoldable pub move : File → String → String → List File → List File
move f sub name fs =
    remove f.dir sub name (remove f.dir f.sub f.name fs) ++ record f { sub = sub; name = name } ∷ []

pub record Located : Type 0 where
  pub file : File
  pub flags : List String

abbrev pub base_of : String → String
base_of name = elim (cut_info name) [ none ↦ name | some (base, info) ↦ base ]

abbrev pub flags_in : String → List String
flags_in name = elim (cut_info name) [ none ↦ [] | some (base, info) ↦ decode_flags info ]

-- The loop of locate over cur.
unfoldable pub find_cur : String → String → List File → Option Located
find_cur dir key [] = none
find_cur dir key (f ∷ fs) =
    let later = find_cur dir key fs in
    if (f.dir =ₛ dir) && ((f.sub =ₛ dir_cur) && (base_of f.name =ₛ key))
    then some (record { file = f; flags = flags_in f.name })
    else later

unfoldable pub not_found : String → Error
not_found key = plain ("maildir: message " <> (quote key <> " not found: file does not exist"))

unfoldable pub size_of : String → ℕ
size_of empty = 0
size_of (c ▹ s) = suc (size_of s)

-- locate, in the directory of the mailbox. `read_cur` is the error of os.ReadDir, if it has one other
-- than that there is no such directory.
unfoldable pub locate_in : String → Option Error → String → List File → Result Located
unfolding not_found
locate_in dir read_cur key fs = elim (find dir dir_new key fs) [
  | some f ↦ ok (record { file = f; flags = [] })
  | none ↦ elim read_cur [
    | some e ↦ err (wrap "maildir: read cur: " e)
    | none ↦ elim (find_cur dir key fs) [ none ↦ err (not_found key) | some found ↦ ok found ]
  ]
]

-- The files where Write removes its file in tmp, which comes last.
unfoldable pub clean_up : Option Error → File → List File → List File
clean_up unlink tmp fs = elim unlink [
  | none ↦ remove tmp.dir tmp.sub tmp.name (fs ++ tmp ∷ [])
  | some e ↦ fs ++ tmp ∷ []
]

-- `mailbox_dir` is filepath.Join of the store's base with a vhost and a mailbox.
module _ (mailbox_dir : String → String → String) where
  unfoldable pub write :
      WriteFaults
      → Context
      → String
      → ℕ
      → String
      → String
      → String
      → List File
      → Result MessageRef × List File
  write os ctx name now vhost mailbox body fs =
      let dir = mailbox_dir vhost mailbox in
      let tmp : File = record {
        dir = dir;
        sub = dir_tmp;
        name = name;
        body = body;
        mod_time = now;
      } in
      let opened = fs ++ tmp ∷ [] in
      let removed = clean_up os.unlink tmp fs in
      elim ctx.done [
        | some e ↦ (err e, fs)
        | none ↦ elim os.mkdir [
          | some e ↦ (err (wrap "maildir: create: " e), fs)
          | none ↦ elim os.open_file [
            | some e ↦ (err (wrap "maildir: create tmp file: " e), fs)
            | none ↦ elim (find dir dir_tmp name fs) [
              | some there ↦ (err (plain "maildir: create tmp file: file exists"), fs)
              | none ↦ elim os.copy [
                | some e ↦ (
                  err (wrap "maildir: write tmp file: " e),
                  clean_up os.unlink (record tmp { body = os.copied }) fs,
                )
                | none ↦ elim os.sync [
                  | some e ↦ (err (wrap "maildir: sync tmp file: " e), removed)
                  | none ↦ elim os.close [
                    | some e ↦ (err (wrap "maildir: close tmp file: " e), removed)
                    | none ↦ elim os.rename [
                      | some e ↦ (err (wrap "maildir: deliver to new: " e), removed)
                      | none ↦ (
                        ok (record { vhost = vhost; mailbox = mailbox; key = name }),
                        move tmp dir_new name opened,
                      )
                    ]
                  ]
                ]
              ]
            ]
          ]
        ]
      ]

  unfoldable pub locate : Option Error → MessageRef → List File → Result Located
  unfolding locate_in
  locate read_cur ref fs = locate_in (mailbox_dir ref.vhost ref.mailbox) read_cur ref.key fs

  -- The body, read to its end. `open_file` is the error of os.Open.
  unfoldable pub read :
      Option Error → Option Error → Context → MessageRef → List File → Result (Result String)
  read read_cur open_file ctx ref fs = elim ctx.done [
    | some e ↦ err e
    | none ↦ elim (locate read_cur ref fs) [
      | err e ↦ err e
      | ok found ↦ elim open_file [ some e ↦ err e | none ↦ ok (ok found.file.body) ]
    ]
  ]

  meta : String → String → String → List String → File → MessageMeta
  meta vhost mailbox key flags f = record {
    ref = record { vhost = vhost; mailbox = mailbox; key = key };
    size = size_of f.body;
    flags = flags;
    created_at = some f.mod_time;
  }

  unfoldable pub list_new : String → String → List File → List MessageMeta
  unfolding meta
  list_new vhost mailbox [] = []
  list_new vhost mailbox (f ∷ fs) =
      let rest = list_new vhost mailbox fs in
      if (f.dir =ₛ mailbox_dir vhost mailbox) && (f.sub =ₛ dir_new)
      then meta vhost mailbox f.name [] f ∷ rest
      else rest

  unfoldable pub list_cur : String → String → List File → List MessageMeta
  unfolding meta
  list_cur vhost mailbox [] = []
  list_cur vhost mailbox (f ∷ fs) =
      let rest = list_cur vhost mailbox fs in
      if (f.dir =ₛ mailbox_dir vhost mailbox) && (f.sub =ₛ dir_cur)
      then meta vhost mailbox (base_of f.name) (flags_in f.name) f ∷ rest
      else rest

  -- The two folders in one of the orders of the map; `read_dir` is an error of os.ReadDir or of Info.
  unfoldable pub list_mailbox :
      Option Error → Context → String → String → List File → Result (List MessageMeta)
  list_mailbox read_dir ctx vhost mailbox fs = elim ctx.done [
    | some e ↦ err e
    | none ↦ elim read_dir [
      | some e ↦ err (wrap "maildir: read: " e)
      | none ↦ ok (list_new vhost mailbox fs ++ list_cur vhost mailbox fs)
    ]
  ]

  -- `rename` is the error of os.Rename.
  unfoldable pub update_flags :
      Option Error
      → Option Error
      → Context
      → MessageRef
      → List String
      → List File
      → Option Error × List File
  update_flags read_cur rename ctx ref flags fs = elim ctx.done [
    | some e ↦ (some e, fs)
    | none ↦ elim (locate read_cur ref fs) [
      | err e ↦ (some e, fs)
      | ok found ↦
          let new_name = ref.key <> (info_sep <> encode_flags flags) in
          if (found.file.sub =ₛ dir_cur) && (found.file.name =ₛ new_name)
          then (none, fs)
          else (elim rename [
            | some e ↦ (some (wrap "maildir: update flags: " e), fs)
            | none ↦ (none, move found.file dir_cur new_name fs)
          ])
    ]
  ]

  -- `unlink` is the error of os.Remove.
  unfoldable pub delete_message :
      Option Error → Option Error → Context → MessageRef → List File → Option Error × List File
  delete_message read_cur unlink ctx ref fs = elim ctx.done [
    | some e ↦ (some e, fs)
    | none ↦ elim (locate read_cur ref fs) [
      | err e ↦ (some e, fs)
      | ok found ↦ elim unlink [
        | some e ↦ (some (wrap "maildir: delete: " e), fs)
        | none ↦ (none, remove found.file.dir found.file.sub found.file.name fs)
      ]
    ]
  ]
