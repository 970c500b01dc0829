-- ===== src/Server/Uploads/Steps.antt =====
-- app/routers/apps.py: the steps of `upload_source` on the directories beside the source of an
-- application, with app/services/file_service.py's `directory_stats`.
use nova_server_manager.Common.{
  ℕ, ◌+◌, ltb, Bool, true, false, not, ◌&&◌, ◌||◌, ◌==◌, Text, text_eq, Option, none, some, List,
  [], ◌∷◌, if◌then◌else◌,
}

-- What a directory holds, in the order in which it is listed.
mutual
  pub data Node : Type 0 where
    file : (size : ℕ) → Node
    folder : Contents → Node

  pub data Contents : Type 0 where
    nothing : Contents
    item : (name : Text) → Node → Contents → Contents

-- `directory_stats`: the number of the files and the sum of their sizes.
unfoldable mutual
  pub node_files : Node → ℕ
  node_files (file size) = 1
  node_files (folder items) = file_count items

  pub file_count : Contents → ℕ
  file_count nothing = 0
  file_count (item name node items) = node_files node + file_count items

unfoldable mutual
  pub node_size : Node → ℕ
  node_size (file size) = size
  node_size (folder items) = byte_count items

  pub byte_count : Contents → ℕ
  byte_count nothing = 0
  byte_count (item name node items) = node_size node + byte_count items

-- What moving the entries of the only folder up leaves: a rename onto the folder itself, which is not
-- empty, raises an exception.
pub data Flattened : Type 0 where
  flat : Contents → Flattened
  stuck : Contents → Flattened

unfoldable pub move_up : (top : Text) → Contents → (moved : Contents) → Flattened
unfolding text_eq
move_up top nothing moved = flat moved
move_up top (item name node rest) moved =
    let next = move_up top rest (item name node moved) in
    if text_eq name top then stuck (item top (folder (item name node rest)) moved) else next

unfoldable pub flatten : Contents → Flattened
flatten (item top (folder inner) nothing) = move_up top inner nothing
flatten items = flat items

-- The directories `source`, `staging` and `old`, and whether the file `temp` is there.
pub record Disk : Type 0 where
  pub source : Option Contents
  pub staging : Option Contents
  pub old : Option Contents
  pub temp : Bool

-- What `extract_zip_safely` does: it fills the directory, or raises an exception, and leaves what it
-- has extracted, if it could make the directory at all.
pub data Extracted : Type 0 where
  whole_archive : Contents → Extracted
  broken_archive : (message : Text) → Option Contents → Extracted

-- What goes wrong at each step: the text of the exception. The rest are the texts of the exceptions of
-- the server, in Persian, and of a rename that is refused.
pub record Luck : Type 0 where
  -- with the bytes that are counted by then
  pub write : Option (Text × ℕ)
  pub extraction : Extracted
  pub set_aside : Option Text
  pub move_in : Option Text
  -- with what is left of the old source
  pub remove_old : Option (Text × Contents)
  -- whether the `finally` block can remove the file `temp`, whether it removes the directories that are
  -- left, which stay if not, and whether it can put the old source back
  pub unlinks : Bool
  pub sweeps : Bool
  pub puts_back : Bool
  pub no_files_text : Text
  pub stuck_text : Text

-- How the body of the `try` ends.
pub data Ending : Type 0 where
  done : (files bytes : ℕ) → Ending
  too_large : Ending
  raised : Text → Ending

-- The loop that reads the chunks: whether the file is too large, and the bytes that are counted.
unfoldable pub receive_chunks : (limit : ℕ) → List ℕ → (size : ℕ) → Bool × ℕ
receive_chunks limit [] size = (false, size)
receive_chunks limit (chunk ∷ chunks) size =
    let rest = receive_chunks limit chunks (size + chunk) in
    if ltb limit (size + chunk) then (true, size + chunk) else rest

-- The swap: the source is set aside, the staged files take its place, and the old ones go.
unfoldable pub remove_old : Luck → (files bytes : ℕ) → Disk → Ending × Disk
remove_old luck files bytes d = elim luck.remove_old [
  | none ↦ (done files bytes, record d { old = none })
  | some (text, left) ↦ (raised text, record d { old = some left })
]

unfoldable pub swap : Luck → (files bytes : ℕ) → Disk → Ending × Disk
swap luck files bytes d = elim d.source [
  | none ↦ elim luck.move_in [
    | some text ↦ (raised text, d)
    | none ↦ (done files bytes, record d { source = d.staging; staging = none })
  ]
  | some before ↦ elim luck.set_aside [
    | some text ↦ (raised text, d)
    | none ↦ elim luck.move_in [
      | some text ↦ (raised text, record d { source = none; old = some before })
      | none ↦
          remove_old luck files bytes
            (record d { source = d.staging; staging = none; old = some before })
    ]
  ]
]

-- From the staged files on.
unfoldable pub stage_files : Luck → Contents → Disk → Ending × Disk
stage_files luck items d = elim (flatten items) [
  | stuck left ↦ (raised luck.stuck_text, record d { staging = some left })
  | flat staged ↦
      if file_count staged == 0
      then (raised luck.no_files_text, record d { staging = some staged })
      else swap luck (file_count staged) (byte_count staged) (record d { staging = some staged })
]

-- The body of the `try` up to the changes of the rows.
unfoldable pub attempt : Luck → (large : Bool) → Disk → Ending × Disk
attempt luck large d = elim luck.write [
  | some (text, size) ↦ (raised text, record d { temp = true })
  | none ↦ if large then (too_large, record d { temp = true }) else elim luck.extraction [
    | broken_archive text left ↦ (raised text, record d { temp = true; staging = left })
    | whole_archive items ↦ stage_files luck items (record d { temp = true })
  ]
]

-- The `finally` block: if the removal of `temp` raises an exception, nothing else of it is done.
unfoldable pub clean_up : Luck → Disk → Disk
clean_up luck d =
    let staging = if luck.sweeps then none else d.staging in
    if not luck.unlinks then d else elim d.old [
      | none ↦ record d { temp = false; staging = staging }
      | some before ↦ elim d.source [
        | none ↦
            if luck.puts_back
            then record d { temp = false; staging = staging; source = some before; old = none }
            else record d { temp = false; staging = staging }
        | some now ↦ record d {
          temp = false;
          staging = staging;
          old = if luck.sweeps then none else d.old;
        }
      ]
    ]

abbrev pub is_there : Option Contents → Bool
is_there none = false
is_there (some c) = true

-- Whether the `finally` block raises an exception, which takes the place of the response.
unfoldable pub clean_up_fails : Luck → Disk → Bool
clean_up_fails luck d =
    not luck.unlinks || is_there d.old && not (is_there d.source) && not luck.puts_back
