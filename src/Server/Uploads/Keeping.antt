-- ===== src/Server/Uploads/Keeping.antt =====
-- What an upload leaves of the source of an application.
use nova_server_manager.Common.{
  ℕ, Bool, true, false, ◌≡◌, refl, ◌⊎◌, Text, Option, none, some, List, text_eq, Bool-cases, inl,
  inr, arith, ◌||◌,
}
use mathlib.Core.Path.{sym}
use nova_server_manager.Server.Rows.{AppRow, UploadRow}
use nova_server_manager.Server.Replies.{Reply, answers, refuses, upload_failed}
use nova_server_manager.Server.Deploys.{Panel}
use nova_server_manager.Server.Uploads.Steps.{
  folder, Contents, nothing, item, file_count, byte_count, flat, stuck, move_up, flatten, Disk,
  whole_archive, Luck, done, too_large, raised, receive_chunks, swap, stage_files, attempt,
  clean_up, clean_up_fails,
}
use nova_server_manager.Server.Uploads.Outcomes.{
  at_first, IsKept, staged_disk, untouched, halfway, replaced, left_over, swap-cases, stops, swaps,
  attempt-cases, Ending-cases,
}
use nova_server_manager.Server.Uploads.{reply_after, finish_upload}

module _ (luck : Luck) (unlinks : luck.unlinks ≡ true) (puts_back : luck.puts_back ≡ true) where
  swap-keeps :
      (before : Option Contents) (files bytes : ℕ) (staged : Contents)
      → ((clean_up luck (swap luck files bytes (staged_disk before staged)).1).source ≡ before)
        ⊎ ((clean_up luck (swap luck files bytes (staged_disk before staged)).1).source
            ≡ some staged)
  swap-keeps before files bytes staged = elim (swap-cases luck files bytes before staged) [
    | untouched text is ↦ rw is (unfold clean_up in rw unlinks (inl refl))
    | halfway text old had is ↦ rw is (unfold clean_up in rw (unlinks, puts_back) (inl (sym had)))
    | replaced is ↦ rw is (unfold clean_up in rw unlinks (inr refl))
    | left_over text old left had is ↦ rw is (unfold clean_up in rw unlinks (inr refl))
  ]

  attempt-keeps :
      (large : Bool) (before : Option Contents)
      → IsKept luck before (clean_up luck (attempt luck large (at_first before)).1).source
  attempt-keeps large before = elim (attempt-cases luck large before) [
    | stops ending staging fails is ↦ rw is (unfold clean_up in rw unlinks (inl refl))
    | swaps items staged whole moved is ↦
        rw is (elim (swap-keeps before (file_count staged) (byte_count staged) staged) [
          | inl same ↦ inl same
          | inr new ↦ inr (items, staged, whole, moved, new)
        ])
  ]

module _ (limit : ℕ) (too_large_text : Text) (luck : Luck) (now : ℕ) (app : AppRow)
    (row : UploadRow) (chunks : List ℕ) (s : Panel) (before : Option Contents) where
  -- An upload, however it ends.
  abbrev pub uploaded : Reply UploadRow × Panel × Disk
  uploaded = finish_upload limit too_large_text luck now app row chunks s (at_first before)

  uploaded-disk :
      uploaded.2
      ≡ clean_up luck (attempt luck (receive_chunks limit chunks 0).0 (at_first before)).1
  unfolding finish_upload
  uploaded-disk =
      elim (Ending-cases (attempt luck (receive_chunks limit chunks 0).0 (at_first before)).0) [
        | inl (files, bytes, is) ↦ rw (is, finish_upload) refl
        | inr (inl is) ↦ rw (is, finish_upload) refl
        | inr (inr (text, is)) ↦ rw (is, finish_upload) refl
      ]

  -- Whichever step of an upload fails, with whatever exception, as long as the `finally` block can remove
  -- the received file and put back a directory that was set aside, the source of the application is afterwards what it was before, or all that the
  -- archive holds, without the only folder around it.
  pub finish_upload-keeps :
      luck.unlinks ≡ true → luck.puts_back ≡ true → IsKept luck before uploaded.2.source
  finish_upload-keeps unlinks puts_back =
      rw uploaded-disk
        (attempt-keeps luck unlinks puts_back (receive_chunks limit chunks 0).0 before)

  -- What an upload that is answered leaves.
  abbrev pub IsReplaced : Disk → Type 0
  IsReplaced after =
      (items : Contents) × (staged : Contents) × (luck.extraction ≡ whole_archive items)
      × (flatten items ≡ flat staged)
      × (after ≡ record { source = some staged; staging = none; old = none; temp = false })

  swept :
      {staged : Contents}
      → luck.unlinks ≡ true
      → clean_up luck (record { source = some staged; staging = none; old = none; temp = true })
        ≡ record { source = some staged; staging = none; old = none; temp = false }
  unfolding clean_up
  swept unlinks = elim (Bool-cases luck.sweeps) [
    | inl yes_it ↦ rw (yes_it, unlinks) refl
    | inr no_it ↦ rw (no_it, unlinks) refl
  ]

  -- An answer is one of the body, and then the received file was removed.
  reply_after-answers :
      (after : Disk) (reply : Reply UploadRow) (r : UploadRow)
      → reply_after luck after reply ≡ answers r
      → (luck.unlinks ≡ true) × (reply ≡ answers r)
  unfolding reply_after clean_up_fails
  reply_after-answers after reply r h = ground arith

  -- An upload that the server answers has put all that the archive holds in the place of the source, and
  -- has left nothing else behind.
  pub finish_upload-replaces : (r : UploadRow) → uploaded.0 ≡ answers r → IsReplaced uploaded.2
  unfolding finish_upload
  finish_upload-replaces r = elim (attempt-cases luck (receive_chunks limit chunks 0).0 before) [
    | stops (done files bytes) staging ends is ↦ cc
    | stops too_large staging fails is ↦
        rw (is, finish_upload) (λ h. let (_, k) = reply_after-answers _ _ r h in cc)
    | stops (raised text) staging fails is ↦
        rw (is, finish_upload) (λ h. let (_, k) = reply_after-answers _ _ r h in cc)
    | swaps items staged whole moved is ↦
        elim (swap-cases luck (file_count staged) (byte_count staged) before staged) [
          | untouched text ends ↦
              rw (is, finish_upload) (rw ends (λ h. let (_, k) = reply_after-answers _ _ r h in cc))
          | halfway text old had ends ↦
              rw (is, finish_upload) (rw ends (λ h. let (_, k) = reply_after-answers _ _ r h in cc))
          | replaced ends ↦
              rw (is, finish_upload)
                (rw ends (λ h. (
                  items,
                  staged,
                  whole,
                  moved,
                  rw is (rw ends (swept (reply_after-answers _ _ r h).0)),
                )))
          | left_over text old left had ends ↦
              rw (is, finish_upload) (rw ends (λ h. let (_, k) = reply_after-answers _ _ r h in cc))
        ]
  ]

-- The response after the `finally` block, where the source was not set aside.
replies :
    (luck : Luck) (source staging : Option Contents) (reply : Reply UploadRow)
    → luck.unlinks ≡ true
    → reply_after luck
        (record { source = source; staging = staging; old = none; temp = true })
        reply
      ≡ reply
unfolding reply_after clean_up_fails
replies luck source staging reply unlinks = rw unlinks refl

-- Whether the folder has an entry of this name.
abbrev pub has_entry : Text → Contents → Bool
has_entry top nothing = false
has_entry top (item name node rest) = text_eq name top || has_entry top rest

move_up-stuck :
    (top : Text) (inner moved : Contents)
    → has_entry top inner ≡ true
    → (left : Contents) × (move_up top inner moved ≡ stuck left)
unfolding move_up
move_up-stuck top nothing moved h = cc
move_up-stuck top (item name node rest) moved h = elim (Bool-cases (text_eq name top)) [
  | inl same ↦ (item top (folder (item name node rest)) moved, rw same refl)
  | inr other ↦
      let (left, stays) = move_up-stuck top rest (item name node moved) (ground arith) in
      (left, rw (other, stays) refl)
]

attempt-stuck :
    (luck : Luck) (large : Bool) (before : Option Contents) (top : Text) (inner left : Contents)
    → luck.write ≡ none
    → large ≡ false
    → luck.extraction ≡ whole_archive (item top (folder inner) nothing)
    → move_up top inner nothing ≡ stuck left
    → attempt luck large (at_first before) ≡ (
      raised luck.stuck_text,
      record { source = before; staging = some left; old = none; temp = true },
    )
unfolding attempt stage_files flatten
attempt-stuck luck large before top inner left writes fits whole stays =
    rw (writes, attempt) (rw fits (rw whole (rw (stays, stage_files) refl)))

module _ (limit : ℕ) (too_large_text : Text) (luck : Luck) (now : ℕ) (app : AppRow)
    (row : UploadRow) (chunks : List ℕ) (s : Panel) (before : Option Contents) (top : Text)
    (inner : Contents) where
  -- Where an archive is received and extracted without a failure and the received file can be removed,
  -- and the only entry of the archive is a folder that has an entry of its own name, the request is refused with the exception of the rename, and the source
  -- stays as it was.
  pub finish_upload-twin :
      luck.write ≡ none
      → luck.unlinks ≡ true
      → (receive_chunks limit chunks 0).0 ≡ false
      → luck.extraction ≡ whole_archive (item top (folder inner) nothing)
      → has_entry top inner ≡ true
      → ((uploaded limit too_large_text luck now app row chunks s before).0
          ≡ refuses (upload_failed luck.stuck_text))
        × ((uploaded limit too_large_text luck now app row chunks s before).2.source ≡ before)
  unfolding finish_upload
  finish_upload-twin writes unlinks fits whole twin =
      let (left, stays) = move_up-stuck top inner nothing twin in
      let ends = attempt-stuck luck _ before top inner left writes fits whole stays in
      (
        rw (ends, finish_upload)
            (rw ends (replies luck _ _ (refuses (upload_failed luck.stuck_text)) unlinks)),
        rw (uploaded-disk limit too_large_text luck now app row chunks s before)
            (rw ends (unfold clean_up in rw unlinks refl)),
      )
