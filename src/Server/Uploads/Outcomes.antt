-- ===== src/Server/Uploads/Outcomes.antt =====
-- How the steps of an upload can end.
use nova_server_manager.Common.{
  ℕ, Bool, true, false, ◌≡◌, refl, ◌⊎◌, Text, Option, none, some, Bool-cases, Option-cases, inl,
  inr, ◌==◌,
}
use nova_server_manager.Server.Uploads.Steps.{
  Contents, file_count, byte_count, Flattened, flat, stuck, flatten, Disk, Extracted, whole_archive,
  broken_archive, Luck, Ending, done, too_large, raised, remove_old, swap, stage_files, attempt,
}

-- The directories when an upload begins: the names of the others are new.
abbrev pub at_first : Option Contents → Disk
at_first before = record { source = before; staging = none; old = none; temp = false }

-- The source is what it was, or the archive's files.
abbrev pub IsKept : Luck → (before after : Option Contents) → Type 0
IsKept luck before after =
    (after ≡ before)
    ⊎ ((items : Contents) × (staged : Contents) × (luck.extraction ≡ whole_archive items)
        × (flatten items ≡ flat staged)
        × (after ≡ some staged))

abbrev pub staged_disk : Option Contents → Contents → Disk
staged_disk before staged = record {
  source = before;
  staging = some staged;
  old = none;
  temp = true;
}

Flattened-cases :
    (f : Flattened)
    → ((items : Contents) × (f ≡ flat items)) ⊎ ((items : Contents) × (f ≡ stuck items))
Flattened-cases (flat items) = inl (items, refl)
Flattened-cases (stuck items) = inr (items, refl)

pub Ending-cases :
    (e : Ending)
    → ((files : ℕ) × (bytes : ℕ) × (e ≡ done files bytes))
      ⊎ ((e ≡ too_large) ⊎ ((text : Text) × (e ≡ raised text)))
Ending-cases (done files bytes) = inl (files, bytes, refl)
Ending-cases too_large = inr (inl refl)
Ending-cases (raised text) = inr (inr (text, refl))

Extracted-cases :
    (x : Extracted)
    → ((items : Contents) × (x ≡ whole_archive items))
      ⊎ ((text : Text) × (items : Option Contents) × (x ≡ broken_archive text items))
Extracted-cases (whole_archive items) = inl (items, refl)
Extracted-cases (broken_archive text items) = inr (text, items, refl)

module _ (luck : Luck) (files bytes : ℕ) where
  -- How the swap ends: with the source as it was, or with the old one aside, or with the staged files.
  pub data SwapsTo (before : Option Contents) (staged : Contents) (result : Ending × Disk)
      : Type 0 where
    untouched :
        (text : Text)
        → result ≡ (raised text, staged_disk before staged)
        → SwapsTo before staged result
    halfway :
        (text : Text) (old : Contents)
        → before ≡ some old
        → result ≡ (
          raised text,
          record { source = none; staging = some staged; old = some old; temp = true },
        )
        → SwapsTo before staged result
    replaced :
        result ≡ (
          done files bytes,
          record { source = some staged; staging = none; old = none; temp = true },
        )
        → SwapsTo before staged result
    left_over :
        (text : Text) (old left : Contents)
        → before ≡ some old
        → result ≡ (
          raised text,
          record { source = some staged; staging = none; old = some left; temp = true },
        )
        → SwapsTo before staged result

  pub swap-cases :
      (before : Option Contents) (staged : Contents)
      → SwapsTo before staged (swap luck files bytes (staged_disk before staged))
  unfolding swap remove_old
  swap-cases none staged = elim (Option-cases luck.move_in) [
    | inl moves ↦ replaced (rw moves refl)
    | inr (text, fails) ↦ untouched text (rw fails refl)
  ]
  swap-cases (some old) staged = elim (Option-cases luck.set_aside) [
    | inr (text, fails) ↦ untouched text (rw fails refl)
    | inl aside ↦ elim (Option-cases luck.move_in) [
      | inr (text, fails) ↦ halfway text old refl (rw aside (rw fails refl))
      | inl moves ↦ elim (Option-cases luck.remove_old) [
        | inl removed ↦ replaced (rw aside (rw moves (rw removed refl)))
        | inr ((text, left), fails) ↦
            left_over text old left refl (rw aside (rw moves (rw fails refl)))
      ]
    ]
  ]

module _ (luck : Luck) (large : Bool) (before : Option Contents) (items staged : Contents) where
  attempt-swaps :
      luck.write ≡ none
      → large ≡ false
      → luck.extraction ≡ whole_archive items
      → flatten items ≡ flat staged
      → (file_count staged == 0) ≡ false
      → attempt luck large (at_first before)
        ≡ swap luck (file_count staged) (byte_count staged) (staged_disk before staged)
  unfolding attempt stage_files swap
  attempt-swaps writes fits whole moved some_there =
      rw (writes, attempt) (rw fits (rw whole (rw (moved, stage_files) (rw some_there refl))))

abbrev pub is_done : Ending → Bool
is_done (done files bytes) = true
is_done too_large = false
is_done (raised text) = false

module _ (luck : Luck) (large : Bool) (before : Option Contents) where
  -- The steps stop before the swap, or come to it.
  pub data AttemptsTo (result : Ending × Disk) : Type 0 where
    stops :
        (ending : Ending) (staging : Option Contents)
        → is_done ending ≡ false
        → result ≡ (ending, record { source = before; staging = staging; old = none; temp = true })
        → AttemptsTo result
    swaps :
        (items staged : Contents)
        → luck.extraction ≡ whole_archive items
        → flatten items ≡ flat staged
        → result ≡ swap luck (file_count staged) (byte_count staged) (staged_disk before staged)
        → AttemptsTo result

  pub attempt-cases : AttemptsTo (attempt luck large (at_first before))
  unfolding attempt stage_files
  attempt-cases = elim (Option-cases luck.write) [
    | inr ((text, n), fails) ↦ stops (raised text) none refl (rw fails refl)
    | inl writes ↦ elim (Bool-cases large) [
      | inl too_big ↦ stops too_large none refl (rw (writes, attempt) (rw too_big refl))
      | inr fits ↦ elim (Extracted-cases luck.extraction) [
        | inr (text, items, broken) ↦
            stops (raised text) items refl (rw (writes, attempt) (rw fits (rw broken refl)))
        | inl (items, whole) ↦ elim (Flattened-cases (flatten items)) [
          | inr (left, stays) ↦
              stops (raised luck.stuck_text) (some left) refl
                (rw (writes, attempt) (rw fits (rw whole (rw (stays, stage_files) refl))))
          | inl (staged, moved) ↦ elim (Bool-cases (file_count staged == 0)) [
            | inl none_there ↦ stops (raised luck.no_files_text) (some staged) refl (
                rw (writes, attempt)
                  (rw fits (rw whole (rw (moved, stage_files) (rw none_there refl)))))
            | inr some_there ↦
                swaps items staged whole moved
                  (attempt-swaps luck large before items staged writes fits whole moved some_there)
          ]
        ]
      ]
    ]
  ]
