-- ===== src/Server/Proxy/Routing.antt =====
-- Which files of nginx a change of the domains of an application leaves.
use nova_server_manager.Common.{
  Bool, true, false, not, ◌&&◌, ◌||◌, ◌≡◌, refl, sym, Text, text_eq, text_eq_iff, List, [], ◌∷◌,
  keep, Bool-cases, Option-cases, inl, inr, arith,
}
use mathlib.Core.Path.{subst, ◌∙◌}
use nova_server_manager.Server.Rows.{AppRow}
use nova_server_manager.Server.Proxy.{
  Content, Sites, Tools, proxying, has_file, content_of, unlink, put_file, config_name, legacy_name,
  globbed, desired, create_configs, dropped, retire, unlink_all, roll_back, configure_valid,
}

text_eq_sym : (a b : Text) → text_eq a b ≡ text_eq b a
text_eq_sym a b = elim (Bool-cases (text_eq a b)) [
  | inl same ↦ rw ((text_eq_iff a b).0 same) refl
  | inr differ ↦ elim (Bool-cases (text_eq b a)) [
    | inl same ↦ rw ((text_eq_iff b a).0 same) refl
    | inr both ↦ rw (differ, both) refl
  ]
]

has_file-keep :
    (q : Text → Bool) (files : List (Text × Content)) (n : Text)
    → has_file (keep (λ f. q f.0) files) n ≡ (has_file files n && q n)
has_file-keep q [] n = refl
has_file-keep q (f ∷ files) n = elim (Bool-cases (text_eq f.0 n)) [
  | inl same ↦
      let moves = subst (λ z. q f.0 ≡ q z) ((text_eq_iff f.0 n).0 same) refl in
      elim (Bool-cases (q f.0)) [
        | inl stays ↦ rw (stays, same, sym moves ∙ stays) refl
        | inr goes ↦
            rw (goes, same, sym moves ∙ goes, has_file-keep q files n)
              (rw (sym moves ∙ goes) (ground arith))
      ]
  | inr differ ↦ elim (Bool-cases (q f.0)) [
    | inl stays ↦ rw (stays, differ) (has_file-keep q files n)
    | inr goes ↦ rw (goes, differ) (has_file-keep q files n)
  ]
]

module _ (n : Text) where
  has_file-unlink :
      (name : Text) (s : Sites)
      → has_file (unlink name s).available n ≡ (has_file s.available n && not (text_eq n name))
  unfolding unlink
  has_file-unlink name s = has_file-keep (λ x. not (text_eq x name)) s.available n

  has_file-put_file :
      (name : Text) (c : Content) (s : Sites)
      → has_file (put_file name c s).available n ≡ (text_eq name n || has_file s.available n)
  unfolding put_file
  has_file-put_file name c s =
      rw (has_file-keep (λ x. not (text_eq x name)) s.available n, text_eq_sym n name)
        (ground arith)

  has_file-retire :
      (app : AppRow) (ds : List Text) (s : Sites)
      → has_file (retire app ds s).available n ≡ (has_file s.available n && not (dropped app ds n))
  unfolding retire
  has_file-retire app ds s = has_file-keep (λ x. not (dropped app ds x)) s.available n

  -- Files of one name are there or not there at once.
  same_file :
      (name : Text) (files : List (Text × Content)) (b : Bool)
      → has_file files name ≡ b
      → text_eq name n ≡ true
      → has_file files n ≡ b
  same_file name files b h same = subst (λ z. has_file files z ≡ b) ((text_eq_iff name n).0 same) h

  old-covers :
      (t h d : Bool)
      → (t ≡ true → h ≡ true)
      → ((h || d) ≡ (h || (t || d))) × ((d && not h) ≡ ((t || d) && not h))
  old-covers true h d f = rw (f refl) (refl, ground arith)
  old-covers false h d f = (refl, refl)

  new-covers :
      (t h d : Bool) → (t ≡ true → h ≡ false) → (t || d && not (t || h)) ≡ ((t || d) && not h)
  new-covers true h d f = rw (f refl) refl
  new-covers false h d f = refl

  -- What the loop makes is there afterwards, and all else is as it was.
  has_file-create_configs :
      (app : AppRow) (ds : List Text) (s : Sites)
      → has_file (create_configs app ds s).1.available n
        ≡ (has_file s.available n || desired app ds n)
  unfolding create_configs
  has_file-create_configs app [] s = ground arith
  has_file-create_configs app (d ∷ ds) s =
      elim (Bool-cases (has_file s.available (config_name app d))) [
        | inl old ↦ rw old (
            rw (has_file-create_configs app ds s)
              (old-covers _ (has_file s.available n) (desired app ds n)
                (same_file (config_name app d) s.available true old)).0)
        | inr new ↦ rw new (
            rw
              (
                has_file-create_configs app ds _,
                has_file-put_file (config_name app d) (proxying d app.host_port) s,
              )
              (ground arith))
      ]

  -- What it makes is what is wanted and is not there.
  desired-create_configs :
      (app : AppRow) (ds : List Text) (s : Sites)
      → desired app (create_configs app ds s).0 n
        ≡ (desired app ds n && not (has_file s.available n))
  unfolding create_configs
  desired-create_configs app [] s = refl
  desired-create_configs app (d ∷ ds) s =
      elim (Bool-cases (has_file s.available (config_name app d))) [
        | inl old ↦ rw old (
            rw (desired-create_configs app ds s)
              (old-covers _ (has_file s.available n) (desired app ds n)
                (same_file (config_name app d) s.available true old)).1)
        | inr new ↦ rw new (
            rw
              (
                desired-create_configs app ds _,
                has_file-put_file (config_name app d) (proxying d app.host_port) s,
              )
              (new-covers _ (has_file s.available n) (desired app ds n)
                (same_file (config_name app d) s.available false new)))
      ]

  has_file-unlink_all :
      (app : AppRow) (ds : List Text) (s : Sites)
      → has_file (unlink_all app ds s).available n
        ≡ (has_file s.available n && not (desired app ds n))
  has_file-unlink_all app [] s = ground arith
  has_file-unlink_all app (d ∷ ds) s =
      rw
        (
          has_file-unlink_all app ds (unlink (config_name app d) s),
          has_file-unlink (config_name app d) s,
          text_eq_sym n (config_name app d),
        )
        (ground arith)

  module _ (tools : Tools) (app : AppRow) (ds : List Text) (enable_ssl : Bool) (s : Sites)
      (there : tools.installed ≡ true) where
    abbrev filled : List Text × Sites
    filled = create_configs app ds (unlink (legacy_name app) s)

    has_file-left : has_file (retire app ds filled.1).available n ≡ (
        desired app ds n
        || has_file s.available n && not (text_eq n (legacy_name app)) && not (globbed app n))
    unfolding dropped
    has_file-left =
        rw
          (
            has_file-retire app ds filled.1,
            has_file-create_configs app ds (unlink (legacy_name app) s),
            has_file-unlink (legacy_name app) s,
          )
          (ground arith)

    -- Where nginx is installed and accepts the files, those that are left are the files of the domains that were asked for,
    -- and all others but the application's old single file and those that the application's pattern
    -- matches.
    pub configure_valid-routes :
        tools.check.ok ≡ true
        → has_file (configure_valid tools app ds enable_ssl s).1.available n ≡ (
            desired app ds n
            || has_file s.available n && not (text_eq n (legacy_name app)) && not (globbed app n))
    unfolding configure_valid
    configure_valid-routes fine = rw (there, fine, configure_valid) has_file-left

    emptied :
        text_eq n (legacy_name app) ≡ false
        → has_file (unlink_all app filled.0 (retire app ds filled.1)).available n
          ≡ (has_file s.available n && (desired app ds n || not (globbed app n)))
    emptied apart =
        rw
          (
            has_file-unlink_all app filled.0 (retire app ds filled.1),
            has_file-left,
            desired-create_configs app ds (unlink (legacy_name app) s),
            has_file-unlink (legacy_name app) s,
            apart,
          )
          (ground arith)

    -- Where nginx is installed and refuses the files, every file but the application's old single one is there afterwards
    -- exactly if it was there before and is not one that the application's pattern matches and no
    -- longer asked for: the files that were added are gone, and those that were removed are not restored.
    pub configure_valid-rolls_back :
        tools.check.ok ≡ false
        → text_eq n (legacy_name app) ≡ false
        → has_file (configure_valid tools app ds enable_ssl s).1.available n
          ≡ (has_file s.available n && (desired app ds n || not (globbed app n)))
    unfolding configure_valid roll_back
    configure_valid-rolls_back broken apart =
        rw (there, broken, configure_valid)
          (elim (Option-cases (content_of s.available (legacy_name app))) [
            | inl gone ↦ rw (gone, roll_back) (emptied apart)
            | inr (content, found) ↦
                rw
                  (
                    found,
                    roll_back,
                    has_file-put_file (legacy_name app) content
                        (unlink_all app filled.0 (retire app ds filled.1)),
                    text_eq_sym (legacy_name app) n,
                    apart,
                  )
                  (emptied apart)
          ])
