-- ===== src/Files/Races.antt =====
-- Navigations of `SourceTab` that overlap.
use nova_server_manager.Common.{
  ℕ, suc, ◌≡◌, refl, true, Text, Ordering, some, List, [], ◌∷◌, ◌++◌, length, get_elem?, take,
  arith, ap, sym, ◌∙◌, length-take, lt-length_of_get_elem?, get_elem?-append_length,
}
use nova_server_manager.Client.Error.{ok}
use nova_server_manager.Client.Request.{Listing}
use nova_server_manager.Client.Effect.{Prog}
use nova_server_manager.Client.Run.{effects}
use nova_server_manager.Client.Machine.{
  Machine, idle, Choices, reached, left, start, resume, Reach, here, later, start_as,
}
use nova_server_manager.Files.State.{Manager}
use nova_server_manager.Files.{load, navigate_path, travel, travel_to}
use nova_server_manager.Files.Session.{Command, handler, go_root, go_forward}
use nova_server_manager.Files.Controls.{enabled}

module _ (lower : Text → Text) (collate : Text → Text → Ordering) (app_id : ℕ) (choices : Choices)
    (s : Manager) (a : Text) (forward : get_elem? s.history (suc s.history_index) ≡ some a)
    (there root : Listing) where
  going : Prog Manager (Unit {0})
  going = travel_to app_id (suc s.history_index) (some a)

  pressed : handler lower collate app_id s go_forward ≡ going
  unfolding handler travel going
  pressed = ap (travel_to app_id (suc s.history_index)) forward

  can_press : enabled app_id s go_forward ≡ true
  unfolding enabled
  can_press = ground (arith, lt-length_of_get_elem? s.history (suc s.history_index) a forward)

  -- If there is a folder ahead in the history, then, for any listing `there`, the enabled controls and
  -- answers of the server lead to a page on which nothing waits and which shows the folder that `there`
  -- names, while the entry of the history at the index is the root.
  pub forward_race :
      (m : Machine Manager Command) × Reach
        (enabled app_id)
        (handler lower collate app_id)
        (idle s)
        m
      × (m.tasks ≡ [])
      × (m.state.path ≡ there.path)
      × (get_elem? m.state.history m.state.history_index ≡ some [])
  unfolding effects reached left handler enabled going travel_to navigate_path load
  forward_race =
      let kept : List Text = take (suc s.history_index) s.history in
      let end : suc s.history_index ≡ length kept = sym (
        length-take (suc s.history_index) s.history
          (omega (arith, lt-length_of_get_elem? s.history (suc s.history_index) a forward))) in
      let clicked =
        later (later here (start_as (idle s) go_forward choices going pressed can_press))
          (start go_root choices refl) in
      let listed = later clicked (resume [] _ _ _ _ choices (ok root)) in
      (
        _,
        later listed (resume [] _ _ _ _ choices (ok there)),
        refl,
        refl,
        ap (get_elem? (kept ++ [] ∷ [])) end ∙ get_elem?-append_length kept [],
      )
