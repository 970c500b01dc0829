-- ===== src/Console/Transcript.antt =====
-- What the console of an application sends and shows over many commands.
use nova_server_manager.Common.{
  ℕ, ◌≡◌, refl, ap, ◌∙◌, Bool, not, Text, codes, trim, is_empty, List, [], ◌∷◌, ◌++◌, keep,
  append-nil, append_assoc, arith, Bool-cases, inl, inr, sym, if◌then◌else◌,
}
use nova_server_manager.Client.Error.{Result-cases, message_of}
use nova_server_manager.Client.Message.{Message, unknown_error}
use nova_server_manager.Client.Request.{Request, exec_command}
use nova_server_manager.Client.Run.{Env, Log, run, requests, effects}
use nova_server_manager.Console.{Shell, execute, session, reply}

-- The requests of these commands, put on top of earlier ones: the latest stands first.
abbrev pub executions : ℕ → List Text → List Request → List Request
executions app_id [] earlier = earlier
executions app_id (command ∷ rest) earlier =
    executions app_id rest (exec_command app_id command ∷ earlier)

-- Not only white space.
abbrev pub is_full : Text → Bool
is_full command = not (is_empty (trim command))

module _ (printed : Message → Text) (app_id : ℕ) (env : Env) where
  requests-execute :
      (s : Shell) (l : Log)
      → requests (run env (execute printed app_id s) s l).log
        ≡ (if is_full s.command then exec_command app_id s.command ∷ requests l else requests l)
  unfolding effects execute requests
  requests-execute s l = ground arith

  sent_first :
      (c : Text) (cs : List Text) (earlier : List Request)
      → executions app_id
          (keep is_full cs)
          (if is_full c then exec_command app_id c ∷ earlier else earlier)
        ≡ executions app_id (keep is_full (c ∷ cs)) earlier
  sent_first c cs earlier = elim (Bool-cases (is_full c)) [
    | inl full ↦ rw full refl
    | inr blank ↦ rw blank refl
  ]

  -- What is printed stays.
  abbrev pub Extends : Text → Text → Type 0
  Extends old new = (more : Text) × (new ≡ old ++ more)

  output-execute :
      (s : Shell) (l : Log) → Extends s.output (run env (execute printed app_id s) s l).state.output
  unfolding effects execute
  output-execute s l = elim (Bool-cases (is_empty (trim s.command))) [
    | inl blank ↦ ([], ground (arith, append-nil s.output))
    | inr full ↦
        let asked : Text = (codes "$ " ++ s.command) ++ codes "\n" in
        elim (Result-cases (env.answer l (exec_command app_id s.command))) [
          | inl (r, fine) ↦
              let shown : Text = reply r ++ codes "\n" in
              (asked ++ shown, ground (arith, append_assoc s.output asked shown))
          | inr (e, failed) ↦
              let shown : Text =
                (codes "Error: " ++ printed (message_of e unknown_error)) ++ codes "\n" in
              (asked ++ shown, ground (arith, append_assoc s.output asked shown))
        ]
  ]

  -- Over commands that are executed one after another, exactly those that are not blank are sent, as
  -- they were typed, once each and in order, whatever is answered to them.
  requests-session :
      (commands : List Text) (s : Shell) (l : Log)
      → requests (session printed app_id env commands s l).log
        ≡ executions app_id (keep is_full commands) (requests l)
  unfolding session effects
  requests-session [] s l = refl
  requests-session (c ∷ cs) s l =
      requests-session cs _ _
      ∙ (ap (executions app_id (keep is_full cs)) (requests-execute (record s { command = c }) l)
          ∙ sent_first c cs (requests l))

  -- Whatever is executed, what the console has shown stays in front.
  pub output-session :
      (commands : List Text) (s : Shell) (l : Log)
      → Extends s.output (session printed app_id env commands s l).state.output
  unfolding session effects
  output-session [] s l = ([], sym (append-nil s.output))
  output-session (c ∷ cs) s l =
      let typed = record s { command = c } in
      let next = run env (execute printed app_id typed) typed l in
      let (p, first) = output-execute typed l in
      let (q, rest) = output-session cs next.state next.log in
      (p ++ q, rest ∙ (ap (λ (o : Text). o ++ q) first ∙ append_assoc s.output p q))
