-- ===== src/Command/Modes.antt =====
-- Which flags start the client or the server.
use shadow_gre.Prelude.{
  ℕ, ◌≡◌, refl, sym, ap, ◌∙◌, inl, inr, true, false, ◌&&◌, ◌==◌, ==_iff, ==_self, Option, none,
  some, List, [], ◌∷◌, if_with, option_with, Bool-cases,
}
use shadow_gre.Command.Key.{password_to_key}
use shadow_gre.Command.Flags.{
  Flags, Action, Problem, prints_version, fails, client, server, client_mode, server_mode, text_eq,
  run_client, run_server, run_mode, main, no_mode, no_local, no_password, invalid_local,
  invalid_mode, no_listen, no_remote, invalid_remote, no_backend,
}

text_eq_sound : (a b : List ℕ) → text_eq a b ≡ true → a ≡ b
unfolding text_eq
text_eq_sound [] [] e = refl
text_eq_sound [] (y ∷ ys) e = cc
text_eq_sound (x ∷ xs) [] e = cc
text_eq_sound (x ∷ xs) (y ∷ ys) e = elim (Bool-cases (x == y)) [
  | inl same ↦
      let rest : text_eq xs ys ≡ true = ap (λ b. b && text_eq xs ys) (sym same) ∙ e in
      ap (λ t. t ∷ xs) ((==_iff x y).0 same) ∙ ap (λ t. y ∷ t) (text_eq_sound xs ys rest)
  | inr other ↦ elim (mismatch (ap (λ b. b && text_eq xs ys) (sym other) ∙ e)) [ ]
]
  where
    mismatch : ¬ (false ≡ true)
    mismatch q = cc

text_eq_self : (a : List ℕ) → text_eq a a ≡ true
unfolding text_eq
text_eq_self [] = refl
text_eq_self (x ∷ xs) = simp (==_self x, text_eq_self xs)

text_eq-empty : (a : List ℕ) → text_eq a [] ≡ false → ¬ (a ≡ [])
text_eq-empty a e empty = cc (text_eq_self [])

given : (a : List ℕ) → ¬ (a ≡ []) → text_eq a [] ≡ false
unfolding text_eq
given [] filled = elim (filled refl) [ ]
given (x ∷ xs) filled = refl

-- What holds of the flags in every case.
module _ (parse_ip : List ℕ → Option ℕ) (o : Flags) where
  pub record Common (local : ℕ) : Type 0 where
    pub runs : o.show_version ≡ false
    pub local_given : ¬ (o.local_ip ≡ [])
    pub password_given : ¬ (o.password ≡ [])
    pub local_valid : parse_ip o.local_ip ≡ some local

  pub record ClientFlags (local remote : ℕ) : Type 0 where
    pub common : Common local
    pub mode : o.mode ≡ client_mode
    pub listen_given : ¬ (o.listen ≡ [])
    pub remote_given : ¬ (o.remote ≡ [])
    pub remote_valid : parse_ip o.remote ≡ some remote

  pub record ServerFlags (local : ℕ) : Type 0 where
    pub common : Common local
    pub mode : o.mode ≡ server_mode
    pub backend_given : ¬ (o.backend ≡ [])

  -- Why there is a problem.
  abbrev pub Cause : Problem → Type 0
  Cause no_mode = o.mode ≡ []
  Cause no_local = o.local_ip ≡ []
  Cause no_password = o.password ≡ []
  Cause invalid_local = parse_ip o.local_ip ≡ none
  Cause invalid_mode = ¬ (o.mode ≡ client_mode) × ¬ (o.mode ≡ server_mode)
  Cause no_listen = (o.mode ≡ client_mode) × (o.listen ≡ [])
  Cause no_remote = (o.mode ≡ client_mode) × (o.remote ≡ [])
  Cause invalid_remote = (o.mode ≡ client_mode) × (parse_ip o.remote ≡ none)
  Cause no_backend = (o.mode ≡ server_mode) × (o.backend ≡ [])

  abbrev pub Explained : Action → Type 0
  Explained prints_version = o.show_version ≡ true
  Explained (fails problem) = (o.show_version ≡ false) × Cause problem
  Explained (client listen local remote key) =
      ClientFlags local remote × (listen ≡ o.listen) × (key ≡ password_to_key o.password)
  Explained (server local backend key) =
      ServerFlags local × (backend ≡ o.backend) × (key ≡ password_to_key o.password)

  run_client-Explained :
      {local : ℕ}
      → Common local
      → o.mode ≡ client_mode
      → Explained (run_client parse_ip o.listen local o.remote (password_to_key o.password))
  unfolding run_client
  run_client-Explained {local} c m =
      if_with Explained (text_eq o.listen []) (λ e. (c.runs, (m, text_eq_sound o.listen [] e)))
        (λ listen.
          if_with Explained (text_eq o.remote []) (λ e. (c.runs, (m, text_eq_sound o.remote [] e)))
            (λ remote.
              option_with Explained (parse_ip o.remote) (λ e. (c.runs, (m, e)))
                (λ ip e. (
                  record {
                    common = c;
                    mode = m;
                    listen_given = text_eq-empty o.listen listen;
                    remote_given = text_eq-empty o.remote remote;
                    remote_valid = e;
                  },
                  refl,
                  refl,
                ))))

  run_server-Explained :
      {local : ℕ}
      → Common local
      → o.mode ≡ server_mode
      → Explained (run_server parse_ip local o.backend (password_to_key o.password))
  unfolding run_server
  run_server-Explained {local} c m =
      if_with Explained (text_eq o.backend []) (λ e. (c.runs, (m, text_eq_sound o.backend [] e)))
        (λ backend. (
          record { common = c; mode = m; backend_given = text_eq-empty o.backend backend },
          refl,
          refl,
        ))

  run_mode-Explained :
      {local : ℕ}
      → Common local
      → Explained (run_mode parse_ip o local (password_to_key o.password))
  unfolding run_mode
  run_mode-Explained {local} c =
      if_with Explained (text_eq o.mode client_mode)
        (λ e. run_client-Explained c (text_eq_sound o.mode client_mode e))
        (λ not_client.
          if_with Explained (text_eq o.mode server_mode)
            (λ e. run_server-Explained c (text_eq_sound o.mode server_mode e))
            (λ not_server. (
              c.runs,
              (differs o.mode client_mode not_client, differs o.mode server_mode not_server),
            )))
    where
      differs : (a b : List ℕ) → text_eq a b ≡ false → ¬ (a ≡ b)
      differs a b e same = cc (text_eq_self b)

  main-Explained : Explained (main parse_ip o)
  unfolding main
  main-Explained =
      if_with Explained o.show_version (λ e. e)
        (λ runs.
          if_with Explained (text_eq o.mode []) (λ e. (runs, text_eq_sound o.mode [] e))
            (λ _.
              if_with Explained (text_eq o.local_ip []) (λ e. (runs, text_eq_sound o.local_ip [] e))
                (λ given_local.
                  if_with Explained (text_eq o.password [])
                    (λ e. (runs, text_eq_sound o.password [] e))
                    (λ given_password.
                      option_with Explained (parse_ip o.local_ip) (λ e. (runs, e))
                        (λ local e. run_mode-Explained (record {
                          runs = runs;
                          local_given = text_eq-empty o.local_ip given_local;
                          password_given = text_eq-empty o.password given_password;
                          local_valid = e;
                        }))))))

  main-client :
      (local remote : ℕ)
      → ClientFlags local remote
      → main parse_ip o ≡ client o.listen local remote (password_to_key o.password)
  unfolding main run_mode run_client text_eq password_to_key
  main-client local remote f = simp (
    f.common.runs,
    f.mode,
    given o.local_ip f.common.local_given,
    given o.password f.common.password_given,
    f.common.local_valid,
    given o.listen f.listen_given,
    given o.remote f.remote_given,
    f.remote_valid,
  )

  main-server :
      (local : ℕ)
      → ServerFlags local
      → main parse_ip o ≡ server local o.backend (password_to_key o.password)
  unfolding main run_mode run_server text_eq password_to_key
  main-server local f = simp (
    f.common.runs,
    f.mode,
    given o.local_ip f.common.local_given,
    given o.password f.common.password_given,
    f.common.local_valid,
    given o.backend f.backend_given,
  )

-- What the program does with its flags. Where it starts a client or a server, all of the flags that
-- this needs are given and valid, and it gets these flags and the key of the password; where it reports
-- a problem, that problem is there. Conversely, flags that are fit for a client start that client, and
-- flags that are fit for a server start that server.
pub main_lem :
    (parse_ip : List ℕ → Option ℕ) (o : Flags)
    → Explained parse_ip o (main parse_ip o)
      × ((local remote : ℕ)
          → ClientFlags parse_ip o local remote
          → main parse_ip o ≡ client o.listen local remote (password_to_key o.password))
      × ((local : ℕ)
          → ServerFlags parse_ip o local
          → main parse_ip o ≡ server local o.backend (password_to_key o.password))
main_lem parse_ip o = (main-Explained parse_ip o, main-client parse_ip o, main-server parse_ip o)
