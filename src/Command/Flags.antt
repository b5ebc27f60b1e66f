-- ===== src/Command/Flags.antt =====
-- `main`, `runClient` and `runServer` of cmd/shadow-gre/main.go. A flag is the text given, as bytes.
use shadow_gre.Prelude.{
  ℕ, Bool, true, false, ◌&&◌, ◌==◌, if◌then◌else◌, Option, none, some, Error, List, [], ◌∷◌,
}
use shadow_gre.Command.Key.{password_to_key}

pub record Flags : Type 0 where
  pub mode : List ℕ
  pub listen : List ℕ
  pub local_ip : List ℕ
  pub remote : List ℕ
  pub backend : List ℕ
  pub password : List ℕ
  pub show_version : Bool

-- What is printed before the program exits with 1.
pub data Problem : Type 0 where
  no_mode no_local no_password invalid_local invalid_mode : Problem
  no_listen no_remote invalid_remote no_backend : Problem

-- What the program does with its flags: the arguments of `NewClient` or of `NewServer`.
pub data Action : Type 0 where
  prints_version : Action
  fails : Problem → Action
  client : List ℕ → ℕ → ℕ → ℕ → Action
  server : ℕ → List ℕ → ℕ → Action

abbrev pub client_mode : List ℕ
client_mode = b'c' ∷ b'l' ∷ b'i' ∷ b'e' ∷ b'n' ∷ b't' ∷ []

abbrev pub server_mode : List ℕ
server_mode = b's' ∷ b'e' ∷ b'r' ∷ b'v' ∷ b'e' ∷ b'r' ∷ []

unfoldable pub text_eq : List ℕ → List ℕ → Bool
text_eq [] [] = true
text_eq [] (y ∷ ys) = false
text_eq (x ∷ xs) [] = false
text_eq (x ∷ xs) (y ∷ ys) = x == y && text_eq xs ys

-- `net.ParseIP`, none where that is nil.
module _ (parse_ip : List ℕ → Option ℕ) where
  unfoldable pub run_client : List ℕ → ℕ → List ℕ → ℕ → Action
  run_client listen local remote key =
      if text_eq listen []
      then fails no_listen
      else (if text_eq remote [] then fails no_remote else (elim (parse_ip remote) [
        | none ↦ fails invalid_remote
        | some ip ↦ client listen local ip key
      ]))

  unfoldable pub run_server : ℕ → List ℕ → ℕ → Action
  run_server local backend key =
      if text_eq backend [] then fails no_backend else server local backend key

  -- The `switch` on the mode.
  unfoldable pub run_mode : Flags → ℕ → ℕ → Action
  run_mode o local key =
      if text_eq o.mode client_mode
      then run_client o.listen local o.remote key
      else (if text_eq o.mode server_mode
          then run_server local o.backend key
          else fails invalid_mode)

  unfoldable pub main : Flags → Action
  main o =
      if o.show_version
      then prints_version
      else (if text_eq o.mode []
          then fails no_mode
          else (if text_eq o.local_ip []
              then fails no_local
              else (if text_eq o.password []
                  then fails no_password
                  else (elim (parse_ip o.local_ip) [
                    | none ↦ fails invalid_local
                    | some local ↦ run_mode o local (password_to_key o.password)
                  ]))))

-- The status with which the program ends, given what `Start` returns; one that has started ends by a
-- signal.
unfoldable pub exit_status : Action → Option Error → ℕ
exit_status prints_version result = 0
exit_status (fails problem) result = 1
exit_status (client listen local remote key) none = 0
exit_status (client listen local remote key) (some e) = 1
exit_status (server local backend key) none = 0
exit_status (server local backend key) (some e) = 1
