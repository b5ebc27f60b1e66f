-- ===== src/Tests/Commands.antt =====
-- Passwords and flags.
use shadow_gre.Prelude.{ℕ, ◌≡◌, false, Option, none, some, List, [], ◌∷◌, arith}
use shadow_gre.Wire.{IsU32}
use shadow_gre.Command.Key.{password_to_key, one_byte_changes_key}
use shadow_gre.Command.Flags.{Flags, client, server, client_mode, main}
use shadow_gre.Command.Modes.{Explained, ClientFlags, ServerFlags, main_lem}

one_byte_changes_key_example :
    IsU32 (password_to_key (b's' ∷ b'a' ∷ b't' ∷ []))
    × (password_to_key (b's' ∷ b'a' ∷ b't' ∷ []) ≡ password_to_key (b's' ∷ b'e' ∷ b't' ∷ [])
        → ◌≡◌ {A = ℕ} b'a' b'e')
one_byte_changes_key_example =
    one_byte_changes_key (b's' ∷ []) (b't' ∷ []) b'a' b'e' (omega arith) (omega arith)
      (omega arith, tt)

-- An address is one byte.
abbrev parse_ip : List ℕ → Option ℕ
parse_ip [] = none
parse_ip (b ∷ bs) = some b

abbrev flags : Flags
flags = record {
  mode = client_mode;
  listen = b':' ∷ b'1' ∷ [];
  local_ip = b'7' ∷ [];
  remote = b'8' ∷ [];
  backend = [];
  password = b's' ∷ [];
  show_version = false;
}

main_lem_example :
    Explained parse_ip flags (main parse_ip flags)
    × ((local remote : ℕ)
        → ClientFlags parse_ip flags local remote
        → main parse_ip flags ≡ client flags.listen local remote (password_to_key flags.password))
    × ((local : ℕ)
        → ServerFlags parse_ip flags local
        → main parse_ip flags ≡ server local flags.backend (password_to_key flags.password))
main_lem_example = main_lem parse_ip flags
