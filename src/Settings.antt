-- ===== src/Settings.antt =====
-- The settings of both programs, where they are the same in crates/hydr-server/src/cli.rs and
-- crates/hydr-client/src/cli.rs. The file system, the environment and the parsing of a socket address
-- are the `Host`; a failure of theirs is an error. `Box<dyn Error>` is one of the errors of hydr-core, a
-- text a `message`. The log is left out.
pub mod ServerFile
pub mod ClientFile
pub mod Password
pub mod Start
pub mod Agreement
pub mod Proxy
use hydr.Base.{ℕ, ◌+◌, ◌/◌, ◌%◌, [], ◌∷◌, ◌++◌, Option, none, some, bit_and, Bool, true, false}
use hydr.Base.{◌==◌, not, ltb, if◌then◌else◌}
use hydr.Base.Results.{Text, text, Result, ok, err, panic, ◌>>=◌, message}
use hydr.Base.Trim.{trim}
use hydr.Address.{IpAddr}

-- What the programs ask of the system: `metadata(path)?.permissions().mode()`, `read_to_string`,
-- `std::env::var` and `str::parse` to a `SocketAddr`.
pub record Host : Type 0 where
  pub mode_of : Text → Result ℕ
  pub read_to_string : Text → Result Text
  pub env_var : Text → Option Text
  pub parse_addr : Text → Result (IpAddr × ℕ)

-- `{mode:o}` of a mode below 0o1000: no leading zeros.
unfoldable pub octal_text : ℕ → Text
octal_text mode =
    if ltb mode 8
    then (48 + mode) ∷ []
    else if ltb mode 64
    then (48 + mode / 8) ∷ ((48 + mode % 8) ∷ [])
    else (48 + mode / 64) ∷ ((48 + mode / 8 % 8) ∷ ((48 + mode % 8) ∷ []))

abbrev pub is_empty : Text → Bool
is_empty [] = true
is_empty (c ∷ s) = false

-- A text that is there, trimmed, and not empty.
unfoldable pub trimmed : Option Text → Option Text
trimmed none = none
trimmed (some s) = if is_empty (trim s) then none else some (trim s)

-- A mode without permissions for the group and for others.
abbrev pub is_private : ℕ → Bool
is_private mode = bit_and (bit_and mode 0x1ff) 0x3f == 0

module _ (h : Host) where
  open h use {mode_of, read_to_string, env_var}

  unfoldable pub password_from_file : Text → Result Text
  unfolding octal_text
  password_from_file path = do
    mode ← mode_of path
    if not (is_private mode)
        then err (
            message (
              text "password_file "
              ++ (path
                  ++ (text " has overly permissive mode "
                      ++ (octal_text (bit_and mode 0x1ff) ++ text " (expected 600 or 400)")))))
        else do
          s ← read_to_string path
          if is_empty (trim s) then err (message (text "password_file is empty")) else ok (trim s)

  -- The steps where the settings name no file.
  unfoldable pub password_without_file : Option Text → Result Text
  unfolding trimmed
  password_without_file password = elim (trimmed (env_var (text "HYDR_PASSWORD"))) [
    | some env ↦ ok env
    | none ↦ elim (trimmed password) [
      | some s ↦ ok s
      | none ↦
          err (
            message (text "password not set: use `password`, `password_file` or env HYDR_PASSWORD"))
    ]
  ]

  -- `resolve_password` of either program, by the two fields that it reads.
  unfoldable pub resolve_password : (password_file password : Option Text) → Result Text
  unfolding password_from_file password_without_file
  resolve_password (some path) password = password_from_file path
  resolve_password none password = password_without_file password

  -- `load`, but for its warning of a permissive mode; `from_str` is serde_yaml's.
  unfoldable pub load : {File : Type 0} → (Text → Result File) → Text → Result File
  load from_str path = read_to_string path >>= from_str

-- `opt.map(f).transpose()?`
abbrev pub transpose : {A B : Type 0} → (A → Result B) → Option A → Result (Option B)
transpose f none = ok none
transpose f (some a) = f a >>= λ b. ok (some b)

abbrev pub unwrap_or : Option ℕ → ℕ → ℕ
unwrap_or none d = d
unwrap_or (some n) d = n
