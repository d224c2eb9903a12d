-- ===== src/Settings/Password.antt =====
-- `resolve_password` of crates/hydr-server/src/cli.rs and crates/hydr-client/src/cli.rs: where the password
-- comes from.
use hydr.Base.{◌≡◌, ◌≢◌, ◌↔◌, refl, sym, ap, ◌∙◌, ℕ, [], ◌∷◌, true, Option, none, some}
use hydr.Base.{Bool-cases, inl, inr, some-injective, Option-cases, subst}
use hydr.Base.Results.{Text, text, ok, err, message, OnOk, OnOk->>=, OnOk-eq}
use hydr.Base.Trim.{trim, IsTrimmed, trim-IsTrimmed}
use hydr.Settings.{
  Host, is_empty, is_private, trimmed, password_from_file, password_without_file, resolve_password,
}

is_empty_iff : (s : Text) → (is_empty s ≡ true) ↔ (s ≡ [])
is_empty_iff [] = ((λ e. refl), λ e. refl)
is_empty_iff (c ∷ s) = ((λ e. absurd (cc)), λ e. absurd (cc))

-- A given text has something left when it is trimmed.
abbrev pub Trims : Option Text → Text → Type 0
Trims o p = (s : Text) × (o ≡ some s) × (trim s ≡ p) × (p ≢ [])

trimmed_iff : (o : Option Text) (p : Text) → (trimmed o ≡ some p) ↔ Trims o p
unfolding trimmed
trimmed_iff none p = ((λ e. absurd (cc)), λ (s, e, same, ne). absurd (cc))
trimmed_iff (some s) p = elim (Bool-cases (is_empty (trim s))) [
  | inl blank ↦
      let nothing : trim s ≡ [] = (is_empty_iff (trim s)).0 blank in
      rw blank (
        (λ e. absurd (cc)),
        λ (s', e, same, ne).
            let q : s ≡ s' = some-injective _ _ e in
            absurd (ne (sym same ∙ ap trim (sym q) ∙ nothing)),
      )
  | inr left ↦ rw left (
    (λ e.
        let q : trim s ≡ p = some-injective _ _ e in
        (s, refl, q, λ gone. let hit = (is_empty_iff (trim s)).1 (q ∙ gone) in absurd (cc))),
    λ (s', e, same, ne). let q : s ≡ s' = some-injective _ _ e in ap some (ap trim q ∙ same),
  )
]

module _ (h : Host) where
  open h use {mode_of, read_to_string, env_var}

  abbrev pub env_password : Option Text
  env_password = env_var (text "HYDR_PASSWORD")

  -- Where a password can come from: a file that only its owner can access, else the environment, else the
  -- settings.
  pub data Origin (password_file password : Option Text) (p : Text) : Type 0 where
    from_file :
        (path s : Text) (mode : ℕ)
        → password_file ≡ some path
        → mode_of path ≡ ok mode
        → is_private mode ≡ true
        → read_to_string path ≡ ok s
        → trim s ≡ p
        → p ≢ []
        → Origin password_file password p
    from_env : password_file ≡ none → Trims env_password p → Origin password_file password p
    from_settings :
        password_file ≡ none
        → ((t : Text) → ¬ Trims env_password t)
        → Trims password p
        → Origin password_file password p

  password_from_file-Origin :
      (path : Text) (password : Option Text)
      → OnOk (Origin (some path) password) (password_from_file h path)
  unfolding password_from_file
  password_from_file-Origin path password =
      let P : Text → Type 0 = Origin (some path) password in
      OnOk->>= P (mode_of path) _ (λ mode e. elim (Bool-cases (is_private mode)) [
        | inr open_to ↦ rw open_to tt
        | inl private ↦ rw private (
            OnOk->>= P (read_to_string path) _ (λ s e'. elim (Bool-cases (is_empty (trim s))) [
              | inl blank ↦ rw blank tt
              | inr left ↦ rw left (
                  from_file path s mode refl e private e' refl
                    (λ gone. let hit = (is_empty_iff (trim s)).1 gone in absurd (cc)))
            ]))
      ])

  password_from_file-private :
      (path s p : Text) (mode : ℕ)
      → mode_of path ≡ ok mode
      → is_private mode ≡ true
      → read_to_string path ≡ ok s
      → trim s ≡ p
      → p ≢ []
      → password_from_file h path ≡ ok p
  unfolding password_from_file
  password_from_file-private path s p mode m private r same ne =
      elim (Bool-cases (is_empty (trim s))) [
        | inl blank ↦ absurd (ne (sym same ∙ (is_empty_iff (trim s)).0 blank))
        | inr left ↦ rw (m, private, r, left, same) refl
      ]

  without_file-env :
      (password : Option Text) (p : Text)
      → trimmed env_password ≡ some p
      → password_without_file h password ≡ ok p
  unfolding password_without_file
  without_file-env password p found = rw (found, password_without_file) refl

  without_file-settings :
      (password : Option Text)
      → trimmed env_password ≡ none
      → password_without_file h password ≡ (elim (trimmed password) [
        | some s ↦ ok s
        | none ↦ err (
            message (text "password not set: use `password`, `password_file` or env HYDR_PASSWORD"))
      ])
  unfolding password_without_file
  without_file-settings password missing = rw (missing, password_without_file) refl

  password_without_file-Origin :
      (password : Option Text) → OnOk (Origin none password) (password_without_file h password)
  password_without_file-Origin password = elim (Option-cases (trimmed env_password)) [
    | inr (env, found) ↦
        rw (without_file-env password env found)
          (from_env refl ((trimmed_iff env_password env).0 found))
    | inl missing ↦ rw (without_file-settings password missing) (
        settled (trimmed password) refl
          (λ t given. let hit = (trimmed_iff env_password t).1 given in absurd (cc)))
  ]
    where
      settled :
          (o : Option Text)
          → trimmed password ≡ o
          → ((t : Text) → ¬ Trims env_password t)
          → OnOk (Origin none password) (elim o [
            | some s ↦ ok s
            | none ↦ err (
                message
                  (text "password not set: use `password`, `password_file` or env HYDR_PASSWORD"))
          ])
      settled none e unset = tt
      settled (some s) e unset = from_settings refl unset ((trimmed_iff password s).0 e)

  Origin-resolve_password :
      (password_file password : Option Text) (p : Text)
      → Origin password_file password p
      → resolve_password h password_file password ≡ ok p
  unfolding resolve_password
  Origin-resolve_password password_file password p
        (from_file path s mode file m private r same ne) =
      rw file (password_from_file-private path s p mode m private r same ne)
  Origin-resolve_password password_file password p (from_env file given) =
      rw file (without_file-env password p ((trimmed_iff env_password p).1 given))
  Origin-resolve_password password_file password p (from_settings file unset given) =
      rw file (elim (Option-cases (trimmed env_password)) [
        | inl missing ↦
            without_file-settings password missing ∙ rw ((trimmed_iff password p).1 given) refl
        | inr (env, found) ↦ absurd (unset env ((trimmed_iff env_password env).0 found))
      ])

  -- Either program has the password p exactly if this comes from one of its three sources, by their priority, and no
  -- password that it has is empty or has white space at an end.
  pub resolve_password-Origin :
      (password_file password : Option Text) (p : Text)
      → ((resolve_password h password_file password ≡ ok p) ↔ Origin password_file password p)
        × (resolve_password h password_file password ≡ ok p → (p ≢ []) × IsTrimmed p)
  unfolding resolve_password
  resolve_password-Origin password_file password p = (
    (found password_file, Origin-resolve_password password_file password p),
    λ e. kept (found password_file e),
  )
    where
      found :
          (file : Option Text) → resolve_password h file password ≡ ok p → Origin file password p
      found none e = OnOk-eq _ _ p (password_without_file-Origin password) e
      found (some path) e = OnOk-eq _ _ p (password_from_file-Origin path password) e

      kept : Origin password_file password p → (p ≢ []) × IsTrimmed p
      kept (from_file path s mode file m private r same ne) =
          (ne, subst IsTrimmed same (trim-IsTrimmed s))
      kept (from_env file (s, e, same, ne)) = (ne, subst IsTrimmed same (trim-IsTrimmed s))
      kept (from_settings file unset (s, e, same, ne)) =
          (ne, subst IsTrimmed same (trim-IsTrimmed s))
