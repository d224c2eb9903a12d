-- ===== src/Certs/Keeps.antt =====
-- `load_or_generate_self_signed` of crates/hydr-transport/src/tls.rs over two calls: a certificate that was
-- made is the one that is loaded later, unless the second of its files could not be written.
use hydr.Base.{
  ℕ, ◌≡◌, refl, ap, ◌∙◌, List, Bool, true, false, Option, none, some, Option-cases, ◌⊎◌, inl, inr,
  ◌&&◌,
}
use hydr.Base.Results.{Text, text, Result, ok, err, Error, message, ◌>>=◌}
use hydr.Base.Sets.{list_beq, nat_eq}
use hydr.Certs.{
  GeneratedCert, File, Files, exists, Pem, pem_text, WriteAnswers, write_pem, Answers, read_file,
  load_pair, save, load_or_generate_self_signed,
}
use hydr.Certs.Armor.{
  cert_from_pem-pem_text, key_from_pem-pem_text, fine_write, owned, write_pem-fine_write,
  store-other,
}

abbrev pub split_error : Error
split_error = message (text "cert and key must either both exist or both be absent")

-- The paths of a server that are apart: neither the key nor its temporary file takes the place of the certificate, and
-- the key is not written in place.
pub record Apart (with_tmp : Text → Text) (cp kp : Text) : Type 0 where
  pub key_cert : list_beq kp cp ≡ false
  pub cert_key : list_beq cp kp ≡ false
  pub tmp_cert : list_beq (with_tmp kp) cp ≡ false
  pub cert_tmp : list_beq (with_tmp cp) kp ≡ false
  pub tmp_key : list_beq (with_tmp kp) kp ≡ false

-- Reads that do not fail, and any answers to the two writes.
abbrev pub asks : (seed : ℕ) (cert_write key_write : WriteAnswers) → Answers
asks seed cert_write key_write = record {
  read_cert = none;
  read_key = none;
  seed = seed;
  cert_write = cert_write;
  key_write = key_write;
}

module _ (pem : Pem) (with_tmp : Text → Text) (generate : Text → ℕ → Result GeneratedCert) where
  open pem use {encode}

  abbrev pub load : Answers → Text → Text → Text → Files → Result GeneratedCert × Files
  load a name cp kp files =
      load_or_generate_self_signed pem with_tmp generate a name (some cp) (some kp) files

  -- With both files there, they are read and nothing is written.
  pub load-both :
      (a : Answers) (name cp kp : Text) (files : Files) (c k : File)
      → files cp ≡ some c
      → files kp ≡ some k
      → load a name cp kp files ≡ (load_pair pem with_tmp a cp kp files, files)
  unfolding load_or_generate_self_signed
  load-both a name cp kp files c k e e' =
      let there : (exists files cp && exists files kp) ≡ true =
        ap (λ o. is_there o && exists files kp) e ∙ ap is_there e' in
      rw there refl
    where
      is_there : Option File → Bool
      is_there none = false
      is_there (some f) = true

  load-neither :
      (a : Answers) (name cp kp : Text) (files : Files) (g : GeneratedCert)
      → files cp ≡ none
      → files kp ≡ none
      → generate name a.seed ≡ ok g
      → load a name cp kp files ≡ save pem with_tmp a cp kp g files
  unfolding load_or_generate_self_signed
  load-neither a name cp kp files g e e' made =
      let no_cert : exists files cp ≡ false = ap is_there e in
      let no_key : exists files kp ≡ false = ap is_there e' in rw (no_cert, no_key, made) refl
    where
      is_there : Option File → Bool
      is_there none = false
      is_there (some f) = true

  -- A certificate without its key is an error, and nothing is written.
  pub load-split :
      (a : Answers) (name cp kp : Text) (files : Files) (c : File)
      → files cp ≡ some c
      → files kp ≡ none
      → load a name cp kp files ≡ (err split_error, files)
  unfolding load_or_generate_self_signed
  load-split a name cp kp files c e e' =
      let a_cert : exists files cp ≡ true = ap is_there e in
      let no_key : exists files kp ≡ false = ap is_there e' in rw (a_cert, no_key) refl
    where
      is_there : Option File → Bool
      is_there none = false
      is_there (some f) = true

  read_file-some :
      (files : Files) (path : Text) (f : File)
      → files path ≡ some f
      → read_file none files path ≡ ok f.contents
  unfolding read_file
  read_file-some files path f e = rw (e, read_file) refl

  pub load_pair-texts :
      (a : Answers) (cp kp : Text) (files : Files) (g : GeneratedCert) (now now' : ℕ)
      → a.read_cert ≡ none
      → a.read_key ≡ none
      → files cp ≡ some (owned (pem_text (text "CERTIFICATE") (encode g.cert_der)) now)
      → files kp ≡ some (owned (pem_text (text "PRIVATE KEY") (encode g.key_der)) now')
      → load_pair pem with_tmp a cp kp files ≡ ok g
  unfolding load_pair
  load_pair-texts a cp kp files g now now' rc rk e e' =
      rw
        (
          rc,
          rk,
          read_file-some files cp (owned (pem_text (text "CERTIFICATE") (encode g.cert_der)) now) e,
          cert_from_pem-pem_text pem g.cert_der,
          read_file-some files kp (owned (pem_text (text "PRIVATE KEY") (encode g.key_der)) now')
              e',
          key_from_pem-pem_text pem g.key_der,
        )
        refl

  save-two :
      (a : Answers) (cp kp : Text) (g : GeneratedCert) (files : Files)
      → (write_pem pem with_tmp a.cert_write cp (text "CERTIFICATE") g.cert_der files).0 ≡ ok tt
      → let files1 =
          (write_pem pem with_tmp a.cert_write cp (text "CERTIFICATE") g.cert_der files).1 in
        let r = write_pem pem with_tmp a.key_write kp (text "PRIVATE KEY") g.key_der files1 in
        save pem with_tmp a cp kp g files ≡ (r.0 >>= λ done. ok g, r.1)
  unfolding save
  save-two a cp kp g files e = rw (e, save) refl

  -- A write that fails changes no file but the temporary one.
  abbrev Fails : Text → Files → Result (Unit {0}) × Files → Type 0
  Fails path files r =
      (r.0 ≡ ok tt) ⊎ ((q : Text) → list_beq (with_tmp path) q ≡ false → r.1 q ≡ files q)

  write_pem-Fails :
      (a : WriteAnswers) (path tag : Text) (der : List ℕ) (files : Files)
      → Fails path files (write_pem pem with_tmp a path tag der files)
  unfolding write_pem
  write_pem-Fails a path tag der files =
      let tmp = with_tmp path in
      elim (Option-cases a.created) [
        | inr (e, c) ↦ rw (c, write_pem) (inr (λ q other. refl))
        | inl c ↦ elim (Option-cases a.written) [
          | inr (e, w) ↦ rw (c, w, write_pem) (inr (λ q other. store-other tmp _ files q other))
          | inl w ↦ elim (Option-cases a.synced) [
            | inr (e, y) ↦
                rw (c, w, y, write_pem) (inr (λ q other. store-other tmp _ files q other))
            | inl y ↦ elim (Option-cases a.renamed) [
              | inr (e, n) ↦
                  rw (c, w, y, n, write_pem) (inr (λ q other. store-other tmp _ files q other))
              | inl n ↦ rw (c, w, y, n, write_pem) (inl refl)
            ]
          ]
        ]
      ]

  module _ (name cp kp : Text) (files : Files) (seed now new_mode partial : ℕ) (g : GeneratedCert)
      (apart : Apart with_tmp cp kp) (no_cert : files cp ≡ none) (no_key : files kp ≡ none)
      (made : generate name seed ≡ ok g) where
    abbrev first_write : WriteAnswers
    first_write = fine_write now new_mode partial

    abbrev files1 : Files
    files1 = (write_pem pem with_tmp first_write cp (text "CERTIFICATE") g.cert_der files).1

    loaded :
        (key_write : WriteAnswers)
        → let r = write_pem pem with_tmp key_write kp (text "PRIVATE KEY") g.key_der files1 in
          load (asks seed first_write key_write) name cp kp files ≡ (r.0 >>= λ done. ok g, r.1)
    loaded key_write =
        load-neither (asks seed first_write key_write) name cp kp files g no_cert no_key made
        ∙ save-two (asks seed first_write key_write) cp kp g files
            (write_pem-fine_write pem with_tmp now new_mode partial cp (text "CERTIFICATE")
              g.cert_der files).0

    -- A certificate that was generated and written without a failure is what every later call loads from the two files, which
    -- it leaves alone, whatever would be generated then; both files are for their owner only. The paths are apart.
    pub load-again :
        (now' new_mode' partial' : ℕ)
        → let a = asks seed first_write (fine_write now' new_mode' partial') in
          let files2 = (load a name cp kp files).1 in
          ((load a name cp kp files).0 ≡ ok g)
          × ((later : Answers) (name' : Text)
              → later.read_cert ≡ none
              → later.read_key ≡ none
              → load later name' cp kp files2 ≡ (ok g, files2))
          × (files2 cp ≡ some (owned (pem_text (text "CERTIFICATE") (encode g.cert_der)) now))
          × (files2 kp ≡ some (owned (pem_text (text "PRIVATE KEY") (encode g.key_der)) now'))
    load-again now' new_mode' partial' =
        let a = asks seed first_write (fine_write now' new_mode' partial') in
        let w1 =
          write_pem-fine_write pem with_tmp now new_mode partial cp (text "CERTIFICATE") g.cert_der
            files in
        let w2 =
          write_pem-fine_write pem with_tmp now' new_mode' partial' kp (text "PRIVATE KEY")
            g.key_der files1 in
        let here = loaded (fine_write now' new_mode' partial') in
        let last : (load a name cp kp files).1 ≡ _ = ap (λ x. x.1) here in
        let key = ap (λ fs. fs kp) last ∙ w2.1.0 in
        let cert = ap (λ fs. fs cp) last ∙ w2.1.1 cp apart.key_cert apart.tmp_cert ∙ w1.1.0 in
        (
          ap (λ x. x.0) here ∙ ap (λ r. r >>= λ done. ok g) w2.0,
          λ later name' rc rk.
              load-both later name' cp kp (load a name cp kp files).1 _ _ cert key
              ∙ ap (λ r. (r, (load a name cp kp files).1))
                  (load_pair-texts later cp kp (load a name cp kp files).1 g now now' rc rk cert
                    key),
          cert,
          key,
        )

    -- If the certificate was written and the key was not, so that the call failed, every later call fails as well, and
    -- writes nothing: the certificate is there without its key. The paths are apart.
    pub load-half_written :
        (key_write : WriteAnswers) (e : Error)
        → let a = asks seed first_write key_write in
          let files2 = (load a name cp kp files).1 in
          (load a name cp kp files).0 ≡ err e
          → (later : Answers) (name' : Text)
          → load later name' cp kp files2 ≡ (err split_error, files2)
    load-half_written key_write e failed later name' =
        let a = asks seed first_write key_write in
        let w1 =
          write_pem-fine_write pem with_tmp now new_mode partial cp (text "CERTIFICATE") g.cert_der
            files in
        let here = loaded key_write in
        let last : (load a name cp kp files).1 ≡ _ = ap (λ x. x.1) here in
        elim (write_pem-Fails key_write kp (text "PRIVATE KEY") g.key_der files1) [
          | inl fine ↦
              let worked : (load a name cp kp files).0 ≡ ok g =
                ap (λ x. x.0) here ∙ ap (λ r. r >>= λ done. ok g) fine in
              absurd (cc)
          | inr same ↦
              load-split later name' cp kp (load a name cp kp files).1 _
                (ap (λ fs. fs cp) last ∙ same cp apart.tmp_cert ∙ w1.1.0)
                (ap (λ fs. fs kp) last
                  ∙ same kp apart.tmp_key
                  ∙ w1.1.1 kp apart.cert_key apart.cert_tmp
                  ∙ no_key)
        ]
