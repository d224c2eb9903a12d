-- ===== src/Server/Reloaded.antt =====
-- What holds of the certificate that a server serves, by `spawn_cert_reload` of crates/hydr-server/src/lib.rs.
use hydr.Base.{
  ℕ, ◌≡◌, refl, sym, ap, ◌∙◌, List, [], ◌∷◌, Bool, true, some, not, ◌&&◌, Bool-cases, inl, inr,
}
use hydr.Base.Results.{Text, Result, ok, err, panic, OnOk->>=, OnOk-eq}
use hydr.Base.Sets.{list_beq, list_beq_iff, nat_eq}
use hydr.Certs.{GeneratedCert, File, Files, Pem, Answers, load_pair}
use hydr.Certs.Keeps.{load-both}
use hydr.Fingerprint.Verify.{cert_fingerprint}
use hydr.Server.Reload.{
  Reloader, Event, edit, wake, modified_at, same_time, build_quinn_server_config, load, reloaded,
  round, on_event, on_events, run_quic,
}

module _ (pem : Pem) (with_tmp : Text → Text) (generate : Text → ℕ → Result GeneratedCert)
    (sha256 : List ℕ → List ℕ) (with_single_cert : List ℕ → List ℕ → Result (Unit {0}))
    (server_name cert_path key_path : Text) where
  abbrev Step : Reloader → Result GeneratedCert × Files → Reloader
  Step = reloaded pem with_tmp generate sha256 with_single_cert server_name cert_path key_path

  abbrev Round : Bool → Answers → Reloader → Reloader
  Round = round pem with_tmp generate sha256 with_single_cert server_name cert_path key_path

  abbrev Run : Reloader → List Event → Reloader
  Run = on_events pem with_tmp generate sha256 with_single_cert server_name cert_path key_path

  abbrev Loads : Answers → Files → Result GeneratedCert × Files
  Loads = load pem with_tmp generate sha256 with_single_cert server_name cert_path key_path

  abbrev Builds : GeneratedCert → Result GeneratedCert
  Builds =
      build_quinn_server_config pem with_tmp generate sha256 with_single_cert server_name cert_path
        key_path

  -- The certificate is one that rustls took with its key, and its fingerprint is the one that is compared.
  pub record Serves (r : Reloader) : Type 0 where
    pub fits : Builds r.served ≡ ok r.served
    pub known : r.current_fp ≡ cert_fingerprint sha256 r.served.cert_der

  Builds-same : (g built : GeneratedCert) → Builds g ≡ ok built → built ≡ g
  unfolding build_quinn_server_config
  Builds-same g built e =
      OnOk-eq (λ b. b ≡ g) (Builds g) built
        (OnOk->>= (λ b. b ≡ g) (with_single_cert g.cert_der g.key_der) _ (λ done e'. refl)) e

  reloaded-Serves :
      (r : Reloader) (found : Result GeneratedCert × Files) → Serves r → Serves (Step r found)
  unfolding reloaded
  reloaded-Serves r (ok g, files) s =
      elim (Bool-cases (list_beq (cert_fingerprint sha256 g.cert_der) r.current_fp)) [
        | inl same ↦ rw same (record { fits = s.fits; known = s.known })
        | inr differs ↦ rw differs (built (Builds g) refl)
      ]
    where
      built :
          (m : Result GeneratedCert)
          → Builds g ≡ m
          → Serves (elim m as (λ x. Reloader) [
            | ok b ↦ record r {
              served = b;
              current_fp = cert_fingerprint sha256 g.cert_der;
              files = files;
            }
            | err e ↦ record r { files = files }
            | panic ↦ record r { files = files }
          ])
      built (ok b) e =
          let same = Builds-same g b e in
          record {
            fits = ap Builds same ∙ e;
            known = ap (λ (x : GeneratedCert). cert_fingerprint sha256 x.cert_der) (sym same);
          }
      built (err e) e' = record { fits = s.fits; known = s.known }
      built panic e' = record { fits = s.fits; known = s.known }
  reloaded-Serves r (err e, files) s = record { fits = s.fits; known = s.known }
  reloaded-Serves r (panic, files) s = record { fits = s.fits; known = s.known }

  round-Serves : (hup : Bool) (a : Answers) (r : Reloader) → Serves r → Serves (Round hup a r)
  unfolding round
  round-Serves hup a r s =
      elim (Bool-cases (not hup && same_time (modified_at r.files cert_path) r.last_mtime)) [
        | inl quiet ↦ rw quiet s
        | inr due ↦ rw due (
            reloaded-Serves (record r { last_mtime = modified_at r.files cert_path })
              (Loads a r.files) (record { fits = s.fits; known = s.known }))
      ]

  on_events-Serves : (evs : List Event) (r : Reloader) → Serves r → Serves (Run r evs)
  unfolding on_events on_event
  on_events-Serves [] r s = s
  on_events-Serves (edit files ∷ evs) r s =
      on_events-Serves evs (record r { files = files }) (record { fits = s.fits; known = s.known })
  on_events-Serves (wake hup a ∷ evs) r s =
      on_events-Serves evs (Round hup a r) (round-Serves hup a r s)

  -- However files are changed and the task wakes up, the certificate that a started server serves is one that rustls took
  -- with its key, and `current_fp` is its fingerprint.
  pub run_quic-Serves :
      (a : Answers) (bound : Result (Unit {0})) (files : Files) (r : Reloader) (evs : List Event)
      → run_quic pem with_tmp generate sha256 with_single_cert server_name cert_path key_path a
          bound files
        ≡ ok r
      → Serves (Run r evs)
  unfolding run_quic
  run_quic-Serves a bound files r evs e = on_events-Serves evs r (
      OnOk-eq Serves _ r
        (OnOk->>= Serves (Loads a files).0 _ (λ cert e1.
          OnOk->>= Serves (Builds cert) _ (λ served e2. OnOk->>= Serves bound _ (λ done e3.
            let same = Builds-same cert served e2 in
            record {
              fits = ap Builds same ∙ e2;
              known = ap (λ (x : GeneratedCert). cert_fingerprint sha256 x.cert_der) (sym same);
            }))))
        e)

  pub Step-served :
      (r : Reloader) (g : GeneratedCert) (files : Files)
      → Serves r
      → Builds g ≡ ok g
      → cert_fingerprint sha256 (Step r (ok g, files)).served.cert_der
        ≡ cert_fingerprint sha256 g.cert_der
  unfolding reloaded
  Step-served r g files s fits =
      elim (Bool-cases (list_beq (cert_fingerprint sha256 g.cert_der) r.current_fp)) [
        | inl same ↦ rw same (
            sym s.known
            ∙ sym ((list_beq_iff (cert_fingerprint sha256 g.cert_der) r.current_fp).0 same))
        | inr differs ↦ rw (differs, fits) refl
      ]

  -- After a SIGHUP with both files there, a pair that can be read and that rustls takes, the server serves a certificate with
  -- the fingerprint of the one in the file.
  pub round-hup :
      (a : Answers) (r : Reloader) (c k : File) (g : GeneratedCert)
      → Serves r
      → r.files cert_path ≡ some c
      → r.files key_path ≡ some k
      → load_pair pem with_tmp a cert_path key_path r.files ≡ ok g
      → Builds g ≡ ok g
      → cert_fingerprint sha256 (Round true a r).served.cert_der
        ≡ cert_fingerprint sha256 g.cert_der
  unfolding round
  round-hup a r c k g s e e' found fits =
      let r' : Reloader = record r { last_mtime = modified_at r.files cert_path } in
      let loaded : Loads a r.files ≡ (ok g, r.files) =
        load-both pem with_tmp generate a server_name cert_path key_path r.files c k e e'
        ∙ ap (λ x. (x, r.files)) found in
      ap (λ x. cert_fingerprint sha256 (Step r' x).served.cert_der) loaded
      ∙ Step-served r' g r.files (record { fits = s.fits; known = s.known }) fits
