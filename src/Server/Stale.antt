-- ===== src/Server/Stale.antt =====
-- What the reload of `spawn_cert_reload` in crates/hydr-server/src/lib.rs leaves as it is, and what it replaces: the time of
-- the certificate's file decides, and missing files are made anew.
use hydr.Base.{
  ℕ, ◌≡◌, refl, sym, ap, ◌∙◌, List, [], ◌∷◌, Bool, true, false, Option, none, some, not, ◌&&◌,
  ==_refl, ==_iff, All, Bool-cases, inl, inr,
}
use hydr.Base.Results.{Text, Result, ok, err, panic}
use hydr.Base.Sets.{list_beq, nat_eq}
use hydr.Certs.{GeneratedCert, File, Files, Pem, Answers}
use hydr.Certs.Keeps.{load-both, load-split, load-again, Apart, asks}
use hydr.Certs.Armor.{fine_write}
use hydr.Fingerprint.Verify.{
  cert_fingerprint, accepts, verify_server_cert, make_client_config_with_pin,
}
use hydr.Server.Reloaded.{Serves}
use hydr.Server.Reload.{
  Reloader, Event, edit, wake, modified_at, same_time, build_quinn_server_config, load, reloaded,
  round, on_event, on_events,
}

same_time-some : (t : ℕ) (o : Option ℕ) → same_time (some t) o ≡ true → o ≡ some t
same_time-some t none e = absurd (cc)
same_time-some t (some u) e = ap some (sym ((==_iff t u).0 e))

and_right : (a b : Bool) → (a && b) ≡ true → b ≡ true
and_right true b e = e
and_right false b e = absurd (cc)

module _ (pem : Pem) (with_tmp : Text → Text) (generate : Text → ℕ → Result GeneratedCert)
    (sha256 : List ℕ → List ℕ) (with_single_cert : List ℕ → List ℕ → Result (Unit {0}))
    (server_name cert_path key_path : Text) where
  abbrev Step : Reloader → Result GeneratedCert × Files → Reloader
  Step = reloaded pem with_tmp generate sha256 with_single_cert server_name cert_path key_path

  abbrev Round : Bool → Answers → Reloader → Reloader
  Round = round pem with_tmp generate sha256 with_single_cert server_name cert_path key_path

  abbrev Run : Reloader → List Event → Reloader
  Run = on_events pem with_tmp generate sha256 with_single_cert server_name cert_path key_path

  abbrev Loads : Answers → Files → Result GeneratedCert × Files
  Loads = load pem with_tmp generate sha256 with_single_cert server_name cert_path key_path

  abbrev Builds : GeneratedCert → Result GeneratedCert
  Builds =
      build_quinn_server_config pem with_tmp generate sha256 with_single_cert server_name cert_path
        key_path

  -- With the certificate there nothing is written.
  Loads-files :
      (a : Answers) (files : Files) (c : File)
      → files cert_path ≡ some c
      → (Loads a files).1 ≡ files
  Loads-files a files c e = by_key (files key_path) refl
    where
      by_key : (k : Option File) → files key_path ≡ k → (Loads a files).1 ≡ files
      by_key none e' =
          ap (λ x. x.1)
            (load-split pem with_tmp generate a server_name cert_path key_path files c e e')
      by_key (some k) e' =
          ap (λ x. x.1)
            (load-both pem with_tmp generate a server_name cert_path key_path files c k e e')

  Step-kept :
      (r : Reloader) (found : Result GeneratedCert × Files)
      → ((Step r found).files ≡ found.1) × ((Step r found).last_mtime ≡ r.last_mtime)
  unfolding reloaded
  Step-kept r (ok g, files) =
      elim (Bool-cases (list_beq (cert_fingerprint sha256 g.cert_der) r.current_fp)) [
        | inl same ↦ rw same (refl, refl)
        | inr differs ↦ rw differs (built (Builds g))
      ]
    where
      built :
          (m : Result GeneratedCert)
          → let r' = elim m as (λ x. Reloader) [
            | ok b ↦ record r {
              served = b;
              current_fp = cert_fingerprint sha256 g.cert_der;
              files = files;
            }
            | err e ↦ record r { files = files }
            | panic ↦ record r { files = files }
          ] in
            (r'.files ≡ files) × (r'.last_mtime ≡ r.last_mtime)
      built (ok b) = (refl, refl)
      built (err e) = (refl, refl)
      built panic = (refl, refl)
  Step-kept r (err e, files) = (refl, refl)
  Step-kept r (panic, files) = (refl, refl)

  -- The task has looked at the certificate of that time.
  abbrev Seen : ℕ → Reloader → Type 0
  Seen t r = (modified_at r.files cert_path ≡ some t) × (r.last_mtime ≡ some t)

  -- Changes that leave the time of the certificate, and ticks.
  abbrev pub Quiet : ℕ → Event → Type 0
  Quiet t (edit files) = modified_at files cert_path ≡ some t
  Quiet t (wake hup a) = hup ≡ false

  round-Seen : (a : Answers) (r : Reloader) (t : ℕ) → Seen t r → Round false a r ≡ r
  unfolding round
  round-Seen a r t (now, last) =
      let same : same_time (modified_at r.files cert_path) r.last_mtime ≡ true =
        ap (λ o. same_time o r.last_mtime) now ∙ ap (same_time (some t)) last ∙ ==_refl t in
      rw same refl

  on_events-Quiet :
      (t : ℕ) (evs : List Event) (r : Reloader)
      → Seen t r
      → All (Quiet t) evs
      → (Run r evs).served ≡ r.served
  unfolding on_events on_event
  on_events-Quiet t [] r seen quiet = refl
  on_events-Quiet t (edit files ∷ evs) r (now, last) (same, quiet) =
      on_events-Quiet t evs (record r { files = files }) (same, last) quiet
  on_events-Quiet t (wake hup a ∷ evs) r seen (tick, quiet) =
      let still : Round hup a r ≡ r = ap (λ b. Round b a r) tick ∙ round-Seen a r t seen in
      ap (λ x. (Run x evs).served) still ∙ on_events-Quiet t evs r seen quiet

  Round-Seen :
      (hup : Bool) (a : Answers) (r : Reloader) (c : File)
      → r.files cert_path ≡ some c
      → Seen c.modified (Round hup a r)
  unfolding round
  Round-Seen hup a r c e =
      let now : modified_at r.files cert_path ≡ some c.modified = ap time_of e in
      elim (Bool-cases (not hup && same_time (modified_at r.files cert_path) r.last_mtime)) [
        | inl quiet ↦ rw quiet (
          now,
          same_time-some c.modified r.last_mtime (
              ap (λ o. same_time o r.last_mtime) (sym now)
              ∙ and_right (not hup) (same_time (modified_at r.files cert_path) r.last_mtime) quiet),
        )
        | inr due ↦
            let r' : Reloader = record r { last_mtime = modified_at r.files cert_path } in
            let (files, last) = Step-kept r' (Loads a r.files) in
            rw due (
              ap (λ fs. modified_at fs cert_path) (files ∙ Loads-files a r.files c e) ∙ now,
              last ∙ now,
            )
      ]
    where
      time_of : Option File → Option ℕ
      time_of none = none
      time_of (some f) = some f.modified

  -- Once the task has looked, and whatever came of it, no number of ticks and no change of the key or of any other file
  -- makes the server serve another certificate, as long as the time of the certificate's file stays the same and no
  -- SIGHUP comes: also where the load failed because the key was not yet replaced.
  pub on_events-stale :
      (hup : Bool) (a : Answers) (r : Reloader) (c : File) (evs : List Event)
      → r.files cert_path ≡ some c
      → All (Quiet c.modified) evs
      → (Run (Round hup a r) evs).served ≡ (Round hup a r).served
  on_events-stale hup a r c evs e quiet =
      on_events-Quiet c.modified evs (Round hup a r) (Round-Seen hup a r c e) quiet

  Step-other :
      (r : Reloader) (g : GeneratedCert) (files : Files)
      → list_beq (cert_fingerprint sha256 g.cert_der) r.current_fp ≡ false
      → Builds g ≡ ok g
      → (Step r (ok g, files)).served ≡ g
  unfolding reloaded
  Step-other r g files differs fits = rw (differs, fits) refl

  -- If both files are gone at a tick after a load, the server makes a certificate of its own and serves it, and a client that
  -- pins the fingerprint served before refuses it. The paths are apart, the two writes work, rustls takes the pair and
  -- its fingerprint is another.
  pub round-regenerated :
      (webpki : List ℕ → Bool) (insecure : Bool) (r : Reloader) (g : GeneratedCert)
      (t seed now new_mode partial now' new_mode' partial' : ℕ)
      → Serves pem with_tmp generate sha256 with_single_cert server_name cert_path key_path r
      → Apart with_tmp cert_path key_path
      → r.last_mtime ≡ some t
      → r.files cert_path ≡ none
      → r.files key_path ≡ none
      → generate server_name seed ≡ ok g
      → Builds g ≡ ok g
      → list_beq (cert_fingerprint sha256 g.cert_der) (cert_fingerprint sha256 r.served.cert_der)
        ≡ false
      → let a = asks seed (fine_write now new_mode partial) (fine_write now' new_mode' partial') in
        ((Round false a r).served ≡ g)
        × (accepts sha256 webpki
              (make_client_config_with_pin insecure
                (some (cert_fingerprint sha256 r.served.cert_der)))
              (Round false a r).served.cert_der
            ≡ false)
  unfolding round reloaded accepts make_client_config_with_pin verify_server_cert
  round-regenerated webpki insecure r g t seed now new_mode partial now' new_mode' partial' s apart
        last no_cert no_key made fits other =
      let a = asks seed (fine_write now new_mode partial) (fine_write now' new_mode' partial') in
      let loaded : (Loads a r.files).0 ≡ ok g =
        (load-again pem with_tmp generate server_name cert_path key_path r.files seed now new_mode
          partial g apart no_cert no_key made now' new_mode' partial').0 in
      let due : same_time (modified_at r.files cert_path) r.last_mtime ≡ false =
        ap (λ o. same_time (time_of o) r.last_mtime) no_cert ∙ ap (same_time none) last in
      let differs : list_beq (cert_fingerprint sha256 g.cert_der) r.current_fp ≡ false =
        ap (list_beq (cert_fingerprint sha256 g.cert_der)) s.known ∙ other in
      let r' : Reloader = record r { last_mtime = modified_at r.files cert_path } in
      let serves : (Round false a r).served ≡ g = rw due (
        ap (λ x. (Step r' (x, (Loads a r.files).1)).served) loaded
        ∙ Step-other r' g (Loads a r.files).1 differs fits) in
      (
        serves,
        ap
              (λ (x : GeneratedCert).
                list_beq (cert_fingerprint sha256 x.cert_der)
                  (cert_fingerprint sha256 r.served.cert_der))
              serves
            ∙ other,
      )
    where
      time_of : Option File → Option ℕ
      time_of none = none
      time_of (some f) = some f.modified
