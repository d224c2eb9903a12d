-- ===== src/Server/Reload.antt =====
-- `run_quic` and `spawn_cert_reload` of crates/hydr-server/src/lib.rs, with both paths given: the certificate that the QUIC
-- endpoint serves, at the start and after each signal or tick. The endpoint and rustls are parameters.
use hydr.Base.{
  ℕ, List, [], ◌∷◌, Bool, true, false, Option, none, some, ◌==◌, ◌&&◌, not, if◌then◌else◌,
}
use hydr.Base.Results.{Text, Result, ok, err, panic, ◌>>=◌}
use hydr.Base.Sets.{list_beq, nat_eq}
use hydr.Certs.{GeneratedCert, Files, Pem, Answers, load_or_generate_self_signed}
use hydr.Fingerprint.Verify.{cert_fingerprint}

-- `metadata(&cert_path).and_then(|m| m.modified()).ok()`
abbrev pub modified_at : Files → Text → Option ℕ
modified_at files path = elim (files path) [ none ↦ none | some f ↦ some f.modified ]

abbrev pub same_time : Option ℕ → Option ℕ → Bool
same_time none none = true
same_time none (some b) = false
same_time (some a) none = false
same_time (some a) (some b) = a == b

-- The background task, with the certificate that the endpoint serves and the files.
pub record Reloader : Type 0 where
  pub served : GeneratedCert
  pub current_fp : List ℕ
  pub last_mtime : Option ℕ
  pub files : Files

-- What happens to the server: somebody changes files, or the task wakes up by SIGHUP or by its tick.
pub data Event : Type 0 where
  edit : Files → Event
  wake : (hup : Bool) → Answers → Event

module _ (pem : Pem) (with_tmp : Text → Text) (generate : Text → ℕ → Result GeneratedCert)
    (sha256 : List ℕ → List ℕ) (with_single_cert : List ℕ → List ℕ → Result (Unit {0}))
    (server_name cert_path key_path : Text) where
  unfoldable pub build_quinn_server_config : GeneratedCert → Result GeneratedCert
  build_quinn_server_config g = with_single_cert g.cert_der g.key_der >>= λ done. ok g

  abbrev pub load : Answers → Files → Result GeneratedCert × Files
  load a files =
      load_or_generate_self_signed pem with_tmp generate a server_name (some cert_path)
        (some key_path) files

  -- What a load that the task makes changes.
  unfoldable pub reloaded : Reloader → Result GeneratedCert × Files → Reloader
  unfolding build_quinn_server_config cert_fingerprint
  reloaded r (ok g, files) =
      let fp = cert_fingerprint sha256 g.cert_der in
      if list_beq fp r.current_fp
      then record r { files = files }
      else elim (build_quinn_server_config g) [
        | ok built ↦ record r { served = built; current_fp = fp; files = files }
        | err e ↦ record r { files = files }
        | panic ↦ record r { files = files }
      ]
  reloaded r (err e, files) = record r { files = files }
  reloaded r (panic, files) = record r { files = files }

  -- A round of the loop of `spawn_cert_reload`.
  unfoldable pub round : Bool → Answers → Reloader → Reloader
  unfolding reloaded load_or_generate_self_signed
  round hup a r =
      let mtime = modified_at r.files cert_path in
      if not hup && same_time mtime r.last_mtime
      then r
      else reloaded (record r { last_mtime = mtime }) (load a r.files)

  unfoldable pub on_event : Reloader → Event → Reloader
  unfolding round
  on_event r (edit files) = record r { files = files }
  on_event r (wake hup a) = round hup a r

  unfoldable pub on_events : Reloader → List Event → Reloader
  unfolding on_event
  on_events r [] = r
  on_events r (ev ∷ evs) = on_events (on_event r ev) evs

  -- `run_quic` up to the listening endpoint; `bound` is what the bind gives.
  unfoldable pub run_quic : Answers → Result (Unit {0}) → Files → Result Reloader
  unfolding build_quinn_server_config cert_fingerprint load_or_generate_self_signed
  run_quic a bound files = do
    let loaded = load a files
    cert ← loaded.0
    let fp = cert_fingerprint sha256 cert.cert_der
    served ← build_quinn_server_config cert
    done ← bound
    ok (record { served = served; current_fp = fp; last_mtime = none; files = loaded.1 })
