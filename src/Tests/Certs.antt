-- ===== src/Tests/Certs.antt =====
-- The theorems about the certificate of a server and its reload at concrete inputs.
use hydr.Base.{
  ℕ, zero, suc, ◌+◌, ◌≡◌, refl, sym, ap, ◌∙◌, arith, List, [], ◌∷◌, ◌++◌, append_assoc, true, false,
  none, some, ◌==◌, if◌then◌else◌,
}
use hydr.Base.Results.{Text, text, Result, ok, err, message}
use hydr.Base.Sets.{list_beq, nat_eq}
use hydr.Certs.{
  GeneratedCert, File, Files, Pem, newline, join, map_text, armor, IsLine, pem_text, WriteAnswers,
  Answers, load_pair,
}
use hydr.Certs.Armor.{fine_write, owned}
use hydr.Certs.Keeps.{
  load, asks, Apart, split_error, load-again, load-half_written, load_pair-texts,
}
use hydr.Fingerprint.Verify.{cert_fingerprint, accepts, make_client_config_with_pin}
use hydr.Server.Reload.{Reloader, Event, edit, wake, run_quic, on_events, round}
use hydr.Server.Reloaded.{Serves, run_quic-Serves, round-hup}
use hydr.Server.Stale.{on_events-stale, round-regenerated}

-- An encoding that counts: each byte is a row of ones before a zero.
abbrev row : ℕ → Text → Text
row zero s = b'0' ∷ s
row (suc n) s = b'1' ∷ row n s

abbrev rows : List ℕ → Text
rows [] = []
rows (b ∷ bs) = row b (rows bs)

-- Reading stops at the second mark and passes over newlines.
unfoldable read_rows : ℕ → Text → List ℕ
read_rows n [] = []
read_rows n (c ∷ s) =
    let more = read_rows (n + 1) s in
    let next = read_rows 0 s in
    let same = read_rows n s in
    if c == b'1' then more else if c == b'0' then n ∷ next else if c == b'-' then [] else same

abbrev end_of : Text → Text
end_of tag = text "-----END " ++ (tag ++ text "-----\n")

read_rows-row : (b n : ℕ) (s : Text) → read_rows n (row b s) ≡ (n + b) ∷ read_rows 0 s
unfolding read_rows
read_rows-row zero n s = ap (λ k. k ∷ read_rows 0 s) (omega arith)
read_rows-row (suc b) n s = read_rows-row b (n + 1) s ∙ ap (λ k. k ∷ read_rows 0 s) (omega arith)

row-append : (b : ℕ) (s t : Text) → row b s ++ t ≡ row b (s ++ t)
row-append zero s t = refl
row-append (suc b) s t = ap (◌∷◌ b'1') (row-append b s t)

read_rows-rows : (bs : List ℕ) (tag : Text) → read_rows 0 (rows bs ++ end_of tag) ≡ bs
unfolding read_rows
read_rows-rows [] tag = refl
read_rows-rows (b ∷ bs) tag =
    ap (read_rows 0) (row-append b (rows bs) (end_of tag))
    ∙ read_rows-row b 0 (rows bs ++ end_of tag)
    ∙ ap (λ k. k ∷ read_rows 0 (rows bs ++ end_of tag)) (omega arith)
    ∙ ap (◌∷◌ b) (read_rows-rows bs tag)

read_rows-line :
    (l s t : Text) (n : ℕ)
    → ((k : ℕ) → read_rows k s ≡ read_rows k t)
    → read_rows n (l ++ s) ≡ read_rows n (l ++ t)
unfolding read_rows
read_rows-line [] s t n h = h n
read_rows-line (c ∷ l) s t n h =
    rw (read_rows-line l s t (n + 1) h, read_rows-line l s t 0 h, read_rows-line l s t n h) refl

read_rows-join :
    (lines : List Text) (s : Text) (n : ℕ)
    → read_rows n (join (map_text newline lines) ++ s) ≡ read_rows n (join lines ++ s)
unfolding read_rows
read_rows-join [] s n = refl
read_rows-join (l ∷ ls) s n =
    ap (read_rows n) (
      append_assoc (l ++ (10 ∷ [])) (join (map_text newline ls)) s
      ∙ append_assoc l (10 ∷ []) (join (map_text newline ls) ++ s))
    ∙ read_rows-line l (10 ∷ (join (map_text newline ls) ++ s)) (join ls ++ s) n
        (λ k. read_rows-join ls s k)
    ∙ ap (read_rows n) (sym (append_assoc l (join ls) s))

-- The lines behind the first.
unfoldable skip_line : Text → Text
skip_line [] = []
skip_line (c ∷ s) = let rest = skip_line s in if c == 10 then s else rest

abbrev read_pem : Text → Result (List ℕ)
read_pem s = ok (read_rows 0 (skip_line s))

read_pem-lines :
    (der : List ℕ) (lines : List Text) (tag : Text)
    → join lines ≡ rows der
    → read_rows 0 (join (map_text newline lines) ++ end_of tag) ≡ der
read_pem-lines der lines tag e =
    read_rows-join lines (end_of tag) 0
    ∙ ap (λ t. read_rows 0 (t ++ end_of tag)) e
    ∙ read_rows-rows der tag

abbrev pem : Pem
pem = record {
  encode = rows;
  cert_from_pem = read_pem;
  key_from_pem = read_pem;
  cert_from_pem-armor = λ der lines all e.
      ap ok (unfold skip_line in read_pem-lines der lines (text "CERTIFICATE") e);
  key_from_pem-armor = λ der lines all e.
      ap ok (unfold skip_line in read_pem-lines der lines (text "PRIVATE KEY") e);
}

abbrev with_tmp : Text → Text
with_tmp path = path ++ text ".tmp"

-- A certificate with its key, for each number that is drawn.
abbrev pair : ℕ → GeneratedCert
pair n = record { cert_der = n ∷ []; key_der = n ∷ [] }

abbrev generate : Text → ℕ → Result GeneratedCert
generate name seed = ok (pair seed)

abbrev c_pem : Text
c_pem = text "c.pem"

abbrev k_pem : Text
k_pem = text "k.pem"

abbrev name : Text
name = text "hydr"

abbrev empty : Files
empty = λ q. none

apart : Apart with_tmp c_pem k_pem
apart = record {
  key_cert = refl;
  cert_key = refl;
  tmp_cert = refl;
  cert_tmp = refl;
  tmp_key = refl;
}

abbrev first : Answers
first = asks 7 (fine_write 10 0x1a4 0) (fine_write 11 0x1a4 0)

load-again_example :
    ((load pem with_tmp generate first name c_pem k_pem empty).0 ≡ ok (pair 7))
    × ((later : Answers) (name' : Text)
        → later.read_cert ≡ none
        → later.read_key ≡ none
        → load pem with_tmp generate later name' c_pem k_pem
            (load pem with_tmp generate first name c_pem k_pem empty).1
          ≡ (ok (pair 7), (load pem with_tmp generate first name c_pem k_pem empty).1))
    × ((load pem with_tmp generate first name c_pem k_pem empty).1 c_pem
        ≡ some (owned (pem_text (text "CERTIFICATE") (rows (7 ∷ []))) 10))
    × ((load pem with_tmp generate first name c_pem k_pem empty).1 k_pem
        ≡ some (owned (pem_text (text "PRIVATE KEY") (rows (7 ∷ []))) 11))
load-again_example =
    load-again pem with_tmp generate name c_pem k_pem empty 7 10 0x1a4 0 (pair 7) apart refl refl
      refl 11 0x1a4 0

-- The disk is full when the key is created.
abbrev full : WriteAnswers
full = record (fine_write 11 0x1a4 0) { created = some (message (text "disk full")) }

abbrev broken : Result GeneratedCert × Files
broken = load pem with_tmp generate (asks 7 (fine_write 10 0x1a4 0) full) name c_pem k_pem empty

broken_err : broken.0 ≡ err (message (text "disk full"))
unfolding hydr.Certs.load_or_generate_self_signed
broken_err = refl

load-half_written_example :
    load pem with_tmp generate first name c_pem k_pem broken.1 ≡ (err split_error, broken.1)
load-half_written_example =
    load-half_written pem with_tmp generate name c_pem k_pem empty 7 10 0x1a4 0 (pair 7) apart refl
      refl refl full (message (text "disk full")) broken_err first name

-- The hash is the certificate itself, and a key fits the certificate with the same bytes.
abbrev sha256 : List ℕ → List ℕ
sha256 cert = cert

abbrev with_single_cert : List ℕ → List ℕ → Result (Unit {0})
with_single_cert cert key = if list_beq cert key then ok tt else err (message (text "key mismatch"))

-- Files with the given certificate and key.
abbrev disk : ℕ → ℕ → ℕ → Files
disk cert time key = λ q.
    if list_beq c_pem q
    then some (owned (pem_text (text "CERTIFICATE") (rows (cert ∷ []))) time)
    else if list_beq k_pem q
    then some (owned (pem_text (text "PRIVATE KEY") (rows (key ∷ []))) 0)
    else none

abbrev serving : Files → Reloader
serving files = record { served = pair 3; current_fp = 3 ∷ []; last_mtime = some 0; files = files }

serving-Serves :
    (files : Files)
    → Serves pem with_tmp generate sha256 with_single_cert name c_pem k_pem (serving files)
unfolding hydr.Server.Reload.build_quinn_server_config cert_fingerprint
serving-Serves files = record { fits = refl; known = refl }

round-hup_example :
    cert_fingerprint sha256
      (round pem with_tmp generate sha256 with_single_cert name c_pem k_pem true first
        (serving (disk 9 5 9))).served.cert_der
    ≡ cert_fingerprint sha256 (9 ∷ [])
unfolding hydr.Server.Reload.build_quinn_server_config
round-hup_example =
    round-hup pem with_tmp generate sha256 with_single_cert name c_pem k_pem first
      (serving (disk 9 5 9)) (owned (pem_text (text "CERTIFICATE") (rows (9 ∷ []))) 5)
      (owned (pem_text (text "PRIVATE KEY") (rows (9 ∷ []))) 0) (pair 9)
      (serving-Serves (disk 9 5 9)) refl refl
      (load_pair-texts pem with_tmp generate first c_pem k_pem (disk 9 5 9) (pair 9) 5 0 refl refl
        refl refl)
      refl

-- The new certificate is there with the old key, then the new key comes, and the task ticks.
abbrev late : List Event
late = wake false first ∷ edit (disk 9 5 9) ∷ wake false first ∷ []

on_events-stale_example :
    (on_events pem with_tmp generate sha256 with_single_cert name c_pem k_pem
      (round pem with_tmp generate sha256 with_single_cert name c_pem k_pem false first
        (serving (disk 9 5 3)))
      late).served
    ≡ (round pem with_tmp generate sha256 with_single_cert name c_pem k_pem false first
        (serving (disk 9 5 3))).served
on_events-stale_example =
    on_events-stale pem with_tmp generate sha256 with_single_cert name c_pem k_pem false first
      (serving (disk 9 5 3)) (owned (pem_text (text "CERTIFICATE") (rows (9 ∷ []))) 5) late refl
      (refl, (refl, (refl, tt)))

abbrev started : Reloader
started = record {
  served = pair 7;
  current_fp = 7 ∷ [];
  last_mtime = none;
  files = (load pem with_tmp generate first name c_pem k_pem empty).1;
}

run_quic-Serves_example :
    Serves pem with_tmp generate sha256 with_single_cert name c_pem k_pem
      (on_events pem with_tmp generate sha256 with_single_cert name c_pem k_pem started late)
unfolding hydr.Certs.load_or_generate_self_signed run_quic
    hydr.Server.Reload.build_quinn_server_config cert_fingerprint
run_quic-Serves_example =
    run_quic-Serves pem with_tmp generate sha256 with_single_cert name c_pem k_pem first (ok tt)
      empty started late refl

round-regenerated_example :
    ((round pem with_tmp generate sha256 with_single_cert name c_pem k_pem false first
        (serving empty)).served
      ≡ pair 7)
    × (accepts sha256
          (λ c. true)
          (make_client_config_with_pin false (some (cert_fingerprint sha256 (3 ∷ []))))
          (round pem with_tmp generate sha256 with_single_cert name c_pem k_pem false first
            (serving empty)).served.cert_der
        ≡ false)
unfolding hydr.Server.Reload.build_quinn_server_config cert_fingerprint
round-regenerated_example =
    round-regenerated pem with_tmp generate sha256 with_single_cert name c_pem k_pem (λ c. true)
      false (serving empty) (pair 7) 0 7 10 0x1a4 0 11 0x1a4 0 (serving-Serves empty) apart refl
      refl refl refl refl refl
