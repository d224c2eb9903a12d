-- ===== src/Certs.antt =====
-- crates/hydr-transport/src/tls.rs: the certificate of a server and its two PEM files. A file system is
-- a function of the path; what it answers to the calls is given by `WriteAnswers` and `Answers`.
-- base64 and the reading of PEM are the parameter `Pem`, the generation of a certificate, by what it draws at random,
-- is an argument.
pub mod Armor
pub mod Keeps
use hydr.Base.{
  ℕ, zero, suc, ◌≤◌, ◌≡◌, List, [], ◌∷◌, ◌++◌, Bool, true, false, Option, none, some, ◌&&◌, not,
  length, take, drop, All, if◌then◌else◌,
}
use hydr.Base.Results.{Text, text, Result, ok, err, panic, Error, message, ◌>>=◌}
use hydr.Base.Sets.{list_beq, nat_eq}

pub record GeneratedCert : Type 0 where
  pub cert_der : List ℕ
  pub key_der : List ℕ

pub record File : Type 0 where
  pub contents : Text
  pub mode : ℕ
  pub modified : ℕ

abbrev pub Files : Type 0
Files = Text → Option File

unfoldable pub store : Text → File → Files → Files
store path f files = λ q. if list_beq path q then some f else files q

-- `std::fs::rename`
unfoldable pub rename : Text → Text → Files → Files
rename from to files =
    λ q. if list_beq to q then files from else if list_beq from q then none else files q

abbrev pub xor : Bool → Bool → Bool
xor true b = not b
xor false b = b

abbrev pub exists : Files → Text → Bool
exists files path = elim (files path) [ none ↦ false | some f ↦ true ]

-- The format of RFC 7468: lines between the two marks.
abbrev pub newline : Text → Text
newline l = l ++ (10 ∷ [])

abbrev pub join : List Text → Text
join [] = []
join (l ∷ ls) = l ++ join ls

abbrev pub map_text : (Text → Text) → List Text → List Text
map_text f [] = []
map_text f (l ∷ ls) = f l ∷ map_text f ls

abbrev pub armor : Text → List Text → Text
armor tag lines =
    (text "-----BEGIN " ++ (tag ++ text "-----\n"))
    ++ (join (map_text newline lines) ++ (text "-----END " ++ (tag ++ text "-----\n")))

abbrev pub IsLine : Text → Type 0
IsLine l = (1 ≤ length l) × (length l ≤ 64)

-- What the code relies on of the crates `base64` and `rustls-pki-types`: an encoding that is broken into lines
-- of 64 characters or fewer between the marks of its kind is read back.
pub record Pem : Type 0 where
  pub encode : List ℕ → Text
  pub cert_from_pem : Text → Result (List ℕ)
  pub key_from_pem : Text → Result (List ℕ)
  pub cert_from_pem-armor :
      (der : List ℕ) (lines : List Text)
      → All IsLine lines
      → join lines ≡ encode der
      → cert_from_pem (armor (text "CERTIFICATE") lines) ≡ ok der
  pub key_from_pem-armor :
      (der : List ℕ) (lines : List Text)
      → All IsLine lines
      → join lines ≡ encode der
      → key_from_pem (armor (text "PRIVATE KEY") lines) ≡ ok der

-- `chunks(64)`; each chunk takes a byte or more, so that the length is fuel enough.
unfoldable pub chunks : ℕ → Text → List Text
chunks zero s = []
chunks (suc fuel) [] = []
chunks (suc fuel) (c ∷ s) = take 64 (c ∷ s) ∷ chunks fuel (drop 64 (c ∷ s))

-- The loop that appends each chunk.
unfoldable pub push_chunks : Text → List Text → Text
push_chunks pem [] = pem
push_chunks pem (chunk ∷ rest) = push_chunks ((pem ++ chunk) ++ (10 ∷ [])) rest

unfoldable pub pem_text : Text → Text → Text
unfolding chunks push_chunks
pem_text tag b64 =
    push_chunks (text "-----BEGIN " ++ (tag ++ text "-----\n")) (chunks (length b64) b64)
    ++ (text "-----END " ++ (tag ++ text "-----\n"))

-- What the system answers to one `write_pem`: the error, if any, of each call, the time, the mode that a new file gets,
-- whether modes may be set, and how much of a failed write is in the file.
pub record WriteAnswers : Type 0 where
  pub created : Option Error
  pub written : Option Error
  pub synced : Option Error
  pub renamed : Option Error
  pub now : ℕ
  pub new_mode : ℕ
  pub may_chmod : Bool
  pub partial : ℕ

-- A `set_permissions` whose error is ignored.
abbrev pub chmod : WriteAnswers → File → File
chmod a f = record f { mode = if a.may_chmod then 0x180 else f.mode }

unfoldable pub chmod_at : WriteAnswers → Text → Files → Files
unfolding store
chmod_at a path files = elim (files path) [ none ↦ files | some f ↦ store path (chmod a f) files ]

-- `File::create`
unfoldable pub create : WriteAnswers → Text → Files → File
create a path files = elim (files path) [
  | none ↦ record { contents = []; mode = a.new_mode; modified = a.now }
  | some f ↦ record { contents = []; mode = f.mode; modified = a.now }
]

-- What the system answers to one load: the errors of reading, what is drawn at random, and the two writes.
pub record Answers : Type 0 where
  pub read_cert : Option Error
  pub read_key : Option Error
  pub seed : ℕ
  pub cert_write : WriteAnswers
  pub key_write : WriteAnswers

unfoldable pub read_file : Option Error → Files → Text → Result Text
read_file (some e) files path = err e
read_file none files path = elim (files path) [
  | none ↦ err (message (text "No such file or directory"))
  | some f ↦ ok f.contents
]

module _ (pem : Pem) (with_tmp : Text → Text) where
  open pem use {encode, cert_from_pem, key_from_pem}

  -- `with_tmp` is `Path::with_extension("tmp")`.
  unfoldable pub write_pem : WriteAnswers → Text → Text → List ℕ → Files → Result (Unit {0}) × Files
  unfolding pem_text create store rename chmod_at
  write_pem a path tag der files =
      let whole = pem_text tag (encode der) in
      let tmp = with_tmp path in
      let f = chmod a (create a tmp files) in
      elim a.created [
        | some e ↦ (err e, files)
        | none ↦ elim a.written [
          | some e ↦ (err e, store tmp (record f { contents = take a.partial whole }) files)
          | none ↦ elim a.synced [
            | some e ↦ (err e, store tmp (record f { contents = whole }) files)
            | none ↦
                let there = store tmp (chmod a (record f { contents = whole })) files in
                elim a.renamed [
                  | some e ↦ (err e, there)
                  | none ↦ (ok tt, chmod_at a path (rename tmp path there))
                ]
          ]
        ]
      ]

  -- `from_pem_file` of both files.
  unfoldable pub load_pair : Answers → Text → Text → Files → Result GeneratedCert
  unfolding read_file
  load_pair a cp kp files = do
    cert_text ← read_file a.read_cert files cp
    cert ← cert_from_pem cert_text
    key_text ← read_file a.read_key files kp
    key ← key_from_pem key_text
    ok (record { cert_der = cert; key_der = key })

  -- The two writes, the second only behind a first that succeeded.
  unfoldable pub save : Answers → Text → Text → GeneratedCert → Files → Result GeneratedCert × Files
  unfolding write_pem
  save a cp kp cert files =
      let (r, files1) = write_pem a.cert_write cp (text "CERTIFICATE") cert.cert_der files in
      elim r [
        | err e ↦ (err e, files1)
        | panic ↦ (panic, files1)
        | ok done ↦
            let (r2, files2) = write_pem a.key_write kp (text "PRIVATE KEY") cert.key_der files1 in
            (r2 >>= λ done. ok cert, files2)
      ]

  module _ (generate_self_signed : Text → ℕ → Result GeneratedCert) where
    unfoldable pub load_or_generate_self_signed :
        Answers → Text → Option Text → Option Text → Files → Result GeneratedCert × Files
    unfolding load_pair save
    load_or_generate_self_signed a server_name (some cp) (some kp) files =
        if exists files cp && exists files kp
        then (load_pair a cp kp files, files)
        else if xor (not (exists files cp)) (not (exists files kp))
        then (err (message (text "cert and key must either both exist or both be absent")), files)
        else elim (generate_self_signed server_name a.seed) [
          | ok cert ↦ save a cp kp cert files
          | err e ↦ (err e, files)
          | panic ↦ (panic, files)
        ]
    load_or_generate_self_signed a server_name none none files =
        (generate_self_signed server_name a.seed, files)
    load_or_generate_self_signed a server_name (some cp) none files =
        (err (message (text "cert and key paths must be set together")), files)
    load_or_generate_self_signed a server_name none (some kp) files =
        (err (message (text "cert and key paths must be set together")), files)
