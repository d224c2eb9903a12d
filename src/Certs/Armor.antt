-- ===== src/Certs/Armor.antt =====
-- `write_pem` of crates/hydr-transport/src/tls.rs: the text that it writes is in the format of RFC 7468, and
-- a call that succeeds leaves it at the path.
use hydr.Base.{
  ℕ, zero, suc, ◌≤◌, ◌≡◌, refl, sym, ap, ◌∙◌, arith, List, [], ◌∷◌, ◌++◌, append_assoc, append-nil,
  Option, none, some, true, false, length, take, drop, length-drop, take-append-drop, All,
}
use hydr.Base.Results.{Text, text, ok}
use hydr.Base.Sets.{list_beq, list_beq_refl, nat_eq}
use hydr.Certs.{
  File, Files, store, rename, newline, join, map_text, armor, IsLine, Pem, chunks, push_chunks,
  pem_text, WriteAnswers, chmod, chmod_at, create, write_pem,
}

length-take_le : (n : ℕ) (s : Text) → length (take n s) ≤ n
length-take_le zero s = omega arith
length-take_le (suc n) [] = omega arith
length-take_le (suc n) (c ∷ s) = omega (arith, length-take_le n s)

first_chunk :
    (n c : ℕ) (s : Text)
    → (1 ≤ length (take (suc n) (c ∷ s))) × (length (take (suc n) (c ∷ s)) ≤ suc n)
first_chunk n c s = (omega arith, length-take_le (suc n) (c ∷ s))

chunks-IsLine : (fuel : ℕ) (s : Text) → All IsLine (chunks fuel s)
unfolding chunks
chunks-IsLine zero s = tt
chunks-IsLine (suc fuel) [] = tt
chunks-IsLine (suc fuel) (c ∷ s) = (first_chunk 63 c s, chunks-IsLine fuel (drop 64 (c ∷ s)))

join-chunks : (fuel : ℕ) (s : Text) → length s ≤ fuel → join (chunks fuel s) ≡ s
unfolding chunks
join-chunks zero [] h = refl
join-chunks zero (c ∷ s) h = absurd (omega arith)
join-chunks (suc fuel) [] h = refl
join-chunks (suc fuel) (c ∷ s) h =
    ap (◌++◌ (take 64 (c ∷ s)))
      (join-chunks fuel (drop 64 (c ∷ s)) (omega (arith, length-drop 64 (c ∷ s))))
    ∙ take-append-drop 64 (c ∷ s)

push_chunks-join :
    (pem : Text) (lines : List Text) → push_chunks pem lines ≡ pem ++ join (map_text newline lines)
unfolding push_chunks
push_chunks-join pem [] = sym (append-nil pem)
push_chunks-join pem (l ∷ ls) =
    push_chunks-join ((pem ++ l) ++ (10 ∷ [])) ls
    ∙ append_assoc (pem ++ l) (10 ∷ []) _
    ∙ append_assoc pem l _
    ∙ ap (◌++◌ pem) (sym (append_assoc l (10 ∷ []) _))

pub pem_text-armor : (tag b64 : Text) → pem_text tag b64 ≡ armor tag (chunks (length b64) b64)
unfolding pem_text
pem_text-armor tag b64 =
    ap (λ t. t ++ (text "-----END " ++ (tag ++ text "-----\n")))
      (push_chunks-join (text "-----BEGIN " ++ (tag ++ text "-----\n")) (chunks (length b64) b64))
    ∙ append_assoc (text "-----BEGIN " ++ (tag ++ text "-----\n"))
        (join (map_text newline (chunks (length b64) b64)))
        (text "-----END " ++ (tag ++ text "-----\n"))

-- What the code relies on, at the text that it writes.
module _ (pem : Pem) where
  open pem use {encode, cert_from_pem, key_from_pem, cert_from_pem-armor, key_from_pem-armor}

  pub cert_from_pem-pem_text :
      (der : List ℕ) → cert_from_pem (pem_text (text "CERTIFICATE") (encode der)) ≡ ok der
  cert_from_pem-pem_text der =
      let s = encode der in
      ap cert_from_pem (pem_text-armor (text "CERTIFICATE") s)
      ∙ cert_from_pem-armor der (chunks (length s) s) (chunks-IsLine (length s) s)
          (join-chunks (length s) s (omega arith))

  pub key_from_pem-pem_text :
      (der : List ℕ) → key_from_pem (pem_text (text "PRIVATE KEY") (encode der)) ≡ ok der
  key_from_pem-pem_text der =
      let s = encode der in
      ap key_from_pem (pem_text-armor (text "PRIVATE KEY") s)
      ∙ key_from_pem-armor der (chunks (length s) s) (chunks-IsLine (length s) s)
          (join-chunks (length s) s (omega arith))

-- The answers where nothing fails and modes may be set.
abbrev pub fine_write : (now new_mode partial : ℕ) → WriteAnswers
fine_write now new_mode partial = record {
  created = none;
  written = none;
  synced = none;
  renamed = none;
  now = now;
  new_mode = new_mode;
  may_chmod = true;
  partial = partial;
}

-- A file that only its owner can read.
abbrev pub owned : Text → ℕ → File
owned contents now = record { contents = contents; mode = 0x180; modified = now }

create-modified :
    (a : WriteAnswers) (tmp : Text) (files : Files) → (create a tmp files).modified ≡ a.now
unfolding create
create-modified a tmp files = made (files tmp)
  where
    made :
        (o : Option File)
        → (elim o as (λ x. File) [
          | none ↦ record { contents = []; mode = a.new_mode; modified = a.now }
          | some f ↦ record { contents = []; mode = f.mode; modified = a.now }
        ]).modified
          ≡ a.now
    made none = refl
    made (some f) = refl

rename-store :
    (tmp path : Text) (f : File) (files : Files) → rename tmp path (store tmp f files) path ≡ some f
unfolding rename store
rename-store tmp path f files = rw (list_beq_refl path, list_beq_refl tmp) refl

rename-other :
    (tmp path : Text) (f : File) (files : Files) (q : Text)
    → list_beq path q ≡ false
    → list_beq tmp q ≡ false
    → rename tmp path (store tmp f files) q ≡ files q
unfolding rename store
rename-other tmp path f files q e e' = rw (e, e') refl

chmod_at-store :
    (a : WriteAnswers) (path : Text) (f : File) (files : Files)
    → files path ≡ some f
    → chmod_at a path files ≡ store path (chmod a f) files
unfolding chmod_at
chmod_at-store a path f files e = rw (e, chmod_at) refl

store-here : (path : Text) (f : File) (files : Files) → store path f files path ≡ some f
unfolding store
store-here path f files = rw (list_beq_refl path) refl

pub store-other :
    (path : Text) (f : File) (files : Files) (q : Text)
    → list_beq path q ≡ false
    → store path f files q ≡ files q
unfolding store
store-other path f files q e = rw e refl

module _ (pem : Pem) (with_tmp : Text → Text) where
  open pem use {encode}

  -- What a write leaves: the path holds the text, for its owner only, and all else but the temporary file is
  -- as it was.
  abbrev pub Written : (path whole : Text) (now : ℕ) (before after : Files) → Type 0
  Written path whole now before after =
      (after path ≡ some (owned whole now))
      × ((q : Text)
          → list_beq path q ≡ false
          → list_beq (with_tmp path) q ≡ false
          → after q ≡ before q)

  pub write_pem-fine_write :
      (now new_mode partial : ℕ) (path tag : Text) (der : List ℕ) (files : Files)
      → let r = write_pem pem with_tmp (fine_write now new_mode partial) path tag der files in
        (r.0 ≡ ok tt) × Written path (pem_text tag (encode der)) now files r.1
  unfolding write_pem
  write_pem-fine_write now new_mode partial path tag der files =
      let a = fine_write now new_mode partial in
      let f : File = record {
        contents = pem_text tag (encode der);
        mode = 0x180;
        modified = (create a (with_tmp path) files).modified;
      } in
      let there = store (with_tmp path) f files in
      let set =
        chmod_at-store a path f (rename (with_tmp path) path there)
          (rename-store (with_tmp path) path f files) in
      (
        refl,
        (
          ap (λ fs. fs path) set
              ∙ store-here path (chmod a f) (rename (with_tmp path) path there)
              ∙ ap (λ t. some (owned (pem_text tag (encode der)) t))
                  (create-modified a (with_tmp path) files),
          λ q e e'.
              ap (λ fs. fs q) set
              ∙ store-other path (chmod a f) (rename (with_tmp path) path there) q e
              ∙ rename-other (with_tmp path) path f files q e e',
        ),
      )
