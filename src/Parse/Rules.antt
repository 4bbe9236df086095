-- ===== src/Parse/Rules.antt =====
-- One rule for each kind of step that the parsers make: what the step leaves of the text.
use mongonet.Base.{
  ℕ, ◌+◌, ◌^◌, ◌≤◌, ◌<◌, ◌≡◌, refl, sym, ap, subst, ◌∙◌, List, [], ◌∷◌, ◌++◌, append_assoc, arith,
  All, All-append_right, length, length-append, length-drop, drop, drop-append, take-append-drop,
  Outcome, ok, err, panic, hang,
}
use mongonet.Base.Errors.{Ensures, Ensures-bind, Ensures-mono, ◌>>=◌}
use mongonet.Word.{int_of, add_int}
use mongonet.Word.Shifts.{int_of_small}
use mongonet.Bytes.{slice_from, read_int32, read_int64, read_cstring}
use mongonet.Bytes.Layout.{le32, le64}
use mongonet.Bytes.Read.{
  IsByte, NoNul, IsCstringOf, slice_from-append, read_int32-Ensures, read_int64-Ensures,
  le32-read_int32, le64-read_int64, read_cstring-Ensures,
}
use mongonet.Bson.{SimpleBson, parse_simple_bson}
use mongonet.Bson.Parse.{IsDocAt, parse_simple_bson-Ensures}
use mongonet.Bson.Write.{IsCovered, image}
use mongonet.Bson.Docs.{image-IsDocAt}
use mongonet.Serialize.Layout.{IsInt32, IsInt64, cstring}

-- A value that the run gives, with the equation that says so.
Ensures-self :
    {A : Type 0} (P : A → Type 0) (m : Outcome A) → Ensures P m → Ensures (λ a. P a × (m ≡ ok a)) m
Ensures-self P (ok a) h = (h, refl)
Ensures-self P (err e) h = tt
Ensures-self P panic h = absurd h
Ensures-self P hang h = absurd h

-- What was read so far is `p`, and `t` is left.
pub record At (buf p t : List ℕ) : Type 0 where
  pub split : buf ≡ p ++ t

pub At-start : (buf : List ℕ) → At buf [] buf
At-start buf = record { split = refl }

pub At-next : {buf p t : List ℕ} (x u : List ℕ) → At buf p t → t ≡ x ++ u → At buf (p ++ x) u
At-next {p} x u e f = record { split = e.split ∙ ap (λ r. p ++ r) f ∙ sym (append_assoc p x u) }

pub At-IsByte : {buf p t : List ℕ} → At buf p t → All IsByte buf → All IsByte t
At-IsByte {p} {t} e h = All-append_right IsByte p t (subst (All IsByte) e.split h)

pub At-length : {buf p t : List ℕ} → At buf p t → length buf ≡ length p + length t
At-length {p} {t} e = ap length e.split ∙ length-append p t

pub At-drop : {buf p t : List ℕ} (n : ℕ) → At buf p t → n ≡ length p → drop n buf ≡ t
At-drop {p} {t} n e l = ap (drop n) e.split ∙ drop-append n p t l

module _ {B : Type 0} (Q : B → Type 0) where
  pub rule_slice :
      (buf p t : List ℕ) (loc : ℕ) (k : List ℕ → Outcome B)
      → At buf p t
      → loc ≡ length p
      → Ensures Q (k t)
      → Ensures Q (slice_from buf loc >>= k)
  rule_slice buf p t loc k e l h =
      subst (λ m. Ensures Q (m >>= k))
        (sym (ap (λ b. slice_from b loc) e.split ∙ slice_from-append p t loc l)) h

  pub rule_int32 :
      (t : List ℕ) (k : ℕ → Outcome B)
      → All IsByte t
      → 4 ≤ length t
      → ((i : ℕ) (u : List ℕ) → IsInt32 i → t ≡ le32 i ++ u → Ensures Q (k i))
      → Ensures Q (read_int32 t >>= k)
  rule_int32 t k bytes long h =
      Ensures-bind _ Q (read_int32 t) k (Ensures-self _ _ (read_int32-Ensures t long))
        λ i r. h i (drop 4 t) r.0 (sym (le32-read_int32 t i bytes r.1))

  pub rule_int64 :
      (t : List ℕ) (k : ℕ → Outcome B)
      → All IsByte t
      → 8 ≤ length t
      → ((i : ℕ) (u : List ℕ) → IsInt64 i → t ≡ le64 i ++ u → Ensures Q (k i))
      → Ensures Q (read_int64 t >>= k)
  rule_int64 t k bytes long h =
      Ensures-bind _ Q (read_int64 t) k (Ensures-self _ _ (read_int64-Ensures t long))
        λ i r. h i (drop 8 t) r.0 (sym (le64-read_int64 t i bytes r.1))

  pub rule_cstring :
      (t : List ℕ) (k : List ℕ → Outcome B)
      → ((s u : List ℕ) → NoNul s → t ≡ cstring s ++ u → Ensures Q (k s))
      → Ensures Q (read_cstring t >>= k)
  rule_cstring t k h =
      Ensures-bind (IsCstringOf t) Q (read_cstring t) k (read_cstring-Ensures t)
        λ s r. h s r.0 r.2 (r.1 ∙ sym (append_assoc s (0 ∷ []) r.0))

  pub rule_bson :
      (t : List ℕ) (k : SimpleBson → Outcome B)
      → length t < 2 ^ 63
      → ((d : SimpleBson) (u : List ℕ)
          → IsCovered d
          → t ≡ image d ++ u
          → (0 < d.size) × (length t ≡ d.size + length u)
          → Ensures Q (k d))
      → Ensures Q (parse_simple_bson t >>= k)
  rule_bson t k short h =
      Ensures-bind (IsDocAt t) Q (parse_simple_bson t) k (parse_simple_bson-Ensures t short) λ d r.
        h d (drop d.size t) (record { small = r.small; covered = r.covered })
          (sym (ap (λ x. x ++ drop d.size t) (image-IsDocAt t d r) ∙ take-append-drop d.size t))
          (r.positive, omega (arith, length-drop d.size t, r.fits))

-- `loc += int(doc.Size)`, within the text.
pub after_document :
    (loc : ℕ) (d : SimpleBson)
    → IsCovered d
    → loc + d.size < 2 ^ 63
    → add_int loc (int_of d.size) ≡ loc + d.size
after_document loc d h b = ap (add_int loc) (int_of_small d.size h.small) ∙ omega arith

-- A document at the front of the text, and what is left behind it.
abbrev pub DocNext : List ℕ → List ℕ → SimpleBson → Type 0
DocNext buf p d = IsCovered d × ((u : List ℕ) × At buf (p ++ image d) u)

pub At-last_bson :
    (buf p t : List ℕ) (loc : ℕ)
    → At buf p t
    → loc ≡ length p
    → length buf < 2 ^ 63
    → Ensures (DocNext buf p) (slice_from buf loc >>= parse_simple_bson)
At-last_bson buf p t loc at l short =
    rule_slice (DocNext buf p) buf p t loc parse_simple_bson at l (
      Ensures-mono (IsDocAt t) (DocNext buf p) (parse_simple_bson t)
        (λ d r. (
          record { small = r.small; covered = r.covered },
          (
            drop d.size t,
            At-next (image d) (drop d.size t) at (
                sym
                  (ap (λ x. x ++ drop d.size t) (image-IsDocAt t d r) ∙ take-append-drop d.size t)),
          ),
        ))
        (parse_simple_bson-Ensures t (omega (arith, At-length at))))

-- The same with `buf[loc:]` taken first, where `loc` is the number of bytes read so far.
module _ {B : Type 0} (Q : B → Type 0) {buf p t : List ℕ} (loc : ℕ) (at : At buf p t)
    (l : loc ≡ length p) where
  pub At-int32 :
      (k : ℕ → Outcome B)
      → All IsByte buf
      → 4 ≤ length t
      → ((i : ℕ) (u : List ℕ) → IsInt32 i → At buf (p ++ le32 i) u → Ensures Q (k i))
      → Ensures Q (slice_from buf loc >>= λ b. read_int32 b >>= k)
  At-int32 k bytes long h =
      rule_slice Q buf p t loc _ at l
        (rule_int32 Q t k (At-IsByte at bytes) long λ i u hi e. h i u hi (At-next (le32 i) u at e))

  pub At-int64 :
      (k : ℕ → Outcome B)
      → All IsByte buf
      → 8 ≤ length t
      → ((i : ℕ) (u : List ℕ) → IsInt64 i → At buf (p ++ le64 i) u → Ensures Q (k i))
      → Ensures Q (slice_from buf loc >>= λ b. read_int64 b >>= k)
  At-int64 k bytes long h =
      rule_slice Q buf p t loc _ at l
        (rule_int64 Q t k (At-IsByte at bytes) long λ i u hi e. h i u hi (At-next (le64 i) u at e))

  pub At-cstring :
      (k : List ℕ → Outcome B)
      → ((s u : List ℕ) → NoNul s → At buf (p ++ cstring s) u → Ensures Q (k s))
      → Ensures Q (slice_from buf loc >>= λ b. read_cstring b >>= k)
  At-cstring k h =
      rule_slice Q buf p t loc _ at l
        (rule_cstring Q t k λ s u nn e. h s u nn (At-next (cstring s) u at e))

  pub At-bson :
      (k : SimpleBson → Outcome B)
      → length buf < 2 ^ 63
      → ((d : SimpleBson) (u : List ℕ)
          → IsCovered d
          → At buf (p ++ image d) u
          → (0 < d.size) × (length t ≡ d.size + length u)
          → Ensures Q (k d))
      → Ensures Q (slice_from buf loc >>= λ b. parse_simple_bson b >>= k)
  At-bson k short h = rule_slice Q buf p t loc _ at l (
      rule_bson Q t k (omega (arith, At-length at))
        λ d u hd e n. h d u hd (At-next (image d) u at e) n)
