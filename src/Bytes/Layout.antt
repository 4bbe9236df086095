-- ===== src/Bytes/Layout.antt =====
-- What a run leaves in the buffer: the rules that give the bytes of a whole message from its parts.
use mongonet.Base.{
  ℕ, zero, suc, ◌+◌, ◌-◌, ◌/◌, ◌%◌, ◌^◌, ◌≤◌, ◌<◌, ◌≡◌, refl, sym, ap, ◌∙◌, List, [], ◌∷◌, ◌++◌,
  append_assoc, append-nil, arith, leb, length, length-append, take, drop, replicate, length-take,
  length-drop, length-replicate, take-append, eq-nil_of_length, take_all, take-take,
  take-append-drop, drop-add, true, false, ok,
}
use mongonet.Word.Shifts.{
  byte-sar32_8, byte-sar32_16, byte-sar32_24, byte-sar64_8, byte-sar64_16, byte-sar64_24,
  byte-sar64_32, byte-sar64_40, byte-sar64_48, byte-sar64_56,
}
use mongonet.Bytes.Writer.{
  Writer, ◌>>=◌, ◌>>◌, done, write_byte, copy_at, write_int32, write_int64, write_cstring, fill,
}

-- The bytes of an int32 and of an int64, lowest first.
abbrev pub le32 : ℕ → List ℕ
le32 i = i % 256 ∷ i / 2 ^ 8 % 256 ∷ i / 2 ^ 16 % 256 ∷ i / 2 ^ 24 % 256 ∷ []

abbrev pub le64 : ℕ → List ℕ
le64 i =
    i % 256
    ∷ i / 2 ^ 8 % 256
    ∷ i / 2 ^ 16 % 256
    ∷ i / 2 ^ 24 % 256
    ∷ i / 2 ^ 32 % 256
    ∷ i / 2 ^ 40 % 256
    ∷ i / 2 ^ 48 % 256
    ∷ i / 2 ^ 56 % 256
    ∷ []

-- Behind any bytes `p` the run `w` writes `x` over what stands there, if there is room, and
-- ends in `a`. A slice has fewer than 2 ^ 63 bytes.
pub record Emits {A : Type 0} (w : Writer A) (loc : ℕ) (x : List ℕ) (a : A) : Type 0 where
  pub run :
      (p junk : List ℕ)
      → length p ≡ loc
      → length x ≤ length junk
      → length p + length junk < 2 ^ 63
      → (rest : List ℕ) × (w (p ++ junk) ≡ ok (a, p ++ (x ++ rest)))
        × (length x + length rest ≡ length junk)

pub Emits-done : {A : Type 0} (loc : ℕ) (a : A) → Emits (done a) loc [] a
Emits-done loc a = record { run = λ p junk e h b. (junk, refl, omega arith) }

bind-ok :
    {A B : Type 0} (w : Writer A) (f : A → Writer B) (buf : List ℕ) (a : A) (buf' : List ℕ)
    → w buf ≡ ok (a, buf')
    → (w >>= f) buf ≡ f a buf'
bind-ok w f buf a buf' e = rw (e, ◌>>=◌)

regroup : (p x y r : List ℕ) → (p ++ x) ++ (y ++ r) ≡ p ++ ((x ++ y) ++ r)
regroup p x y r = simp append_assoc

-- One run after another, where the second starts behind what the first wrote.
pub Emits-bind :
    {A B : Type 0} (w : Writer A) (f : A → Writer B) (loc loc' : ℕ) (x y : List ℕ) (a : A) (b : B)
    → Emits w loc x a
    → loc' ≡ loc + length x
    → Emits (f a) loc' y b
    → Emits (w >>= f) loc (x ++ y) b
Emits-bind w f loc loc' x y a b ew eq ef = record {
  run = λ p junk e h bd.
      let room : length x + length y ≤ length junk = omega (arith, length-append x y) in
      let (r, we, wl) = ew.run p junk e (omega arith) bd in
      let (r', fe, fl) =
        ef.run (p ++ x) r (omega (arith, length-append p x)) (omega arith)
          (omega (arith, length-append p x)) in
      (
        r',
        bind-ok w f (p ++ junk) a (p ++ (x ++ r)) we
            ∙ ap (f a) (sym (append_assoc p x r))
            ∙ fe
            ∙ ap (λ t. ok (b, t)) (regroup p x y r'),
        omega (arith, length-append x y),
      );
}

-- A step that writes `x` and gives no value.
pub Emits-then :
    {B : Type 0} (w : Writer (Unit {0})) (k : Writer B) (loc loc' : ℕ) (x y : List ℕ) (b : B)
    → Emits w loc x tt
    → loc' ≡ loc + length x
    → Emits k loc' y b
    → Emits (w >> k) loc (x ++ y) b
Emits-then w k loc loc' x y b ew eq ek = Emits-bind w (λ _. k) loc loc' x y tt b ew eq ek

write_byte-append :
    (v : ℕ) (p : List ℕ) (b : ℕ) (r : List ℕ) (loc : ℕ)
    → length p ≡ loc
    → write_byte v loc (p ++ (b ∷ r)) ≡ ok (tt, p ++ (v ∷ r))
unfolding write_byte
write_byte-append v [] b r zero e = refl
write_byte-append v [] b r (suc loc) e = absurd (omega arith)
write_byte-append v (x ∷ p) b r zero e = absurd (omega arith)
write_byte-append v (x ∷ p) b r (suc loc) e =
    ground (arith, write_byte-append v p b r loc (omega arith))

pub Emits-byte : (v loc : ℕ) → Emits (write_byte v loc) loc (v ∷ []) tt
Emits-byte v loc = record { run = go }
  where
    go :
        (p junk : List ℕ)
        → length p ≡ loc
        → 1 ≤ length junk
        → length p + length junk < 2 ^ 63
        → (rest : List ℕ) × (write_byte v loc (p ++ junk) ≡ ok (tt, p ++ ((v ∷ []) ++ rest)))
          × (1 + length rest ≡ length junk)
    go p [] e h bd = absurd (omega arith)
    go p (b ∷ r) e h bd = (r, write_byte-append v p b r loc e, omega arith)

copy_at-append :
    (src p junk : List ℕ) (loc : ℕ)
    → length p ≡ loc
    → copy_at src loc (p ++ junk)
      ≡ ok (tt, p ++ (take (length junk) src ++ drop (length (take (length junk) src)) junk))
unfolding copy_at
copy_at-append src p junk loc e =
    let room : length (p ++ junk) - loc ≡ length junk = omega (arith, length-append p junk) in
    let fits : leb loc (length (p ++ junk)) ≡ true = ground (arith, length-append p junk) in
    rw (
      fits,
      room,
      take-append loc p junk (omega arith),
      drop-add (loc + length (take (length junk) src)) (length (take (length junk) src)) p junk
          (omega arith),
    )

-- `copy` of `src`, of which at least `k` bytes fit: the first `k` are there afterwards.
pub Emits-copy_at :
    (src : List ℕ) (k loc : ℕ) → k ≤ length src → Emits (copy_at src loc) loc (take k src) tt
Emits-copy_at src k loc h = record {
  run = λ p junk e room bd.
      let n = length junk in
      let m = length (take n src) in
      let fits : k ≤ n = omega (arith, length-take k src) in
      let front : take k src ++ drop k (take n src) ≡ take n src =
        rw (← take-take k n src fits) (take-append-drop k (take n src)) in
      (
        drop k (take n src) ++ drop m junk,
        copy_at-append src p junk loc e
            ∙ ap (λ t. ok (tt, p ++ t))
                (ap (λ t. t ++ drop m junk) (sym front) ∙ append_assoc (take k src) _ _),
        omega (
          arith,
          length-take k src,
          length-append (drop k (take n src)) (drop m junk),
          length-drop k (take n src),
          length-drop m junk,
          length-take n src,
        ),
      );
}

pub Emits-copy_all : (src : List ℕ) (loc : ℕ) → Emits (copy_at src loc) loc src tt
Emits-copy_all src loc =
    rw (take_all (length src) src (omega arith)) at
      (Emits-copy_at src (length src) loc (omega arith))

pub Emits-int32 : (i loc : ℕ) → i < 2 ^ 32 → Emits (write_int32 i loc) loc (le32 i) tt
unfolding write_int32
Emits-int32 i loc h =
    rw (← byte-sar32_8 i h, ← byte-sar32_16 i h, ← byte-sar32_24 i h)
      (Emits-then _ _ loc (loc + 1) _ _ tt (Emits-byte _ loc) refl (
        Emits-then _ _ (loc + 1) (loc + 2) _ _ tt (Emits-byte _ _) (omega arith) (
          Emits-then _ _ (loc + 2) (loc + 3) _ _ tt (Emits-byte _ _) (omega arith)
            (Emits-byte _ _))))

pub Emits-int64 : (i loc : ℕ) → i < 2 ^ 64 → Emits (write_int64 i loc) loc (le64 i) tt
unfolding write_int64
Emits-int64 i loc h =
    rw
      (
        ← byte-sar64_8 i h,
        ← byte-sar64_16 i h,
        ← byte-sar64_24 i h,
        ← byte-sar64_32 i h,
        ← byte-sar64_40 i h,
        ← byte-sar64_48 i h,
        ← byte-sar64_56 i h,
      )
      (Emits-then _ _ loc (loc + 1) _ _ tt (Emits-byte _ loc) refl (
        Emits-then _ _ (loc + 1) (loc + 2) _ _ tt (Emits-byte _ _) (omega arith) (
          Emits-then _ _ (loc + 2) (loc + 3) _ _ tt (Emits-byte _ _) (omega arith) (
            Emits-then _ _ (loc + 3) (loc + 4) _ _ tt (Emits-byte _ _) (omega arith) (
              Emits-then _ _ (loc + 4) (loc + 5) _ _ tt (Emits-byte _ _) (omega arith) (
                Emits-then _ _ (loc + 5) (loc + 6) _ _ tt (Emits-byte _ _) (omega arith) (
                  Emits-then _ _ (loc + 6) (loc + 7) _ _ tt (Emits-byte _ _) (omega arith)
                    (Emits-byte _ _))))))))

pub Emits-cstring :
    (s : List ℕ) (loc : ℕ) → Emits (write_cstring s loc) loc (s ++ (0 ∷ [])) (loc + length s + 1)
unfolding write_cstring
Emits-cstring s loc = Emits-then _ _ loc (loc + length s) s (0 ∷ []) _ (Emits-copy_all s loc) refl (
    Emits-then _ _ (loc + length s) (loc + length s + 1) (0 ∷ []) [] _ (Emits-byte 0 _) refl
      (Emits-done (loc + length s + 1) (loc + length s + 1)))

-- A run that emits exactly as many bytes as the buffer has gives these bytes.
pub fill-Emits :
    {A : Type 0} (size : ℕ) (w : Writer A) (x : List ℕ) (a : A)
    → size < 2 ^ 63
    → length x ≡ size
    → Emits w 0 x a
    → fill size w ≡ ok x
unfolding fill
fill-Emits size w x a small e ew =
    let (rest, we, wl) =
      ew.run [] (replicate size 0) refl (omega (arith, length-replicate {A = ℕ} size 0))
        (omega (arith, length-replicate {A = ℕ} size 0)) in
    let gone : rest ≡ [] = eq-nil_of_length rest (omega (arith, length-replicate {A = ℕ} size 0)) in
    let positive : leb (2 ^ 63) size ≡ false = ground arith in rw (positive, we, gone, append-nil)
