-- ===== src/Util/Stripping.antt =====
-- util.go: what is left of a file name.
use mongonet.Base.{
  ℕ, zero, suc, ◌+◌, ◌≤◌, ◌≡◌, inl, inr, refl, sym, ap, subst, ◌∙◌, List, [], ◌∷◌, ◌++◌, length,
  take, drop, take-append, append_assoc, Bool-cases, if◌then◌else◌, ◌==◌, ==_iff, none, some, arith,
}
use mongonet.Util.{slash, last_index, strip_loop, strip_directories}

-- How many slashes there are.
unfoldable pub slashes : List ℕ → ℕ
slashes [] = 0
slashes (b ∷ bs) = (if b == slash then 1 else 0) + slashes bs

-- What `stripDirectories` leaves: a name without a slash; what stands behind the slash that leaves the given
-- number of slashes; or what stands behind the first slash, where there are no more.
pub data IsStripped (to_keep : ℕ) (path out : List ℕ) : Type 0 where
  alone : slashes path ≡ 0 → out ≡ path → IsStripped to_keep path out
  kept :
      (before : List ℕ)
      → path ≡ before ++ slash ∷ out
      → slashes out ≡ to_keep
      → IsStripped to_keep path out
  fewer :
      (before : List ℕ)
      → path ≡ before ++ slash ∷ out
      → slashes before ≡ 0
      → slashes out ≤ to_keep
      → IsStripped to_keep path out

-- The last slash of a text, or none.
data Last (xs : List ℕ) : Type 0 where
  nowhere : last_index xs ≡ none → slashes xs ≡ 0 → Last xs
  here :
      (before behind : List ℕ)
      → xs ≡ before ++ slash ∷ behind
      → last_index xs ≡ some (length before)
      → slashes behind ≡ 0
      → Last xs

last : (xs : List ℕ) → Last xs
unfolding last_index slashes
last [] = nowhere refl refl
last (b ∷ bs) = elim (last bs) [
  | nowhere e none_left ↦ elim (Bool-cases (b == slash)) [
    | inl same ↦
        here [] bs (ap (λ x. x ∷ bs) ((==_iff b slash).0 same)) (rw (e, same) refl) none_left
    | inr other ↦ nowhere (rw (e, other) refl) (rw (other, none_left) refl)
  ]
  | here before behind q e none_left ↦
      here (b ∷ before) behind (ap (λ x. b ∷ x) q) (rw e refl) none_left
]

slashes-++ : (xs ys : List ℕ) → slashes (xs ++ ys) ≡ slashes xs + slashes ys
unfolding slashes
slashes-++ [] ys = omega arith
slashes-++ (x ∷ xs) ys = rw (slashes-++ xs ys) (omega arith)

drop_before : (xs ys : List ℕ) → drop (suc (length xs)) (xs ++ slash ∷ ys) ≡ ys
drop_before [] ys = refl
drop_before (x ∷ xs) ys = drop_before xs ys

-- Where no slash stands before the cut the loop leaves it.
strip_loop-same :
    (n : ℕ) (path : List ℕ) (cut : ℕ)
    → last_index (take cut path) ≡ none
    → strip_loop n path cut ≡ cut
unfolding strip_loop
strip_loop-same zero path cut e = refl
strip_loop-same (suc n) path cut e = rw e (strip_loop-same n path cut e)

strip_loop-IsStripped :
    (to_keep n : ℕ) (before behind : List ℕ)
    → slashes behind + n ≡ to_keep
    → IsStripped to_keep (before ++ slash ∷ behind) (
        drop
          (suc (strip_loop n (before ++ slash ∷ behind) (length before)))
          (before ++ slash ∷ behind))
unfolding strip_loop slashes
strip_loop-IsStripped to_keep zero before behind c =
    rw (drop_before before behind) (IsStripped.kept before refl (omega arith))
strip_loop-IsStripped to_keep (suc n) before behind c = elim (last before) [
  | nowhere e z ↦
      rw
        (
          take-append (length before) before (slash ∷ behind) refl,
          e,
          strip_loop-same n (before ++ slash ∷ behind) (length before)
              (ap last_index (take-append (length before) before (slash ∷ behind) refl) ∙ e),
          drop_before before behind,
        )
        (IsStripped.fewer before refl z (omega arith))
  | here b d q e z ↦
      let whole : before ++ slash ∷ behind ≡ b ++ slash ∷ (d ++ slash ∷ behind) =
        ap (λ t. t ++ slash ∷ behind) q ∙ append_assoc b (slash ∷ d) (slash ∷ behind) in
      rw (take-append (length before) before (slash ∷ behind) refl, e)
        (subst (λ p. IsStripped to_keep p (drop (suc (strip_loop n p (length b))) p)) (sym whole)
          (strip_loop-IsStripped to_keep n b (d ++ slash ∷ behind)
            (rw (slashes-++ d (slash ∷ behind), z) (omega (arith, c)))))
]

-- What `stripDirectories` leaves of any path, for any number of directories to keep: a name without a slash as
-- it is; else what stands behind a slash of the path, with exactly that number of slashes in it, or, where there
-- are no more slashes than that, what stands behind the first slash.
pub strip_directories-IsStripped :
    (path : List ℕ) (to_keep : ℕ) → IsStripped to_keep path (strip_directories path to_keep)
unfolding strip_directories
strip_directories-IsStripped path to_keep = elim (last path) [
  | nowhere e z ↦ rw e (IsStripped.alone z refl)
  | here before behind q e z ↦ rw e (
      subst (λ p. IsStripped to_keep p (drop (suc (strip_loop to_keep p (length before))) p))
        (sym q) (strip_loop-IsStripped to_keep to_keep before behind (omega (arith, z))))
]
