-- ===== src/Util/Tracing.antt =====
-- util.go: the stack trace of an error.
use mongonet.Base.{
  ℕ, zero, suc, ◌<◌, ◌≡◌, refl, List, [], ◌∷◌, map, length, Option, none, some, arith, ok,
}
use mongonet.Util.{frame_text, trace_from, new_stack_error}

-- The frames that `runtime.Caller` gives, from one on up to the outermost.
pub data IsStack (caller : ℕ → Option (List ℕ × ℕ)) : ℕ → List (List ℕ × ℕ) → Type 0 where
  outermost : (skip : ℕ) → caller skip ≡ none → IsStack caller skip []
  frame :
      (skip : ℕ) (f : List ℕ × ℕ) (fs : List (List ℕ × ℕ))
      → caller skip ≡ some f
      → IsStack caller (suc skip) fs
      → IsStack caller skip (f ∷ fs)

module _ (decimal : ℕ → List ℕ) (caller : ℕ → Option (List ℕ × ℕ)) where
  -- With more turns than there are frames the loop of `stacktrace` ends, with one line for each frame.
  pub trace_from-IsStack :
      (fuel skip : ℕ) (frames : List (List ℕ × ℕ))
      → IsStack caller skip frames
      → length frames < fuel
      → trace_from decimal caller fuel skip ≡ ok (map (frame_text decimal caller) frames)
  unfolding trace_from
  trace_from-IsStack zero skip frames s l = absurd (omega arith)
  trace_from-IsStack (suc fuel) skip [] (outermost _ e) l = rw e refl
  trace_from-IsStack (suc fuel) skip (f ∷ fs) (frame _ _ _ e more) l =
      rw (e, trace_from-IsStack fuel (suc skip) fs more (omega arith)) refl

  -- The error of `NewStackErrorf` has its text, and a line for each frame from the caller's caller on.
  pub new_stack_error-IsStack :
      (fuel : ℕ) (text : List ℕ) (frames : List (List ℕ × ℕ))
      → IsStack caller 2 frames
      → length frames < fuel
      → new_stack_error decimal caller fuel text
        ≡ ok (record { message = text; stacktrace = map (frame_text decimal caller) frames })
  new_stack_error-IsStack fuel text frames s l = rw (trace_from-IsStack fuel 2 frames s l) refl
