-- ===== src/Util.antt =====
-- util.go: a StackError, and the file names in its stack trace.
pub mod Stripping
pub mod Tracing
use mongonet.Base.{
  ℕ, zero, suc, List, [], ◌∷◌, ◌++◌, take, drop, ◌==◌, if◌then◌else◌, Option, none, some, Outcome,
  ok, hang,
}
use mongonet.Base.Errors.{◌>>=◌}

-- '/'
abbrev pub slash : ℕ
slash = 47

abbrev pub last_from : ℕ → Option ℕ → Option ℕ
last_from b (some i) = some (suc i)
last_from b none = if b == slash then some 0 else none

-- `strings.LastIndex(path, "/")`, none for -1
unfoldable pub last_index : List ℕ → Option ℕ
last_index [] = none
last_index (b ∷ bs) = last_from b (last_index bs)

-- `switch idx := ...; idx`, where `break` leaves the switch alone
abbrev pub cut_at : Option ℕ → ℕ → ℕ
cut_at none idx_cutoff = idx_cutoff
cut_at (some idx) idx_cutoff = idx

-- The loop of `stripDirectories`, with what is left of `toKeep`.
unfoldable pub strip_loop : ℕ → List ℕ → ℕ → ℕ
strip_loop zero path idx_cutoff = idx_cutoff
strip_loop (suc left) path idx_cutoff =
    strip_loop left path (cut_at (last_index (take idx_cutoff path)) idx_cutoff)

abbrev pub strip_from : List ℕ → ℕ → Option ℕ → List ℕ
strip_from path to_keep none = path
strip_from path to_keep (some idx_cutoff) = drop (suc (strip_loop to_keep path idx_cutoff)) path

-- `stripDirectories`
unfoldable pub strip_directories : List ℕ → ℕ → List ℕ
strip_directories path to_keep = strip_from path to_keep (last_index path)

-- `StackError`
pub record StackError : Type 0 where
  pub message : List ℕ
  pub stacktrace : List (List ℕ)

-- "at " and "\n\t"
abbrev pub at_text : List ℕ
at_text = 97 ∷ 116 ∷ 32 ∷ []

abbrev pub line_break : List ℕ
line_break = 10 ∷ 9 ∷ []

-- `strings.Join(texts, "\n\t")`
abbrev pub join : List (List ℕ) → List ℕ
join [] = []
join (t ∷ []) = t
join (t ∷ (u ∷ ts)) = t ++ (line_break ++ join (u ∷ ts))

-- `Error`
abbrev pub error_text : StackError → List ℕ
error_text e = e.message ++ (line_break ++ join e.stacktrace)

-- `decimal` prints a number, and `caller` is `runtime.Caller`: file and line of each frame, up to the outermost.
module _ (decimal : ℕ → List ℕ) (caller : ℕ → Option (List ℕ × ℕ)) where
  -- `fmt.Sprintf("at %s:%d", stripDirectories(file, 2), line)`
  unfoldable pub frame_text : List ℕ × ℕ → List ℕ
  frame_text (file, line) = at_text ++ (strip_directories file 2 ++ (58 ∷ decimal line))

  -- What the loop adds before the frames further out, or its `break`.
  abbrev pub add_frame : Option (List ℕ × ℕ) → Outcome (List (List ℕ)) → Outcome (List (List ℕ))
  add_frame none rest = ok []
  add_frame (some f) rest = rest >>= λ texts. ok (frame_text f ∷ texts)

  -- `stacktrace` from a frame on
  unfoldable pub trace_from : ℕ → ℕ → Outcome (List (List ℕ))
  trace_from zero skip = hang
  trace_from (suc fuel) skip = let rest = trace_from fuel (suc skip) in add_frame (caller skip) rest

  -- `NewStackErrorf`, of the formatted text
  abbrev pub new_stack_error : ℕ → List ℕ → Outcome StackError
  new_stack_error fuel text =
      trace_from fuel 2 >>= λ trace. ok (record { message = text; stacktrace = trace })
