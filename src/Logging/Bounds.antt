-- ===== src/Logging/Bounds.antt =====
-- logging.go: the sizes of the log files.
use soha_app.Base.{◌<◌, ◌⊎◌, ℕ, ◌+◌, ◌≤◌, Bool, true, ◌≡◌, some, List, [], ◌∷◌, arith, All}
use soha_app.Logging.{
  open_rotating_log_writer, Disk, Files, RotatingLogWriter, append, open_log_file, replace_file,
  rotate, size_of, write,
}

-- The writer's size is the file's while it is open, and neither file has more than `bound` bytes.
pub record IsBounded (bound : ℕ) (w : RotatingLogWriter) : Type 0 where
  pub in_step : w.is_open ≡ true → w.size ≡ size_of w.files.current
  pub current : size_of w.files.current ≤ bound
  pub backup : size_of w.files.backup ≤ bound

module _ (disk : Disk) (max_bytes bound : ℕ) where
  abbrev Rotated : RotatingLogWriter → Bool × RotatingLogWriter → Type 0
  Rotated w (worked, w') =
      IsBounded bound w' × (worked ≡ true → (w'.size ≡ 0) × (w'.is_open ≡ true))

  rotate-IsBounded :
      (w : RotatingLogWriter) → IsBounded bound w → Rotated w (rotate disk max_bytes w)
  unfolding rotate replace_file open_log_file size_of
  rotate-IsBounded w b = (ground (arith, b.in_step, b.current, b.backup), λ worked. ground arith)

  append-IsBounded :
      (length : ℕ) (w : RotatingLogWriter)
      → IsBounded bound w
      → w.is_open ≡ true
      → w.size + length ≤ bound
      → IsBounded bound (append disk max_bytes length w).1
  unfolding append size_of
  append-IsBounded length w b o fits = ground (arith, b.in_step, b.current, b.backup)

  write-IsBounded :
      (length : ℕ) (w : RotatingLogWriter)
      → max_bytes ≤ bound
      → length ≤ bound
      → IsBounded bound w
      → IsBounded bound (write disk max_bytes length w).1
  unfolding write
  write-IsBounded length w m l b =
      let w1 = (rotate disk max_bytes w).1 in
      let (rotated, fresh) = rotate-IsBounded w b in
      ground
        (arith, b, rotated, fresh, append-IsBounded length w b, append-IsBounded length w1 rotated)

  unfoldable pub writes : List ℕ → RotatingLogWriter → RotatingLogWriter
  writes [] w = w
  writes (length ∷ lengths) w = writes lengths (write disk max_bytes length w).1

  -- The log stays within its bound. Whatever calls of the file system fail, if the limit and every record
  -- are at most `bound` bytes long, then after any sequence of writes neither the log nor its backup has
  -- more, and an open writer knows the size of its file.
  pub writes-IsBounded :
      (lengths : List ℕ) (w : RotatingLogWriter)
      → max_bytes ≤ bound
      → All (λ length. length ≤ bound) lengths
      → IsBounded bound w
      → IsBounded bound (writes lengths w)
  unfolding writes
  writes-IsBounded [] w m l b = b
  writes-IsBounded (length ∷ lengths) w m (here, later) b =
      writes-IsBounded lengths (write disk max_bytes length w).1 m later
        (write-IsBounded length w m here b)

  -- A log that is opened is not full. Whatever calls fail, the writer that is opened over files of at most
  -- `bound` bytes is within the bound, is open, and its log is empty or shorter than the limit.
  pub open_rotating_log_writer-IsBounded :
      (files : Files) (w : RotatingLogWriter)
      → size_of files.current ≤ bound
      → size_of files.backup ≤ bound
      → (open_rotating_log_writer disk max_bytes files).0 ≡ some w
      → IsBounded bound w × (w.is_open ≡ true) × ((w.size ≡ 0) ⊎ (w.size < max_bytes))
  unfolding open_rotating_log_writer replace_file open_log_file size_of
  open_rotating_log_writer-IsBounded files w c b h = ground arith
