-- ===== src/Logging.antt =====
-- logging.go: the rotating writer of the app's log, over files that are the count of their bytes.
use Prim.Native.Nat.{min}
use soha_app.Base.{
  ℕ, suc, ◌+◌, Bool, true, false, not, ◌&&◌, Option, none, some, ltb, leb, if◌then◌else◌, List, [],
  ◌∷◌,
}
pub mod Bounds
mod Tests

-- The two files, `none` for one that is not there.
pub record Files : Type 0 where
  pub current : Option ℕ
  pub backup : Option ℕ
  -- the calls of the file system so far
  pub clock : ℕ

-- rotatingLogWriter; `open` is whether `file` is not nil.
pub record RotatingLogWriter : Type 0 where
  pub is_open : Bool
  pub size : ℕ
  pub files : Files

-- Which calls of the file system fail, and how many bytes a write that fails has written.
pub record Disk : Type 0 where
  pub fails : ℕ → Bool
  pub written : ℕ → ℕ

unfoldable pub size_of : Option ℕ → ℕ
size_of none = 0
size_of (some n) = n

module _ (disk : Disk) (max_bytes : ℕ) where
  abbrev pub tick : Files → Files
  tick files = record files { clock = suc files.clock }

  -- replaceFile(path, path+".1")
  unfoldable pub replace_file : Files → Bool × Files
  replace_file files =
      if disk.fails files.clock
      then (false, tick files)
      else (true, record (tick files) { current = none; backup = files.current })

  -- openLogFile: the size of the file, which is created if it is not there; a failure behind the opening
  -- leaves it created.
  unfoldable pub open_log_file : Files → Option ℕ × Files
  unfolding size_of
  open_log_file files =
      let opened = record (tick files) { current = some (size_of files.current) } in
      if disk.fails files.clock
      then (none, if disk.fails (suc files.clock) then tick files else opened)
      else (some (size_of files.current), opened)

  -- rotate; a writer whose rotation failed behind Close stays closed.
  unfoldable pub rotate : RotatingLogWriter → Bool × RotatingLogWriter
  rotate w =
      let files1 = tick w.files in
      if disk.fails w.files.clock
      then (false, record w { files = files1 })
      else let (replaced, files2) = replace_file files1 in
        let closed = record w { is_open = false; files = files2 } in
        if not replaced
        then (false, closed)
        else let (opened, files3) = open_log_file files2 in
          elim opened [
            | none ↦ (false, record closed { files = files3 })
            | some size ↦ (true, record { is_open = true; size = size; files = files3 })
          ]

  -- writer.file.Write: all of the data, or an error and a part of it.
  unfoldable pub append : ℕ → RotatingLogWriter → Bool × RotatingLogWriter
  unfolding size_of
  append length w =
      let fails = disk.fails w.files.clock in
      let written = if fails then min (disk.written w.files.clock) length else length in
      (
        not fails,
        record w {
          size = w.size + written;
          files = record (tick w.files) { current = some (size_of w.files.current + written) };
        },
      )

  -- Write, of data of a length
  unfoldable pub write : ℕ → RotatingLogWriter → Bool × RotatingLogWriter
  write length w =
      if not w.is_open
      then (false, w)
      else if ltb 0 w.size && ltb max_bytes (w.size + length)
      then (let (rotated, w1) = rotate w in if rotated then append length w1 else (false, w1))
      else append length w

  -- Close
  unfoldable pub close : RotatingLogWriter → RotatingLogWriter
  close w = if w.is_open then record w { is_open = false; files = tick w.files } else w

  -- openRotatingLogWriter, behind the directory: a file that is full is rotated first.
  unfoldable pub open_rotating_log_writer : Files → Option RotatingLogWriter × Files
  unfolding size_of
  open_rotating_log_writer files =
      let full = leb max_bytes (size_of files.current) in
      let (replaced, files1) = if full then replace_file files else (true, files) in
      if not replaced
      then (none, files1)
      else let (opened, files2) = open_log_file files1 in
        elim opened [
          | none ↦ (none, files2)
          | some size ↦ (some (record { is_open = true; size = size; files = files2 }), files2)
        ]
