-- ===== src/Logging/Tests.antt =====
-- The log on a disk whose third call fails.
use soha_app.Base.{◌<◌, ◌==◌, ◌≡◌, ◌⊎◌, true, some, none, [], ◌∷◌, refl, arith}
use soha_app.Logging.{
  Disk, Files, RotatingLogWriter, open_log_file, open_rotating_log_writer, replace_file, size_of,
}
use soha_app.Logging.Bounds.{
  IsBounded, open_rotating_log_writer-IsBounded, writes, writes-IsBounded,
}

abbrev disk : Disk
disk = record { fails = λ call. call == 3; written = λ call. 5 }

abbrev files : Files
files = record { current = some 120; backup = none; clock = 0 }

abbrev opened : RotatingLogWriter
opened = record {
  is_open = true;
  size = 0;
  files = record { current = some 0; backup = some 120; clock = 2 };
}

writes-IsBounded_example : IsBounded 120 (writes disk 100 120 (60 ∷ 30 ∷ 110 ∷ 40 ∷ []) opened)
unfolding size_of
writes-IsBounded_example =
    writes-IsBounded disk 100 120 (60 ∷ 30 ∷ 110 ∷ 40 ∷ []) opened (omega arith)
      (omega arith, (omega arith, (omega arith, (omega arith, tt))))
      (record { in_step = λ o. refl; current = omega arith; backup = omega arith })

open_rotating_log_writer-IsBounded_example :
    IsBounded 120 opened × (true ≡ true) × ((opened.size ≡ 0) ⊎ (opened.size < 100))
unfolding open_rotating_log_writer open_log_file replace_file size_of
open_rotating_log_writer-IsBounded_example =
    open_rotating_log_writer-IsBounded disk 100 120 files opened (omega arith) (omega arith) refl
