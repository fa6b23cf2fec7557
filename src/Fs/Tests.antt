-- ===== src/Fs/Tests.antt =====
-- Runs of the pipe and of the calls on descriptors.
use linux.Prelude.{
  ℕ, ◌+◌, ◌%◌, ◌≡◌, ◌≢◌, ◌⊎◌, refl, arith, [], ◌∷◌, ◌==◌, if◌then◌else◌, set_bit, find_first,
  length, none, some, Ret, ret, fail, ok,
}
use linux.Fs.Files.{
  Files, dupfd, sys_dup2, sys_close, sys_fcntl, f_dupfd, file_of, nr_open, slot_from,
}
use linux.Fs.Files.Counts.{IsCounted, IsClosed, refs, sys_close_lem}
use linux.Fs.Files.Duplicates.{IsDup2, sys_dup2_lem}
use linux.Fs.Files.Control.{sys_fcntl-IsCounted}
use linux.Fs.Pipe.{Pipe, returned, failed, sleeping, read_pipe, write_pipe, pipe_size, stop_full}
use linux.Fs.Pipe.Fifo.{IsRead, IsWritten, read_pipe_lem, write_pipe_lem}

-- Three bytes, the first at the end of the page.
abbrev round_the_end : Pipe
round_the_end = record { head = 2; tail = 4095; page = λ i. i % 256; count = 2; signal = 0 }

-- Room for one more byte.
abbrev nearly_full : Pipe
nearly_full = record { head = 9; tail = 11; page = λ i. 7; count = 2; signal = 0 }

read_two : (read_pipe 2 round_the_end).0 ≡ 255 ∷ 0 ∷ []
unfolding read_pipe
read_two = refl

write_two_sleeps : (write_pipe (1 ∷ 2 ∷ []) nearly_full).1 ≡ sleeping 1
unfolding write_pipe stop_full
write_two_sleeps = refl

no_reader : (write_pipe (1 ∷ []) (record round_the_end { count = 1 })).1 ≡ failed
unfolding write_pipe
no_reader = refl

read_pipe_lem_example :
    let (bytes, p', end) = read_pipe 2 round_the_end in
    IsRead 2 round_the_end bytes p'
    × (((pipe_size round_the_end ≡ 0) × (round_the_end.count ≡ 2) × (end ≡ sleeping 2))
        ⊎ (((pipe_size round_the_end ≢ 0) ⊎ (round_the_end.count ≢ 2))
            × (end ≡ returned (length bytes))))
read_pipe_lem_example = read_pipe_lem 2 round_the_end (omega arith)

write_pipe_lem_example :
    let (p', end) = write_pipe (1 ∷ 2 ∷ []) nearly_full in
    ((nearly_full.count ≡ 2) × IsWritten (1 ∷ 2 ∷ []) 0 nearly_full p' end)
    ⊎ ((nearly_full.count ≢ 2)
        × (end ≡ failed)
        × (p' ≡ record nearly_full { signal = set_bit 12 nearly_full.signal }))
write_pipe_lem_example = write_pipe_lem (1 ∷ 2 ∷ []) nearly_full (omega arith)

-- Descriptors 0 and 2 refer to file 5, which no other task has open, and descriptor 1 to file 7.
abbrev files : Files
files = record {
  filp = λ i.
      if i == 0 then some 5 else (if i == 1 then some 7 else (if i == 2 then some 5 else none));
  close_on_exec = 0;
  f_count = λ f. if 5 == f then 2 else (if 7 == f then 1 else 0);
  f_flags = λ f. 0;
  f_inode = λ f. 100 + f;
  iputs = [];
}

abbrev no_other : ℕ → ℕ
no_other f = 0

files-counts : (f : ℕ) → files.f_count f ≡ refs files.filp f nr_open
unfolding refs
files-counts f = ground arith

files-IsCounted : IsCounted no_other files
files-IsCounted = record { counts = λ f. omega (arith, files-counts f); bound = λ f. omega arith }

dup_fills : (dupfd 0 1 files).1 ≡ ret 3
unfolding dupfd slot_from file_of find_first
dup_fills = refl

dup2_same : (r : Files × Ret) × (sys_dup2 2 2 files ≡ ok r) × (r.1 ≡ fail 9)
unfolding dupfd slot_from file_of find_first sys_dup2 sys_close
dup2_same = (_, refl, refl)

sys_close_lem_example :
    (s' : Files) × (r : Ret) × (sys_close 1 files ≡ ok (s', r))
    × IsCounted no_other s'
    × IsClosed no_other 1 files s' r
sys_close_lem_example = sys_close_lem no_other 1 files files-IsCounted

sys_dup2_lem_example :
    (s' : Files) × (r : Ret) × (sys_dup2 0 1 files ≡ ok (s', r))
    × IsCounted no_other s'
    × IsDup2 0 1 files s' r
sys_dup2_lem_example = sys_dup2_lem no_other 0 1 files files-IsCounted (omega arith)

sys_fcntl-IsCounted_example : IsCounted no_other (sys_fcntl 1 f_dupfd 4 files).0
sys_fcntl-IsCounted_example = sys_fcntl-IsCounted no_other 1 4 f_dupfd files files-IsCounted

second_open : file_of 1 files ≡ some 7
unfolding file_of
second_open = refl
