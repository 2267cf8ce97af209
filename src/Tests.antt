-- ===== src/Tests.antt =====
-- The theorems at concrete inputs where their hypotheses hold. The inputs that the tests share are
-- declared here.
mod Counts
mod Page
mod Walks
mod Arena
mod Client
mod Sessions
mod Tables
mod Programs
use uof_ufall.Base.{true, ◌+◌, ◌*◌, some}
use uof_ufall.Machine.{Os}

-- regions far apart
abbrev pub linux : Os
linux = record {
  mmap_answer = λ n size. some (0x7f00_0000_0000 + n * 0x10_0000);
  munmap_succeeds = λ p size. true;
  getpagesize = 4096;
}
