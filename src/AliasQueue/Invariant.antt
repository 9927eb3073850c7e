-- ===== src/AliasQueue/Invariant.antt =====
-- The invariant of the queue, its goroutines and its calls of Resume, over every order of their
-- regions.
use running_tools.Prelude.Text.{Text}
use running_tools.AliasQueue.Types.{Queue}
use running_tools.AliasQueue.Api.{load}
use running_tools.AliasQueue.Worker.{Worker}
use running_tools.AliasQueue.Machine.{Machine, JobOk, WorkerOk}

-- A step of a goroutine keeps the stored job and its own place.
abbrev Keeps : Queue × Worker → Type 0
Keeps (q, w) = JobOk (load q) × WorkerOk w
