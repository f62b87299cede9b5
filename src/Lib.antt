-- ===== src/Lib.antt =====
-- The Python of this repository that judges: FAT volumes, copies of the site, backups, hosts, the tests
-- themselves and the gates, as a model with proofs.
--
-- Prelude holds what the parts share; Prelude/Text has Python's string methods,
-- Prelude/Regex regular expressions, and Prelude/Decimal `str` of a number.
--
-- Fat models tools/fat16_read.py, the independent reader of FAT16 and FAT32 volumes that judges what
-- the kernel writes:
--   Fat/Bytes      byte strings, slices, `struct.unpack_from`, and the exceptions
--   Fat/Volume     `find_volume`, `Volume.__init__`, `sectors`, `fat`, `free_clusters`, `cluster`
--   Fat/Chain      `Volume.chain`
--   Fat/DosTime    `dos_time`, with what it uses of `datetime` and `calendar`
--   Fat/Dirent     `short_name`, `lfn_checksum`, and the lines of the list of problems
--   Fat/Entries    one round of the generator `Volume.entries`
--   Fat/Walk       `raw_entries` and `walk`, with its functions `own` and `visit`
--   Fat/Check      `check`, `fat32_problems`, `read` and the verdict of `main`
-- Copy models the programs of droplet/ that use the reader:
--   Copy/Compare   `compare` of droplet/compare_volume.py
-- Replay models droplet/replay.py, which asks the GETs of an access log of two hosts:
--   Replay/Json      JSON values, as the code looks at them
--   Replay/Keep      `header` and `keep`
--   Replay/Requests  `requests`
--   Replay/Answers   `ask`, `label`, `replay` and the exit status
-- Verdicts models tools/verdicts.py, which says what code was judged and whether an image may be built.
-- Verdicts/Content has `content_id`. What git and the file system say is a value there, and commands
-- that fail are not modelled.
-- Tree models droplet/check_volume_tree.py, which refuses a tree that FAT would not keep:
--   Tree/Names       names on VFAT, their slots and characters
--   Tree/Paths       `APP_PATHS` and `app_kind`
--   Tree/Check       `check` and the exit status
-- Mutate models the tools that break a source one way at a time and run the tests on each:
--   Mutate/Verdict   `verdict` of tools/mutate_run.py, with its regular expressions
--   Mutate/Apply     `apply` of tools/mutate_tcp.py
--   Mutate/Runs      the loop over the rows that both tools have, with `git checkout`, and under it
--                    Mutate/Runs/Tcp for tools/mutate_tcp.py and Mutate/Runs/Guards for
--                    tools/mutate_guards.py, each with its `main`
--   Mutate/Tables    `MUTANTS` of both
-- Backup models droplet/check_backup.py: an archive against the manifest at its end; Backup/Lines has
-- the lines of the manifest and their parts.
-- Linecov models tools/linecov.py: `poke_byte` on the words of a memory (Linecov/Words has the bytes of
-- a word), the breakpoints and the loop of `run`; Linecov/Table has `line_table`, Linecov/Measure `main`.
-- Stories models `update_jar` and `missing_marks` of probe/judge_gopher.py, and Stories/Response its
-- `parse_raw_response`.
-- Hosts models droplet/compare_hosts.py: `walk` and `compare`; Hosts/Pages has `pages`.
--
-- Bytes are natural numbers, and a byte string is its size with a function from indices to bytes,
-- as an image is mapped and not read. A sum of exceptions stands for what a call may raise; a
-- method that changes the walk takes the walk's state and returns it. A message is modelled by the
-- place that raises it and the numbers in it, not by its words. `Volume.chain` runs on fuel, two
-- more rounds than the highest cluster's number, which is more than a chain without a repetition
-- can take; `visit` counts the depth down from 65, where the code stops it. `str.casefold`,
-- `str.lower`, `json.loads`, the SHA-256 hash and the run of curl, which may not start, are
-- parameters. A text may hold a lone surrogate, which has no bytes in UTF-8, so that `encode`
-- raises on it, and `subprocess.run` on it and on a NUL. An offset of 2^63 or more makes
-- `struct.unpack_from` raise an OverflowError. Regular expressions have the ASCII meaning of their
-- classes. The files of a checkout are a function from paths to texts, a build of them and `git
-- status` are parameters, and an interrupt is a build without a result. The stops of a traced
-- program are a list, and its memory is changed by the tracer alone. A host is a function from
-- paths to answers, which its writes replace; `sorted`, `urllib.parse.quote`, `tarfile` and UTF-8
-- are parameters. A time of a file of a copy is in whole nanoseconds, where Python has a float of
-- seconds. Not modelled: printing, opening and mapping files, ptrace, processes and their handlers,
-- and the self-tests that run mkfs.vfat, mtools or a server.
pub mod Prelude
pub mod Fat
pub mod Copy
pub mod Replay
pub mod Verdicts
pub mod Tree
pub mod Mutate
pub mod Backup
pub mod Linecov
pub mod Hosts
pub mod Stories
