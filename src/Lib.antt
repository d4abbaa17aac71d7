-- ===== src/Lib.antt =====
-- stirmake, a build tool in C (stirc/).
--
-- stirmake reads Stirfiles, builds a graph of rules, and runs the commands of those that are out of
-- date. Path names from the Stirfiles are normalized (stirc/canon.c) before they become keys; the
-- rules are searched for cycles (better_cycle_detect of stirc/stirmake.c); a rule whose
-- dependencies are done goes to do_exec, which asks lstat through a cache (stirc/statcache.c),
-- compares times (ts_cmp, rec_mtim) and two databases of what was run before (stirc/db.c), and
-- queues the rule or marks it as executed; what the commands print is collected in pages and
-- written at once (stirc/syncbuf.c). The dependency files that compilers write are read by
-- stirc/incnonyy.c.
--
-- The files:
--   Prelude: shared names; Prelude/Tests Boolean tests on numbers, Prelude/Results the results of
--     calls, Prelude/Lists lists with native lengths and indices, Prelude/Int the integers of
--     time_t.
--   Canon: stirc/canon.c. Strings are lists of bytes without the NUL. Canon/Strings has strchr
--     and strrchr, Canon/Stack the list of elements that the buffer stands for, Canon/Refine the
--     loop against that list, Canon/Elements, Final, Normal and Climb the lexical normal form and
--     where canon returns it, Canon/Idempotent, Bounds and Backpath what the names of the files
--     say.
--   Time: struct timespec and ts_cmp; Time/Tree is rec_mtim over a directory tree given as data,
--     Time/TreeBound which of its times rec_mtim takes.
--   Db: the databases of commands and of times and sizes, with cmdequal_db and tsszequal_db of
--     stirc/stirmake.c. A database is the linked list of its records in order; the search trees
--     over it are an index and have no counterpart. Db/Laws has the lookups after each change.
--   UpToDate: do_exec for a rule that is not queued yet. A `World` has what do_exec reads: the
--     files (lstat_cached, lstat, stat, directory trees), the options and the flags of other rules.
--     Its children take the loop over the dependencies (Scan, Checks), over the targets (Targets),
--     and the conclusion (Decision, Correct); Alone is about rules without dependencies.
--   Cycle: better_cycle_detect, with the arrays no_cycles and parents as lists of flags.
--   Syncbuf: syncbuf_append and syncbuf_dump. A buffer is the list of its pages.
--   Cache: stirc/statcache.c, and stirc/accesscache.c, which is the same code for another system
--     call. The entries in use are the list in the order of their last use. Cache/Keys is about
--     that list, Cache/Coherent about each operation, and Cache/Runs about a program that sets the
--     cache up, looks names up and evicts them, while files change.
--   Remain: the dependencies that a rule waits for, of stirc/rule.c, with their two counts.
--   Sched: consider, reconsider, the calls of do_exec, and mark_executed. The flags of the rules
--     are a function from rule numbers, the cached access(), the tests of do_exec and what
--     mark_executed stores are an `Env` that the definitions take, so that the scheduler stands for
--     itself. What run_loop does to the rules is the relation `Step`, in any order. Sched/Invariant
--     has the invariant of the flags, Sched/Updates each write to a rule, Sched/Measure the fuel a
--     state needs, Sched/Visit, Loops, Calls and Reconsider take the invariant through the
--     functions, Sched/Safe through all runs. That no run is stuck needs more: Sched/Settled
--     compares rules, Sched/Branches and Quiet are about do_exec and mark_executed, Sched/Explore
--     and its children about consider, Sched/Awake, Wakes and Runs about mark_executed and
--     reconsider, Sched/Live about all runs.
--   DbText: file_escape_string of stirc/yyutils.c and dbyy_escape_string of stirc/dbnonyy.c.
--     DbText/Reader is dbyymineparse with the functions of stirc/dbyy.h and the lines of
--     stirc/mygetline.c, DbText/Writer what merge_db_v2 of stirc/stirmake.c prints. Unescape reads
--     one string back, Items and Numbers a line, Lines cuts the text into lines, Records and Files
--     read a record and RoundTrip the whole text. Ends and ReaderEnds take other texts. DbText/Load
--     is load_db_part2 with its callbacks, Reload and Restart what it makes of a printed text;
--     DbText/Merge is merge_db_v2 with the rules, and Recorded what they leave. strtol, strtoll and
--     the %lld of fprintf are parameters; their laws are `ReadsHex`, `Numerals` and `ReadsDigit`.
--   Stringtab: stirc/stringtab.c. The table is the list of its strings in use.
--   Inc: stirc/incnonyy.c with stirc/incyy.h, for a caller that gives fnrule, fntarget and fndep;
--     the calls are collected in a list. The position `start` in a line is the text from there on.
--     Inc/Sets has the two tests for the end of a word, Words, RoundTrip and Files read a name, a
--     line and a file back, Ends and Refusals take other texts.
--   Each component's Tests hold runs at small inputs.
--
-- Loops: the loops over linked lists and argument vectors are recursion on lists. The while loop of
-- canon_buflen runs on fuel, the length of the path, and takes a byte in each round.
-- better_cycle_detect_impl runs on fuel for its depth, one more than there are rules, since a rule
-- on the way down is not entered again. The while loop of syncbuf_append runs on fuel, the length
-- of the data, and copies a byte at least in each round. The calls of the scheduler run on fuel for
-- their depth, 6 n + 2 for n rules: a rule starts to execute once, and is executed once, and
-- between two of these there is one call of reconsider at most. dbyy_escape_string runs on the
-- length of the line behind the quote, each round takes a byte of it; so does the loop over a line.
-- The loops of handle_line run on the length of the line, each round takes a byte of it.
--
-- Bounds: indices, sizes and counts are numbers without a bound. Seconds are integers, nanoseconds
-- numbers.
--
-- Not modelled: the processes, pipes and signals of run_loop; what mark_executed stores in the
-- databases; merge_db_v1 and the indexes of rules, which no definition here covers; the grammars
-- and their lexers, which bison and flex turn into code; the abce virtual machine, a git submodule;
-- Lua; the job server and the command line, which are system calls and their glue. Messages and
-- traces are left out. A system call that fails where the program then exits has no counterpart but
-- in the scheduler, where it ends the call. Files with NUL bytes are left out.
mod Prelude
pub mod Canon
pub mod Time
pub mod Db
pub mod UpToDate
pub mod Cycle
pub mod Syncbuf
pub mod Cache
pub mod Remain
pub mod Sched
pub mod DbText
pub mod Stringtab
pub mod Inc
