-- ===== src/Time/Tree.antt =====
-- rec_mtim of stirc/stirmake.c: the latest time in a directory tree.
use stirmake.Prelude.{Bool, not, ◌&&◌, if◌then◌else◌}
use stirmake.Time.{Timespec, is_newer}

-- What readdir returns of a directory, "." and ".." left out. An entry has the times of stat and of
-- lstat, and says whether it is a target of a @rectgtrule (found_rectgt); if lstat finds a
-- directory, its own entries follow. Where stat or lstat fails the program exits.
pub data Entries : Type 0 where
  nil : Entries
  file : Bool → Timespec → Timespec → Entries → Entries
  sub : Bool → Timespec → Timespec → Entries → Entries → Entries

pub record Tree : Type 0 where
  pub stat_mtim : Timespec
  pub lstat_mtim : Timespec
  pub entries : Entries

unfoldable pub later : Timespec → Timespec → Timespec
unfolding is_newer
later cur max = if is_newer cur max then cur else max

-- The later time of an entry raises the maximum, unless the entry is a target.
unfoldable pub raise_entry : Bool → Timespec → Timespec → Timespec → Timespec
unfolding later
raise_entry found_rectgt st lst max =
    let cur = later lst st in if is_newer cur max && not found_rectgt then cur else max

unfoldable pub scan_dir : Timespec → Entries → Timespec
unfolding raise_entry later
scan_dir max nil = max
scan_dir max (file found st lst rest) = scan_dir (raise_entry found st lst max) rest
scan_dir max (sub found st lst inner rest) =
    scan_dir (later (scan_dir (later lst st) inner) (raise_entry found st lst max)) rest

unfoldable pub rec_mtim : Tree → Timespec
unfolding scan_dir
rec_mtim t = scan_dir (later t.lstat_mtim t.stat_mtim) t.entries
