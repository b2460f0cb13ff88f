-- ===== src/Apply/Host.antt =====
-- internal/apply/host.go: the interfaces through which the engine touches its host, over an
-- arbitrary state of the host. An error is its text; nil is `none`.
use regied.Prelude.{ℕ, String, ◌≡◌, Option, none, List, Result}
use regied.Apply.Types.{Command}
use regied.Ddns.{Provider}

-- ReadFile: the content and the mode, ErrNotExist, or another error
pub data FileAnswer : Type 0 where
  found : String → ℕ → FileAnswer
  missing : FileAnswer
  unreadable : String → FileAnswer

pub record Host (W : Type 0) : Type 0 where
  pub read_file : String → W → FileAnswer
  pub list_dir : String → W → Result (List String)
  pub write_file : String → String → ℕ → W → Option String × W
  pub make_dir : String → ℕ → W → Option String × W
  pub remove_file : String → W → Option String × W
  pub set_sysctl : String → String → W → Option String × W
  pub run_command : Command → W → Option String × W
  pub provider : Provider W

-- What the documentation of the file system says of its calls: a file that was written reads as it
-- was written, with the permission bits that it was given, and one that was removed is missing. A mode
-- is nothing but permission bits, at most 0o777, as every mode that the code writes is.
pub record FileLaws {W : Type 0} (host : Host W) : Type 0 where
  pub read_written :
      (path content : String) (mode : ℕ) (w : W)
      → (host.write_file path content mode w).0 ≡ none
      → host.read_file path (host.write_file path content mode w).1 ≡ found content mode
  pub read_removed :
      (path : String) (w : W)
      → (host.remove_file path w).0 ≡ none
      → host.read_file path (host.remove_file path w).1 ≡ missing

-- A property of the host that the calls on files keep.
pub record KeptByFiles {W : Type 0} (host : Host W) (P : W → Type 0) : Type 0 where
  pub written :
      (path content : String) (mode : ℕ) (w : W) → P w → P (host.write_file path content mode w).1
  pub made : (dir : String) (mode : ℕ) (w : W) → P w → P (host.make_dir dir mode w).1
  pub removed : (path : String) (w : W) → P w → P (host.remove_file path w).1
