-- ===== src/Storage/Store.antt =====
-- storage/src/local_store.cpp, `put` and `remove`, over a file system that may fail at every call.
-- Paths are byte strings relative to the store's root; the directories are not kept.
use eye_d.Base.{
  ℕ, ◌≡◌, ◌≢◌, Bool, true, false, List, ◌++◌, none, some, arith, if◌then◌else◌, codes, take, length,
  length-append, ap, sym,
}
use eye_d.Base.Assoc.{lookup, insert, erase, lookup-insert, lookup-erase}
use eye_d.Base.Eq.{bytes_Eq, same_bytes, same_self, same_ne}

abbrev pub Bytes : Type 0
Bytes = List ℕ

-- The files under the root.
abbrev pub FileSystem : Type 0
FileSystem = List (Bytes × Bytes)

-- What goes wrong during one `put`: creating the parents, opening the .tmp file, the write that the
-- stream reports, the flush when the stream is closed (the stream is then destroyed, so nobody
-- sees that error), and the rename. `kept` is how much of the data reaches the disk if the write or
-- the flush fails.
pub record Faults : Type 0 where
  pub mkdir_fails : Bool
  pub open_fails : Bool
  pub write_fails : Bool
  pub flush_fails : Bool
  pub rename_fails : Bool
  pub kept : ℕ

abbrev pub tmp_of : Bytes → Bytes
tmp_of path = path ++ codes ".tmp"

-- `std::filesystem::rename`: the target is replaced by the file.
rename : Bytes → Bytes → FileSystem → FileSystem
rename from to fs = elim (lookup from fs) [
  | none ↦ fs
  | some content ↦ insert to content (erase from fs)
]

-- The answer is true where the code returns an error code that is not set.
pub put : Faults → Bytes → Bytes → FileSystem → Bool × FileSystem
unfolding rename
put f path content fs =
    let tmp = tmp_of path in
    if f.mkdir_fails
    then (false, fs)
    else if f.open_fails
    then (false, fs)
    else if f.write_fails
    then (false, erase tmp (insert tmp (take f.kept content) fs))
    else let written = insert tmp (if f.flush_fails then take f.kept content else content) fs in
      if f.rename_fails then (false, erase tmp written) else (true, rename tmp path written)

pub remove : Bool → Bytes → FileSystem → Bool × FileSystem
remove fails path fs = if fails then (false, fs) else (true, erase path fs)

tmp_ne : (path : Bytes) → tmp_of path ≢ path
tmp_ne path e = absurd (omega (arith, ap length e, length-append path (codes ".tmp")))

same_tmp : (path : Bytes) → same_bytes (tmp_of path) path ≡ false
same_tmp path = same_ne (tmp_of path) path (tmp_ne path)

rename-insert :
    (from to content : Bytes) (fs : FileSystem)
    → rename from to (insert from content fs)
      ≡ insert to content (erase from (insert from content fs))
unfolding rename
rename-insert from to content fs = rw (lookup-insert from from content fs, same_self from, rename)

-- What stands under `key` after each way in which `put` can leave the file system.
module _ (key path content : Bytes) (fs : FileSystem) where
  dropped :
      lookup key (erase (tmp_of path) (insert (tmp_of path) content fs))
      ≡ (if same_bytes (tmp_of path) key then none else lookup key fs)
  dropped = ground (
    arith,
    lookup-erase (tmp_of path) key (insert (tmp_of path) content fs),
    lookup-insert (tmp_of path) key content fs,
  )

  published : lookup key (rename (tmp_of path) path (insert (tmp_of path) content fs)) ≡ (
      if same_bytes path key
      then some content
      else if same_bytes (tmp_of path) key
      then none
      else lookup key fs)
  published = rw (rename-insert (tmp_of path) path content fs) (
      ground (
        arith,
        lookup-insert path key content (erase (tmp_of path) (insert (tmp_of path) content fs)),
        dropped,
      ))

-- Every file but the one written and its .tmp file is what it was, whatever fails.
pub put_frame :
    (f : Faults) (path content other : Bytes) (fs : FileSystem)
    → other ≢ path
    → other ≢ tmp_of path
    → lookup other (put f path content fs).1 ≡ lookup other fs
unfolding put
put_frame f path content other fs h k = ground (
  arith,
  dropped other path (take f.kept content) fs,
  dropped other path content fs,
  published other path (take f.kept content) fs,
  published other path content fs,
  same_ne path other (λ e. h (sym e)),
  same_ne (tmp_of path) other (λ e. k (sym e)),
)

-- Provided that the flush does not fail: a `put` that reports success has stored the whole content
-- under the path and left no .tmp file, and one that reports an error has left the file at the path
-- as it was.
pub put_atomic :
    (f : Faults) (path content : Bytes) (fs : FileSystem)
    → f.flush_fails ≡ false
    → (((put f path content fs).0 ≡ true)
        → (lookup path (put f path content fs).1 ≡ some content)
          × (lookup (tmp_of path) (put f path content fs).1 ≡ none))
      × (((put f path content fs).0 ≡ false)
          → lookup path (put f path content fs).1 ≡ lookup path fs)
unfolding put
put_atomic f path content fs h = (λ e. ground (arith, facts), λ e. ground (arith, facts))
  where
    facts :
        (lookup path (erase (tmp_of path) (insert (tmp_of path) (take f.kept content) fs))
          ≡ lookup path fs)
        × (lookup path (erase (tmp_of path) (insert (tmp_of path) content fs)) ≡ lookup path fs)
        × (lookup path (rename (tmp_of path) path (insert (tmp_of path) content fs)) ≡ some content)
        × (lookup (tmp_of path) (rename (tmp_of path) path (insert (tmp_of path) content fs))
            ≡ none)
    facts = ground (
      arith,
      dropped path path (take f.kept content) fs,
      dropped path path content fs,
      published path path content fs,
      published (tmp_of path) path content fs,
      same_tmp path,
      same_self path,
      same_self (tmp_of path),
      same_ne path (tmp_of path) (λ e. tmp_ne path (sym e)),
    )

-- Nothing goes wrong.
pub record Works (f : Faults) : Type 0 where
  pub mkdir : f.mkdir_fails ≡ false
  pub opens : f.open_fails ≡ false
  pub writes : f.write_fails ≡ false
  pub flushes : f.flush_fails ≡ false
  pub renames : f.rename_fails ≡ false

pub put_succeeds :
    (f : Faults) (path content : Bytes) (fs : FileSystem)
    → Works f
    → (put f path content fs).0 ≡ true
unfolding put
put_succeeds f path content fs w = ground arith

-- Where only the flush fails, the call reports success, and the path holds just the part of the data
-- that reached the disk.
pub put_truncated :
    (f : Faults) (path content : Bytes) (fs : FileSystem)
    → f.mkdir_fails ≡ false
    → f.open_fails ≡ false
    → f.write_fails ≡ false
    → f.rename_fails ≡ false
    → f.flush_fails ≡ true
    → ((put f path content fs).0 ≡ true)
      × (lookup path (put f path content fs).1 ≡ some (take f.kept content))
unfolding put
put_truncated f path content fs e0 e1 e2 e3 e4 =
    ground (arith, published path path (take f.kept content) fs, same_self path)
