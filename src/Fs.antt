-- ===== src/Fs.antt =====
-- The file system interface of Zephyr that the firmware calls, on a state `S`, and what its
-- documentation promises. A file is opened, written and closed under its path.
pub mod Medium
use mender_rt1180_zephyr.Prelude.{
  ℕ, ◌≡◌, ◌≢◌, Bool, List, [], ◌++◌, take, drop, length, Option, some, Ret, val, Errno, err,
}

pub record Fs (FilePath S : Type 0) : Type 0 where
  -- what `fs_stat` returns, and what it reports of a path
  pub stat : FilePath → S → Ret × S
  pub is_dir : FilePath → S → Bool
  pub size : FilePath → S → ℕ
  pub mkdir : FilePath → S → Ret × S
  -- FS_O_CREATE | FS_O_WRITE, and a write to a file that is opened so, from its start
  pub open_write : FilePath → S → Ret × S
  pub write_over : FilePath → List ℕ → S → Ret × S
  -- FS_O_CREATE | FS_O_WRITE | FS_O_TRUNC
  pub create : FilePath → S → Ret × S
  pub open_read : FilePath → S → Ret × S
  -- the bytes read are empty on an error
  pub read : FilePath → ℕ → S → (Ret × List ℕ) × S
  -- from the start of the file
  pub seek : FilePath → ℕ → S → Ret × S
  pub write : FilePath → List ℕ → S → Ret × S
  pub sync : FilePath → S → Ret × S
  pub close : FilePath → S → Ret × S
  pub unlink : FilePath → S → Ret × S
  pub rename : FilePath → FilePath → S → Ret × S
  -- what a path holds
  pub content : S → FilePath → Option (List ℕ)

-- What the calls promise on success, and on the paths that they do not name.
pub record Lawful (FilePath S : Type 0) (fs : Fs FilePath S) : Type 0 where
  pub stat-content : (p q : FilePath) (s : S) → fs.content (fs.stat p s).1 q ≡ fs.content s q
  pub mkdir-content : (p q : FilePath) (s : S) → fs.content (fs.mkdir p s).1 q ≡ fs.content s q
  pub sync-content : (p q : FilePath) (s : S) → fs.content (fs.sync p s).1 q ≡ fs.content s q
  pub close-content : (p q : FilePath) (s : S) → fs.content (fs.close p s).1 q ≡ fs.content s q
  pub open_read-content :
      (p q : FilePath) (s : S) → fs.content (fs.open_read p s).1 q ≡ fs.content s q
  pub read-content :
      (p q : FilePath) (n : ℕ) (s : S) → fs.content (fs.read p n s).1 q ≡ fs.content s q
  pub seek-content :
      (p q : FilePath) (n : ℕ) (s : S) → fs.content (fs.seek p n s).1 q ≡ fs.content s q
  -- a created file is empty
  pub create-content :
      (p : FilePath) (s : S) (n : ℕ)
      → (fs.create p s).0 ≡ val n
      → fs.content (fs.create p s).1 p ≡ some []
  -- a write appends the bytes that it counts
  pub write-content :
      (p : FilePath) (bytes old : List ℕ) (s : S) (n : ℕ)
      → (fs.write p bytes s).0 ≡ val n
      → fs.content s p ≡ some old
      → fs.content (fs.write p bytes s).1 p ≡ some (old ++ take n bytes)
  pub unlink_apart :
      (p q : FilePath) (s : S) → q ≢ p → fs.content (fs.unlink p s).1 q ≡ fs.content s q
  pub rename-content :
      (p q : FilePath) (s : S) (n : ℕ)
      → (fs.rename p q s).0 ≡ val n
      → fs.content (fs.rename p q s).1 q ≡ fs.content s p

-- A file is created and written under its own path, and a rename that fails leaves its target.
pub record Apart (FilePath S : Type 0) (fs : Fs FilePath S) : Type 0 where
  pub create_apart :
      (p q : FilePath) (s : S) → q ≢ p → fs.content (fs.create p s).1 q ≡ fs.content s q
  pub write_apart :
      (p q : FilePath) (bytes : List ℕ) (s : S)
      → q ≢ p
      → fs.content (fs.write p bytes s).1 q ≡ fs.content s q
  pub rename_apart :
      (p q : FilePath) (s : S) (e : Errno)
      → (fs.rename p q s).0 ≡ err e
      → fs.content (fs.rename p q s).1 q ≡ fs.content s q

-- What a power failure leaves, `durable`, on the documented behaviour of LittleFS: a change that is
-- not synchronised concerns its own path alone, a rename takes effect as a whole, and one that fails
-- leaves its target.
pub record Durable (FilePath S : Type 0) (fs : Fs FilePath S) : Type 0 where
  pub durable : S → FilePath → Option (List ℕ)
  pub create_durable : (p q : FilePath) (s : S) → q ≢ p → durable (fs.create p s).1 q ≡ durable s q
  pub write_durable :
      (p q : FilePath) (bytes : List ℕ) (s : S)
      → q ≢ p
      → durable (fs.write p bytes s).1 q ≡ durable s q
  pub unlink_durable : (p q : FilePath) (s : S) → q ≢ p → durable (fs.unlink p s).1 q ≡ durable s q
  pub sync_durable : (p q : FilePath) (s : S) → q ≢ p → durable (fs.sync p s).1 q ≡ durable s q
  pub close_durable : (p q : FilePath) (s : S) → q ≢ p → durable (fs.close p s).1 q ≡ durable s q
  -- what is synchronised is durable, and stays so when the file is closed
  pub durable-sync :
      (p : FilePath) (s : S) (n : ℕ)
      → (fs.sync p s).0 ≡ val n
      → durable (fs.sync p s).1 p ≡ fs.content s p
  pub durable-close :
      (p : FilePath) (s : S)
      → durable s p ≡ fs.content s p
      → durable (fs.close p s).1 p ≡ durable s p
  pub durable-rename :
      (p q : FilePath) (s : S) (n : ℕ)
      → (fs.rename p q s).0 ≡ val n
      → durable (fs.rename p q s).1 q ≡ durable s p
  pub rename_failed :
      (p q : FilePath) (s : S) (e : Errno)
      → (fs.rename p q s).0 ≡ err e
      → durable (fs.rename p q s).1 q ≡ durable s q

-- What is still to be read of an open file, `unread`: opening and rewinding give all of it, and a
-- read takes as much as there is of what is asked for.
pub record Readable (FilePath S : Type 0) (fs : Fs FilePath S) : Type 0 where
  pub unread : S → FilePath → List ℕ
  pub unread-open_read :
      (p : FilePath) (s : S) (n : ℕ) (bytes : List ℕ)
      → (fs.open_read p s).0 ≡ val n
      → fs.content s p ≡ some bytes
      → unread (fs.open_read p s).1 p ≡ bytes
  pub unread-seek :
      (p : FilePath) (n k : ℕ) (s : S) (bytes : List ℕ)
      → (fs.seek p n s).0 ≡ val k
      → fs.content s p ≡ some bytes
      → unread (fs.seek p n s).1 p ≡ drop n bytes
  pub read_bytes :
      (p : FilePath) (n k : ℕ) (s : S)
      → (fs.read p n s).0.0 ≡ val k
      → (k ≡ length (fs.read p n s).0.1)
        × ((fs.read p n s).0.1 ≡ take n (unread s p))
        × (unread (fs.read p n s).1 p ≡ drop n (unread s p))
