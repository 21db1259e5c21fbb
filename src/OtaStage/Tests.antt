-- ===== src/OtaStage/Tests.antt =====
-- A store of two files that takes at most three bytes in the first write of a file, and the theorems about the staging
-- on it. The checksum is the sum of the bytes.
use mender_rt1180_zephyr.Prelude.{
  ℕ, zero, suc, ◌≡◌, ◌≢◌, refl, ap, sym, ◌∙◌, arith, true, false, List, [], ◌∷◌, ◌++◌, take, length,
  Option, none, some, Ret, val, err, enoent,
}
use mender_rt1180_zephyr.Crc.Sum.{total, sum}
use mender_rt1180_zephyr.Fs.{Fs, Lawful}
use mender_rt1180_zephyr.OtaStage.{
  FilePath, ota_dir, staged, staged_tmp, Stage, cleared, ensure_ota_dir, stage_write, finish,
}
use mender_rt1180_zephyr.OtaStage.Verified.{Consistent, idle}
use mender_rt1180_zephyr.OtaStage.Reach.{
  Reach, start, next, wrote, finish_verifies, Reach-Consistent,
}
use mender_rt1180_zephyr.OtaStage.Again.{stage_write_again}

-- the staged and the temporary file
abbrev Files : Type 0
Files = Option (List ℕ) × Option (List ℕ)

abbrev get : Files → FilePath → Option (List ℕ)
get (a, b) ota_dir = none
get (a, b) staged = a
get (a, b) staged_tmp = b

abbrev put : FilePath → Option (List ℕ) → Files → Files
put ota_dir x (a, b) = (a, b)
put staged x (a, b) = (x, b)
put staged_tmp x (a, b) = (a, x)

abbrev limit : List ℕ → ℕ
limit [] = 3
limit (x ∷ old) = 100

abbrev written : FilePath → List ℕ → Option (List ℕ) → Files → Ret × Files
written p bytes none s = (err enoent, s)
written p bytes (some old) s =
    (val (length (take (limit old) bytes)), put p (some (old ++ take (limit old) bytes)) s)

abbrev create_file : FilePath → Files → Ret × Files
create_file ota_dir s = (err enoent, s)
create_file staged s = (val 0, put staged (some []) s)
create_file staged_tmp s = (val 0, put staged_tmp (some []) s)

abbrev rename_file : FilePath → FilePath → Files → Ret × Files
rename_file p ota_dir s = (err enoent, s)
rename_file p staged s = (val 0, put staged (get s p) s)
rename_file p staged_tmp s = (val 0, put staged_tmp (get s p) s)

abbrev files : Fs FilePath Files
files = record {
  stat = λ p s. (val 0, s);
  is_dir = λ p s. false;
  size = λ p s. 0;
  open_write = λ p s. (val 0, s);
  write_over = λ p bytes s. (val 0, s);
  seek = λ p n s. (val 0, s);
  mkdir = λ p s. (val 0, s);
  create = create_file;
  open_read = λ p s. (val 0, s);
  read = λ p n s. ((val 0, []), s);
  write = λ p bytes s. written p bytes (get s p) s;
  sync = λ p s. (val 0, s);
  close = λ p s. (val 0, s);
  unlink = λ p s. (val 0, put p none s);
  rename = rename_file;
  content = get;
}

create_file-content :
    (p : FilePath) (s : Files) (n : ℕ)
    → (create_file p s).0 ≡ val n
    → get (create_file p s).1 p ≡ some []
create_file-content ota_dir s n e = absurd (cc)
create_file-content staged (a, b) n e = refl
create_file-content staged_tmp (a, b) n e = refl

rename_file-content :
    (p q : FilePath) (s : Files) (n : ℕ)
    → (rename_file p q s).0 ≡ val n
    → get (rename_file p q s).1 q ≡ get s p
rename_file-content p ota_dir s n e = absurd (cc)
rename_file-content p staged (a, b) n e = refl
rename_file-content p staged_tmp (a, b) n e = refl

put-content :
    (p : FilePath) (x : List ℕ) (old : List ℕ) (s : Files)
    → get s p ≡ some old
    → get (put p (some x) s) p ≡ some x
put-content ota_dir x old (a, b) h = absurd (cc)
put-content staged x old (a, b) h = refl
put-content staged_tmp x old (a, b) h = refl

take-length : (n : ℕ) (xs : List ℕ) → take (length (take n xs)) xs ≡ take n xs
take-length zero xs = refl
take-length (suc n) [] = refl
take-length (suc n) (x ∷ xs) = ap (λ l. x ∷ l) (take-length n xs)

val_inj : (m n : ℕ) → val m ≡ val n → m ≡ n
val_inj m n e = cc

written-content :
    (p : FilePath) (bytes old : List ℕ) (s : Files) (n : ℕ)
    → (written p bytes (get s p) s).0 ≡ val n
    → get s p ≡ some old
    → get (written p bytes (get s p) s).1 p ≡ some (old ++ take n bytes)
written-content p bytes old s n e h =
    let f : written p bytes (get s p) s
        ≡ (val (length (take (limit old) bytes)), put p (some (old ++ take (limit old) bytes)) s) =
      rw h refl in
    let count : length (take (limit old) bytes) ≡ n =
      val_inj (length (take (limit old) bytes)) n (sym (ap (λ z. z.0) f) ∙ e) in
    ap (λ z. get z.1 p) f
    ∙ put-content p (old ++ take (limit old) bytes) old s h
    ∙ ap (λ l. some (old ++ l)) (sym (take-length (limit old) bytes) ∙ ap (λ k. take k bytes) count)

unlink_other : (p q : FilePath) (s : Files) → q ≢ p → get (put p none s) q ≡ get s q
unlink_other ota_dir q (a, b) h = refl
unlink_other staged ota_dir (a, b) h = refl
unlink_other staged staged (a, b) h = absurd (h refl)
unlink_other staged staged_tmp (a, b) h = refl
unlink_other staged_tmp ota_dir (a, b) h = refl
unlink_other staged_tmp staged (a, b) h = refl
unlink_other staged_tmp staged_tmp (a, b) h = absurd (h refl)

files-Lawful : Lawful FilePath Files files
files-Lawful = record {
  stat-content = λ p q s. refl;
  mkdir-content = λ p q s. refl;
  sync-content = λ p q s. refl;
  close-content = λ p q s. refl;
  open_read-content = λ p q s. refl;
  read-content = λ p q n s. refl;
  seek-content = λ p q n s. refl;
  create-content = create_file-content;
  write-content = written-content;
  unlink_apart = unlink_other;
  rename-content = rename_file-content;
}

abbrev empty : Stage × Files
empty = (record { st = cleared; writing = false; crc = 0 }, (none, none))

abbrev two_bytes : List ℕ
two_bytes = 20 ∷ 22 ∷ []

abbrev sent : Stage × Files
sent = (stage_write sum Files files (some two_bytes) empty).1

sent_lem : (stage_write sum Files files (some two_bytes) empty).0 ≡ val 0
unfolding stage_write ensure_ota_dir
sent_lem = refl

finish_lem : (finish sum Files files 42 sent).0 ≡ val 0
unfolding finish stage_write ensure_ota_dir
finish_lem = refl

two_bytes-Reach : Reach sum Files files empty sent
two_bytes-Reach = next empty sent start (wrote two_bytes sent_lem)

Reach-Consistent_example : Consistent sum Files files sent
Reach-Consistent_example =
    Reach-Consistent sum Files files empty sent files-Lawful (idle _ _ refl refl) two_bytes-Reach

finish_verifies_example :
    let r = (finish sum Files files 42 sent).1 in
    (r.0.st.staging_valid ≡ true)
    × ((image : List ℕ) × (get r.1 staged ≡ some image) × (total 0 image ≡ 42))
finish_verifies_example =
    finish_verifies sum Files files 42 empty sent files-Lawful (idle _ _ refl refl) two_bytes-Reach
      finish_lem

-- a download of which nothing is written
abbrev fresh : Stage × Files
fresh = (record { st = cleared; writing = true; crc = 0 }, (none, some []))

abbrev four_bytes : List ℕ
four_bytes = 1 ∷ 2 ∷ 3 ∷ 4 ∷ []

again_lem :
    (stage_write sum Files files
      (some four_bytes)
      (stage_write sum Files files (some four_bytes) fresh).1).0
    ≡ val 0
unfolding stage_write
again_lem = refl

stage_write_again_example :
    let m = (stage_write sum Files files (some four_bytes) fresh).1 in
    let m' = (stage_write sum Files files (some four_bytes) m).1 in
    (get m'.1 staged_tmp ≡ some (1 ∷ 2 ∷ 3 ∷ 1 ∷ 2 ∷ 3 ∷ 4 ∷ [])) × (m'.0.crc ≡ 10)
stage_write_again_example =
    stage_write_again sum Files files four_bytes [] fresh.0 fresh.1 3 files-Lawful refl refl
      (omega arith) refl again_lem
