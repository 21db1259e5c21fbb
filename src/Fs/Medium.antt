-- ===== src/Fs/Medium.antt =====
-- A file system that keeps a file by its path, with what a power failure leaves of it: a file is
-- durable once it is synchronised, and a rename is durable at once.
use mender_rt1180_zephyr.Prelude.{
  ℕ, ◌≡◌, ◌≢◌, refl, ap, sym, ◌∙◌, arith, Bool, true, false, Bool-cases, inl, inr, ◌&&◌, ◌==◌,
  if◌then◌else◌, List, [], ◌∷◌, ◌++◌, length, take, drop, Option, none, some, Ret, val, err, enoent,
}
use mender_rt1180_zephyr.Fs.{Fs, Lawful, Apart, Durable, Readable}

abbrev pub equal : List ℕ → List ℕ → Bool
equal [] [] = true
equal [] (d ∷ q) = false
equal (c ∷ p) [] = false
equal (c ∷ p) (d ∷ q) = (c == d) && equal p q

equal_refl : (p : List ℕ) → equal p p ≡ true
equal_refl [] = refl
equal_refl (c ∷ p) = ground (arith, equal_refl p)

equal-eq : (p q : List ℕ) → equal p q ≡ true → p ≡ q
equal-eq [] [] h = refl
equal-eq [] (d ∷ q) h = absurd (cc)
equal-eq (c ∷ p) [] h = absurd (cc)
equal-eq (c ∷ p) (d ∷ q) h =
    let tails : equal p q ≡ true = ground arith in
    let heads : c ≡ d = ground arith in rw (heads, equal-eq p q tails) refl

equal_ne : (p q : List ℕ) → q ≢ p → equal q p ≡ false
equal_ne p q h = elim (Bool-cases (equal q p)) [
  | inl same ↦ absurd (h (equal-eq q p same))
  | inr other ↦ other
]

abbrev pub Held : Type 0
Held = List ℕ → Option (List ℕ)

abbrev pub set_at {ℓ} : {A : Type ℓ} → List ℕ → A → (List ℕ → A) → List ℕ → A
set_at p x held q = if equal q p then x else held q

set_at_self {ℓ} : {A : Type ℓ} (p : List ℕ) (x : A) (held : List ℕ → A) → set_at p x held p ≡ x
set_at_self p x held = rw (equal_refl p) refl

set_at_ne {ℓ} :
    {A : Type ℓ} (p q : List ℕ) (x : A) (held : List ℕ → A) → q ≢ p → set_at p x held q ≡ held q
set_at_ne p q x held h = rw (equal_ne p q h) refl

pub record Flash : Type 0 where
  pub now : Held
  pub kept : Held
  pub left : List ℕ → List ℕ

abbrev pub or_empty : Option (List ℕ) → List ℕ
or_empty none = []
or_empty (some bytes) = bytes

abbrev pub there : Option (List ℕ) → Ret
there none = err enoent
there (some bytes) = val 0

-- a write to a file that is not there fails
abbrev written : List ℕ → List ℕ → Option (List ℕ) → Flash → Ret × Flash
written p bytes none s = (err enoent, s)
written p bytes (some old) s =
    (val (length bytes), record s { now = set_at p (some (old ++ bytes)) s.now })

abbrev pub flash : Fs (List ℕ) Flash
flash = record {
  stat = λ p s. (there (s.now p), s);
  is_dir = λ p s. false;
  size = λ p s. length (or_empty (s.now p));
  mkdir = λ p s. (val 0, s);
  open_write = λ p s. (val 0, record s { now = set_at p (some (or_empty (s.now p))) s.now });
  write_over = λ p bytes s. (
    val (length bytes),
    record s { now = set_at p (some (bytes ++ drop (length bytes) (or_empty (s.now p)))) s.now },
  );
  create = λ p s. (val 0, record s { now = set_at p (some []) s.now });
  open_read = λ p s. (there (s.now p), record s { left = set_at p (or_empty (s.now p)) s.left });
  read = λ p n s. (
    (val (length (take n (s.left p))), take n (s.left p)),
    record s { left = set_at p (drop n (s.left p)) s.left },
  );
  seek = λ p n s. (val 0, record s { left = set_at p (drop n (or_empty (s.now p))) s.left });
  write = λ p bytes s. written p bytes (s.now p) s;
  sync = λ p s. (val 0, record s { kept = set_at p (s.now p) s.kept });
  close = λ p s. (val 0, s);
  unlink = λ p s. (val 0, record s { now = set_at p none s.now; kept = set_at p none s.kept });
  rename = λ p q s.
      (val 0, record s { now = set_at q (s.now p) s.now; kept = set_at q (s.kept p) s.kept });
  content = λ s. s.now;
}

take-length : (xs : List ℕ) → take (length xs) xs ≡ xs
take-length [] = refl
take-length (x ∷ xs) = ap (λ l. x ∷ l) (take-length xs)

written-now :
    (p : List ℕ) (bytes old : List ℕ) (o : Option (List ℕ)) (s : Flash) (n : ℕ)
    → (written p bytes o s).0 ≡ val n
    → o ≡ some old
    → (written p bytes o s).1.now p ≡ some (old ++ take n bytes)
written-now p bytes old none s n e h = absurd (cc)
written-now p bytes old (some kept) s n e h =
    let count : length bytes ≡ n = cc in
    let same : kept ≡ old = cc in
    set_at_self p (some (kept ++ bytes)) s.now
    ∙ ap (λ l. some (l ++ bytes)) same
    ∙ ap (λ l. some (old ++ l)) (sym (take-length bytes) ∙ ap (λ k. take k bytes) count)

written-kept :
    (p q : List ℕ) (bytes : List ℕ) (o : Option (List ℕ)) (s : Flash)
    → (written p bytes o s).1.kept q ≡ s.kept q
written-kept p q bytes none s = refl
written-kept p q bytes (some old) s = refl

pub flash-Lawful : Lawful (List ℕ) Flash flash
flash-Lawful = record {
  stat-content = λ p q s. refl;
  mkdir-content = λ p q s. refl;
  sync-content = λ p q s. refl;
  close-content = λ p q s. refl;
  open_read-content = λ p q s. refl;
  read-content = λ p q n s. refl;
  seek-content = λ p q n s. refl;
  create-content = λ p s n e. set_at_self p (some []) s.now;
  write-content = λ p bytes old s n e h. written-now p bytes old (s.now p) s n e h;
  unlink_apart = λ p q s h. set_at_ne p q none s.now h;
  rename-content = λ p q s n e. set_at_self q (s.now p) s.now;
}

written_apart :
    (p q : List ℕ) (bytes : List ℕ) (o : Option (List ℕ)) (s : Flash)
    → q ≢ p
    → (written p bytes o s).1.now q ≡ s.now q
written_apart p q bytes none s h = refl
written_apart p q bytes (some old) s h = set_at_ne p q (some (old ++ bytes)) s.now h

pub flash-Apart : Apart (List ℕ) Flash flash
flash-Apart = record {
  create_apart = λ p q s h. set_at_ne p q (some []) s.now h;
  write_apart = λ p q bytes s h. written_apart p q bytes (s.now p) s h;
  rename_apart = λ p q s e h. absurd (cc);
}

pub flash-Durable : Durable (List ℕ) Flash flash
flash-Durable = record {
  durable = λ s. s.kept;
  create_durable = λ p q s h. refl;
  write_durable = λ p q bytes s h. written-kept p q bytes (s.now p) s;
  unlink_durable = λ p q s h. set_at_ne p q none s.kept h;
  sync_durable = λ p q s h. set_at_ne p q (s.now p) s.kept h;
  close_durable = λ p q s h. refl;
  durable-sync = λ p s n e. set_at_self p (s.now p) s.kept;
  durable-close = λ p s h. refl;
  durable-rename = λ p q s n e. set_at_self q (s.kept p) s.kept;
  rename_failed = λ p q s e h. absurd (cc);
}

pub durable_lem : (s : Flash) (p : List ℕ) → flash-Durable.durable s p ≡ s.kept p
unfolding flash-Durable
durable_lem s p = refl

or_empty-eq : (o : Option (List ℕ)) (bytes : List ℕ) → o ≡ some bytes → or_empty o ≡ bytes
or_empty-eq o bytes h = ap or_empty h

pub flash-Readable : Readable (List ℕ) Flash flash
flash-Readable = record {
  unread = λ s. s.left;
  unread-open_read =
      λ p s n bytes e h. set_at_self p (or_empty (s.now p)) s.left ∙ or_empty-eq (s.now p) bytes h;
  unread-seek = λ p n k s bytes e h.
      set_at_self p (drop n (or_empty (s.now p))) s.left
      ∙ ap (drop n) (or_empty-eq (s.now p) bytes h);
  read_bytes = λ p n k s e. (cc, refl, set_at_self p (drop n (s.left p)) s.left);
}

abbrev pub blank : Flash
blank = record { now = λ p. none; kept = λ p. none; left = λ p. [] }
