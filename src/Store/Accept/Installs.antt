-- ===== src/Store/Accept/Installs.antt =====
-- eink_store.c: what `eink_store_accept_temp_image` installs is the downloaded file, validated.
use mender_rt1180_zephyr.Prelude.{
  ℕ, ◌≡◌, ◌≢◌, refl, ap, ◌∙◌, sym, subst, arith, true, Bool-cases, inl, inr, ◌⊎◌, ◌&&◌, ◌==◌, ltb,
  List, [], ◌∷◌, length, take, some, Ret, val, err, einval, Result, ok, fail,
}
use mender_rt1180_zephyr.Crc.{Crc}
use mender_rt1180_zephyr.Fs.{Fs, Lawful, Readable}
use mender_rt1180_zephyr.Frame.{Header}
use mender_rt1180_zephyr.Lz4.{is_frame}
use mender_rt1180_zephyr.Store.Reader.{Text, read_file, read_file-content, read_file_keeps}
use mender_rt1180_zephyr.Store.Validate.{validate_path}
use mender_rt1180_zephyr.Store.Validate.Whole.{Accepted, validate_path-Accepted}
use mender_rt1180_zephyr.Store.Validate.Keeps.{validate_path_keeps}
use mender_rt1180_zephyr.Store.Images.{Config, image_path, image_lz4_path, bad_lz4_size}
use mender_rt1180_zephyr.Store.Accept.{
  unlinked, unlink_if_exists, moved, install, accepted_lz4, accepted_es6f, sniffed,
  accept_temp_image,
}

module _ (S : Type 0) (fs : Fs Text S) (law : Lawful Text S fs) (rd : Readable Text S fs)
    (cfg : Config) (c : Crc) (root id temp : Text) (apart : temp ≢ image_path root id)
    (apart_lz4 : temp ≢ image_lz4_path root id) (bytes : List ℕ) where
  unlinked_keeps :
      (path : Text) (r : Ret × S)
      → temp ≢ path
      → fs.content (unlinked S fs path r) temp ≡ fs.content r.1 temp
  unlinked_keeps path (err e, s) h = refl
  unlinked_keeps path (val n, s) h = elim (Bool-cases (n == 0)) [
    | inl there ↦ rw there (law.unlink_apart path temp s h)
    | inr other ↦ rw other refl
  ]

  unlink_if_exists_keeps :
      (path : Text) (s : S)
      → temp ≢ path
      → fs.content (unlink_if_exists S fs path s) temp ≡ fs.content s temp
  unfolding unlink_if_exists
  unlink_if_exists_keeps [] s h = refl
  unlink_if_exists_keeps (x ∷ path) s h =
      unlinked_keeps (x ∷ path) (fs.stat (x ∷ path) s) h ∙ law.stat-content (x ∷ path) temp s

  moved-eq-val :
      (r : Ret × S) (n : ℕ)
      → (moved S fs r).0 ≡ val n
      → (k : ℕ) × (r.0 ≡ val k) × ((moved S fs r).1 ≡ r.1)
  moved-eq-val (err e, s) n h = absurd (cc)
  moved-eq-val (val k, s) n h = (k, refl, refl)

  install-content :
      (target : Text) (s : S) (n : ℕ)
      → fs.content s temp ≡ some bytes
      → (install S fs cfg c root id temp target s).0 ≡ val n
      → fs.content (install S fs cfg c root id temp target s).1 target ≡ some bytes
  install-content target s n held eq =
      let s1 = unlink_if_exists S fs (image_path root id) s in
      let s2 = unlink_if_exists S fs (image_lz4_path root id) s1 in
      let (k, done, same) = moved-eq-val (fs.rename temp target s2) n eq in
      ap (λ z. fs.content z target) same
      ∙ law.rename-content temp target s2 k done
      ∙ unlink_if_exists_keeps (image_lz4_path root id) s1 apart_lz4
      ∙ unlink_if_exists_keeps (image_path root id) s apart
      ∙ held

  -- the image in one of its two forms
  abbrev pub Installed : S → Type 0
  Installed s =
      ((h : Header) × Accepted c Text S fs rd temp bytes h
        × (fs.content s (image_path root id) ≡ some bytes))
      ⊎ ((cfg.lz4 ≡ true)
          × (is_frame (take 8 bytes) ≡ true)
          × (fs.content s (image_lz4_path root id) ≡ some bytes))

  accepted_lz4-content :
      (r : Ret × S) (n : ℕ)
      → fs.content r.1 temp ≡ some bytes
      → (accepted_lz4 S fs cfg c root id temp r).0 ≡ val n
      → fs.content (accepted_lz4 S fs cfg c root id temp r).1 (image_lz4_path root id) ≡ some bytes
  accepted_lz4-content (err e, s) n held eq = absurd (cc)
  accepted_lz4-content (val k, s) n held eq = elim (Bool-cases (bad_lz4_size (fs.size temp s))) [
    | inl bad ↦
        let refused : (accepted_lz4 S fs cfg c root id temp (val k, s)).0 ≡ err einval =
          rw bad refl in
        absurd (cc)
    | inr good ↦
        let same : accepted_lz4 S fs cfg c root id temp (val k, s)
            ≡ install S fs cfg c root id temp (image_lz4_path root id) s =
          rw good refl in
        ap (λ z. fs.content z.1 (image_lz4_path root id)) same
        ∙ install-content (image_lz4_path root id) s n held (sym (ap (λ z. z.0) same) ∙ eq)
  ]

  accepted_es6f-content :
      (r : Result Header × S) (n : ℕ)
      → fs.content r.1 temp ≡ some bytes
      → (accepted_es6f S fs cfg c root id temp r).0 ≡ val n
      → (h : Header) × (r.0 ≡ ok h)
        × (fs.content (accepted_es6f S fs cfg c root id temp r).1 (image_path root id) ≡ some bytes)
  accepted_es6f-content (fail e, s) n held eq = absurd (cc)
  accepted_es6f-content (ok h, s) n held eq =
      (h, refl, install-content (image_path root id) s n held eq)

  es6f-Installed :
      (s : S) (n : ℕ)
      → fs.content s temp ≡ some bytes
      → (accepted_es6f S fs cfg c root id temp (validate_path c Text S fs temp s)).0 ≡ val n
      → Installed (accepted_es6f S fs cfg c root id temp (validate_path c Text S fs temp s)).1
  es6f-Installed s n held eq =
      let (h, good, there) =
        accepted_es6f-content (validate_path c Text S fs temp s) n
          (validate_path_keeps c Text S fs law temp temp s ∙ held) eq in
      inl (h, validate_path-Accepted c Text S fs rd temp s bytes h law held good, there)

  sniffed-Installed :
      (r : Result Text × S) (n : ℕ)
      → fs.content r.1 temp ≡ some bytes
      → ((head : Text) → r.0 ≡ ok head → head ≡ take 8 bytes)
      → (sniffed S fs cfg c root id temp r).0 ≡ val n
      → Installed (sniffed S fs cfg c root id temp r).1
  sniffed-Installed (fail e, s) n held front eq = absurd (cc)
  sniffed-Installed (ok head, s) n held front eq = elim (Bool-cases (ltb (length head) 4)) [
    | inl short ↦
        let bad : (sniffed S fs cfg c root id temp (ok head, s)).0 ≡ err einval = rw short refl in
        absurd (cc)
    | inr long ↦ elim (Bool-cases (cfg.lz4 && is_frame head)) [
      | inl framed ↦ elim (Bool-cases cfg.expand_on_display) [
        | inl on ↦
            let same : sniffed S fs cfg c root id temp (ok head, s)
                ≡ accepted_lz4 S fs cfg c root id temp (fs.stat temp s) =
              rw (long, framed, on) refl in
            inr (
              ground arith,
              ap is_frame (sym (front head refl)) ∙ ground arith,
              ap (λ z. fs.content z.1 (image_lz4_path root id)) same
                  ∙ accepted_lz4-content (fs.stat temp s) n (law.stat-content temp temp s ∙ held)
                      (sym (ap (λ z. z.0) same) ∙ eq),
            )
        | inr off ↦
            let bad : (sniffed S fs cfg c root id temp (ok head, s)).0 ≡ err einval =
              rw (long, framed, off) refl in
            absurd (cc)
      ]
      | inr plain ↦
          let same : sniffed S fs cfg c root id temp (ok head, s)
              ≡ accepted_es6f S fs cfg c root id temp (validate_path c Text S fs temp s) =
            rw (long, plain) refl in
          subst (λ z. Installed z.1) (sym same)
            (es6f-Installed s n held (sym (ap (λ z. z.0) same) ∙ eq))
    ]
  ]

  -- On a lawful and readable file system, with the downloaded file apart from the image's two paths:
  -- where the download is accepted, its bytes are installed, as an image that the whole-buffer
  -- validation accepts, or as an LZ4 frame where these are enabled.
  pub accept_temp_image-Installed :
      (s : S) (n : ℕ)
      → fs.content s temp ≡ some bytes
      → (accept_temp_image S fs cfg c root id temp s).0 ≡ val n
      → Installed (accept_temp_image S fs cfg c root id temp s).1
  unfolding accept_temp_image
  accept_temp_image-Installed s n held eq =
      sniffed-Installed (read_file Text S fs temp 8 s) n
        (read_file_keeps Text S fs temp temp 8 s law ∙ held)
        (λ head e. read_file-content Text S fs temp 8 s bytes head rd held e) eq
