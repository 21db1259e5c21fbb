-- ===== src/Store/Validate/Keeps.antt =====
-- eink_store.c: `eink_store_validate_path` changes no file.
use mender_rt1180_zephyr.Prelude.{
  ℕ, zero, suc, ◌≡◌, refl, ◌∙◌, Bool-cases, inl, inr, List, [], ◌∷◌, length, ltb, some, true, Ret,
  val, err, Result, ok, fail,
}
use mender_rt1180_zephyr.Crc.{Crc}
use mender_rt1180_zephyr.Fs.{Fs, Lawful}
use mender_rt1180_zephyr.Frame.{
  Header, StreamCtx, header_size, stream_chunk_size, header_parse, stream_begin, stream_update,
}
use mender_rt1180_zephyr.Store.Validate.{
  Context, updated, chunked, read_loop, fuel_for_payload, parsed, headed, sought, streamed,
  validate_path,
}

module _ (c : Crc) (FilePath S : Type 0) (fs : Fs FilePath S) (law : Lawful FilePath S fs)
    (path q : FilePath) where
  updated_keeps :
      (more : StreamCtx → S → Context c FilePath S fs) (r : Result StreamCtx) (s : S)
      → ((ctx : StreamCtx) (s' : S) → fs.content (more ctx s').1 q ≡ fs.content s' q)
      → fs.content (updated c FilePath S fs more r s).1 q ≡ fs.content s q
  updated_keeps more (fail e) s h = refl
  updated_keeps more (ok ctx) s h = h ctx s

  chunked_keeps :
      (more : StreamCtx → S → Context c FilePath S fs) (ctx : StreamCtx) (r : (Ret × List ℕ) × S)
      → ((ctx' : StreamCtx) (s' : S) → fs.content (more ctx' s').1 q ≡ fs.content s' q)
      → fs.content (chunked c FilePath S fs more ctx r).1 q ≡ fs.content r.1 q
  chunked_keeps more ctx ((err e, bytes), s) h = refl
  chunked_keeps more ctx ((val n, []), s) h = refl
  chunked_keeps more ctx ((val n, b ∷ bs), s) h =
      updated_keeps more (stream_update c ctx (b ∷ bs)) s h

  read_loop_keeps :
      (fuel : ℕ) (ctx : StreamCtx) (s : S)
      → fs.content (read_loop c FilePath S fs fuel path ctx s).1 q ≡ fs.content s q
  unfolding read_loop
  read_loop_keeps zero ctx s = refl
  read_loop_keeps (suc fuel) ctx s =
      chunked_keeps (λ ctx' s'. read_loop c FilePath S fs fuel path ctx' s') ctx
        (fs.read path stream_chunk_size s) (λ ctx' s'. read_loop_keeps fuel ctx' s')
      ∙ law.read-content path q stream_chunk_size s

  parsed_keeps :
      (r : Result Header) (s : S)
      → fs.content (parsed c FilePath S fs path r s).1 q ≡ fs.content s q
  parsed_keeps (fail e) s = refl
  parsed_keeps (ok h) s = read_loop_keeps fuel_for_payload (stream_begin h) s

  headed_keeps :
      (r : (Ret × List ℕ) × S) → fs.content (headed c FilePath S fs path r).1 q ≡ fs.content r.1 q
  headed_keeps ((err e, bytes), s) = refl
  headed_keeps ((val n, hdr_raw), s) = elim (Bool-cases (ltb (length hdr_raw) header_size)) [
    | inl short ↦ rw short refl
    | inr long ↦ rw long (parsed_keeps (header_parse (some hdr_raw) true) s)
  ]

  sought_keeps : (r : Ret × S) → fs.content (sought c FilePath S fs path r).1 q ≡ fs.content r.1 q
  sought_keeps (err e, s) = refl
  sought_keeps (val n, s) =
      headed_keeps (fs.read path header_size s) ∙ law.read-content path q header_size s

  streamed_keeps :
      (r : Ret × S) → fs.content (streamed c FilePath S fs path r).1 q ≡ fs.content r.1 q
  streamed_keeps (err e, s) = refl
  streamed_keeps (val n, s) =
      law.close-content path q (sought c FilePath S fs path (fs.seek path 0 s)).1
      ∙ sought_keeps (fs.seek path 0 s)
      ∙ law.seek-content path q 0 s

  pub validate_path_keeps :
      (s : S) → fs.content (validate_path c FilePath S fs path s).1 q ≡ fs.content s q
  unfolding validate_path
  validate_path_keeps s = streamed_keeps (fs.open_read path s) ∙ law.open_read-content path q s
