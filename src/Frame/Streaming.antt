-- ===== src/Frame/Streaming.antt =====
-- eink_frame.c: validation through the read callback agrees with validation of the whole buffer,
-- however the callback cuts the file into pieces.
use mender_rt1180_zephyr.Prelude.{
  ℕ, ◌+◌, ◌≤◌, ◌<◌, ◌^◌, ◌≡◌, refl, ap, sym, ◌∙◌, true, List, [], ◌∷◌, ◌++◌, map, some, none, arith,
  length, flatten, get_or-append_left, take_all, drop-append_exact, dec_lt, length-append, efbig,
  ◌≢◌,
}
use mender_rt1180_zephyr.Crc.{Crc}
use mender_rt1180_zephyr.Bytes.{le16-append, le32-append}
use mender_rt1180_zephyr.Frame.{
  Header, Result, ok, fail, View, StreamCtx, decode, header_parse, validate, payload_size,
  header_size, stream_chunk_size, stream_begin, stream_update, stream_finish,
}
use mender_rt1180_zephyr.Frame.Build.{check_header_sound, parse_checks}
use mender_rt1180_zephyr.Frame.Stream.{Read, got, stream_loop, stream_body, validate_stream}

-- The answers of a callback that hands out these pieces.
abbrev pub answers : List (List ℕ) → List Read
answers = map got

-- No piece is empty: an empty one would be taken for the end of the file.
abbrev pub NonEmpty : List (List ℕ) → Type 0
NonEmpty [] = Unit {0}
NonEmpty (xs ∷ xss) = (xs ≢ []) × NonEmpty xss

-- No piece is larger than the buffer of the loop.
abbrev pub Bounded : List (List ℕ) → Type 0
Bounded [] = Unit {0}
Bounded (xs ∷ xss) = (length xs ≤ stream_chunk_size) × Bounded xss

abbrev pub drop_payload : Result View → Result Header
drop_payload (ok v) = ok v.view_hdr
drop_payload (fail e) = fail e

-- Only the first 32 bytes of a buffer matter to the header.
decode-append :
    (hdr_raw rest : List ℕ)
    → length hdr_raw ≡ header_size
    → decode (hdr_raw ++ rest) ≡ decode hdr_raw
unfolding decode
decode-append hdr_raw rest h = rw (
  le32-append hdr_raw rest 0 (omega arith),
  le16-append hdr_raw rest 4 (omega arith),
  le16-append hdr_raw rest 6 (omega arith),
  le16-append hdr_raw rest 8 (omega arith),
  get_or-append_left hdr_raw rest 10 0 (omega arith),
  get_or-append_left hdr_raw rest 11 0 (omega arith),
  le16-append hdr_raw rest 12 (omega arith),
  le32-append hdr_raw rest 14 (omega arith),
  le32-append hdr_raw rest 18 (omega arith),
)

pub parse-append :
    (hdr_raw rest : List ℕ)
    → length hdr_raw ≡ header_size
    → header_parse (some (hdr_raw ++ rest)) true ≡ header_parse (some hdr_raw) true
unfolding header_parse
parse-append hdr_raw rest h =
    rw (decode-append hdr_raw rest h) (ground (arith, length-append hdr_raw rest))

pub parse-size :
    (hdr_raw : List ℕ) {h : Header}
    → header_parse (some hdr_raw) true ≡ ok h
    → h.payload_len ≡ payload_size
parse-size hdr_raw p =
    let checked = check_header_sound (decode hdr_raw) (parse_checks hdr_raw p) in
    ap (λ k. k.payload_len) checked.0 ∙ checked.6

module _ (c : Crc) where
  abbrev pub fed : StreamCtx → List ℕ → StreamCtx
  fed ctx bytes = record ctx {
    crc = c.update ctx.crc bytes;
    payload_seen = ctx.payload_seen + length bytes;
  }

  pub update_fits :
      (ctx : StreamCtx) (b : ℕ) (bs : List ℕ)
      → ctx.header_ok ≡ true
      → ctx.hdr.payload_len < 2 ^ 32
      → ctx.payload_seen + length (b ∷ bs) ≤ ctx.hdr.payload_len
      → stream_update c ctx (b ∷ bs) ≡ ok (fed ctx (b ∷ bs))
  unfolding stream_update
  update_fits ctx b bs hok small fits = ground arith

  pub update_too_big :
      (ctx : StreamCtx) (b : ℕ) (bs : List ℕ)
      → ctx.header_ok ≡ true
      → ctx.hdr.payload_len ≡ payload_size
      → ctx.payload_seen ≤ payload_size
      → payload_size < ctx.payload_seen + length (b ∷ bs)
      → length (b ∷ bs) ≤ stream_chunk_size
      → stream_update c ctx (b ∷ bs) ≡ fail efbig
  unfolding stream_update
  update_too_big ctx b bs hok size seen over small = ground arith

  pub fed-fed : (ctx : StreamCtx) (xs ys : List ℕ) → fed (fed ctx xs) ys ≡ fed ctx (xs ++ ys)
  fed-fed ctx xs ys = ground (arith, c.update-update ctx.crc xs ys, length-append xs ys)

  loop_fits :
      (ctx : StreamCtx) (chunks : List (List ℕ))
      → NonEmpty chunks
      → ctx.header_ok ≡ true
      → ctx.hdr.payload_len < 2 ^ 32
      → ctx.payload_seen + length (flatten chunks) ≤ ctx.hdr.payload_len
      → stream_loop c ctx (answers chunks) ≡ ok (fed ctx (flatten chunks))
  unfolding stream_loop
  loop_fits ctx [] ne hok small fits = ground (arith, c.update-nil ctx.crc)
  loop_fits ctx ([] ∷ chunks) ne hok small fits = absurd (ne.0 refl)
  loop_fits ctx ((b ∷ bs) ∷ chunks) ne hok small fits =
      rw (update_fits ctx b bs hok small (omega (arith, length-append (b ∷ bs) (flatten chunks)))) (
        loop_fits (fed ctx (b ∷ bs)) chunks ne.1 hok small
          (omega (arith, length-append (b ∷ bs) (flatten chunks)))
        ∙ ap ok (fed-fed ctx (b ∷ bs) (flatten chunks)))

  begin_fits :
      (h : Header) (chunks : List (List ℕ))
      → h.payload_len ≡ payload_size
      → NonEmpty chunks
      → length (flatten chunks) ≤ payload_size
      → stream_loop c (stream_begin h) (answers chunks) ≡ ok (fed (stream_begin h) (flatten chunks))
  unfolding stream_begin
  begin_fits h chunks size ne fits =
      loop_fits (stream_begin h) chunks ne refl (omega arith) (omega arith)

  -- The two functions end in the same tests.
  pub finish_agrees :
      (h : Header) (hdr_raw bytes : List ℕ)
      → h.payload_len ≡ payload_size
      → length hdr_raw ≡ header_size
      → length bytes ≤ payload_size
      → header_parse (some (hdr_raw ++ bytes)) true ≡ ok h
      → stream_finish c (fed (stream_begin h) bytes)
        ≡ drop_payload (validate c (some (hdr_raw ++ bytes)) true)
  unfolding stream_finish stream_begin validate
  finish_agrees h hdr_raw bytes size lh fits p =
      rw (p, drop-append_exact header_size hdr_raw bytes lh)
        (ground
          (arith, length-append hdr_raw bytes, take_all h.payload_len bytes, c.ieee_lem bytes))

  body_fits :
      (hdr_raw : List ℕ) (chunks : List (List ℕ)) (r : Result Header)
      → header_parse (some hdr_raw) true ≡ r
      → length hdr_raw ≡ header_size
      → NonEmpty chunks
      → length (flatten chunks) ≤ payload_size
      → stream_body c hdr_raw (answers chunks)
        ≡ drop_payload (validate c (some (hdr_raw ++ flatten chunks)) true)
  unfolding stream_body
  body_fits hdr_raw chunks (fail e) p lh ne fits = rw p (sym (rejected ∙ refl))
    where
      rejected : drop_payload (validate c (some (hdr_raw ++ flatten chunks)) true) ≡ fail e
      rejected = unfold validate in rw (parse-append hdr_raw (flatten chunks) lh, p)
  body_fits hdr_raw chunks (ok h) p lh ne fits =
      let size : h.payload_len ≡ payload_size = parse-size hdr_raw p in
      rw (p, begin_fits h chunks size ne fits)
        (finish_agrees h hdr_raw (flatten chunks) size lh fits
          (parse-append hdr_raw (flatten chunks) lh ∙ p))

  -- The callback first hands out the 32 bytes of the header, then the rest of the file in pieces of
  -- any sizes, none empty, of at most `payload_size` bytes together, and the seek callback is
  -- absent: the streaming validation returns what `validate` returns for the whole file, with the
  -- header alone as its result.
  pub validate_stream-eq-validate :
      (hdr_raw : List ℕ) (chunks : List (List ℕ))
      → length hdr_raw ≡ header_size
      → NonEmpty chunks
      → length (flatten chunks) ≤ payload_size
      → validate_stream c (some (got hdr_raw ∷ answers chunks)) none
        ≡ drop_payload (validate c (some (hdr_raw ++ flatten chunks)) true)
  unfolding validate_stream
  validate_stream-eq-validate hdr_raw chunks lh ne fits =
      ground (arith, body_fits hdr_raw chunks (header_parse (some hdr_raw) true) refl lh ne fits)

  -- The first piece that goes past the announced size ends the loop.
  loop_too_big :
      (ctx : StreamCtx) (chunks : List (List ℕ))
      → NonEmpty chunks
      → Bounded chunks
      → ctx.header_ok ≡ true
      → ctx.hdr.payload_len ≡ payload_size
      → ctx.payload_seen ≤ payload_size
      → payload_size < ctx.payload_seen + length (flatten chunks)
      → stream_loop c ctx (answers chunks) ≡ fail efbig
  unfolding stream_loop
  loop_too_big ctx [] ne small hok size seen big = absurd (omega arith)
  loop_too_big ctx ([] ∷ chunks) ne small hok size seen big = absurd (ne.0 refl)
  loop_too_big ctx ((b ∷ bs) ∷ chunks) ne small hok size seen big =
      elim (dec_lt payload_size (ctx.payload_seen + length (b ∷ bs))) [
        | yes over ↦ rw (update_too_big ctx b bs hok size seen over small.0)
        | no more ↦ rw (update_fits ctx b bs hok (omega arith) (omega arith)) (
            loop_too_big (fed ctx (b ∷ bs)) chunks ne.1 small.1 hok size (omega arith)
              (omega (arith, length-append (b ∷ bs) (flatten chunks))))
      ]

  -- With the same callback, pieces of at most `stream_chunk_size` bytes and a header that parses: a
  -- file longer than the format allows is refused with -EFBIG.
  pub validate_stream_too_big :
      (hdr_raw : List ℕ) (chunks : List (List ℕ)) {h : Header}
      → length hdr_raw ≡ header_size
      → header_parse (some hdr_raw) true ≡ ok h
      → NonEmpty chunks
      → Bounded chunks
      → payload_size < length (flatten chunks)
      → validate_stream c (some (got hdr_raw ∷ answers chunks)) none ≡ fail efbig
  unfolding validate_stream stream_body
  validate_stream_too_big hdr_raw chunks {h} lh p ne small big =
      let loop : stream_loop c (stream_begin h) (answers chunks) ≡ fail efbig =
        unfold stream_begin in
        loop_too_big (stream_begin h) chunks ne small refl (parse-size hdr_raw p) (omega arith)
          (omega arith) in
      let body : stream_body c hdr_raw (answers chunks) ≡ fail efbig = rw (p, loop) in
      ground (arith, body)
