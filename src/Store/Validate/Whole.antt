-- ===== src/Store/Validate/Whole.antt =====
-- eink_store.c: a file that `eink_store_validate_path` accepts is one that `eink_frame_validate`
-- accepts as a whole.
use mender_rt1180_zephyr.Prelude.{
  ℕ, zero, suc, ◌+◌, ◌≡◌, ◌≤◌, ◌<◌, refl, ap, ◌∙◌, sym, subst, arith, true, Bool-cases, inl, inr,
  List, [], ◌∷◌, ◌++◌, length, length-append, take, drop, take-append-drop, length-take, ltb, some,
  Ret, val, err, einval, efbig, Result, ok, fail, bind-eq-ok, dec_lt,
}
use mender_rt1180_zephyr.Crc.{Crc}
use mender_rt1180_zephyr.Fs.{Fs, Lawful, Readable}
use mender_rt1180_zephyr.Frame.{
  Header, StreamCtx, header_size, payload_size, stream_chunk_size, header_parse, stream_begin,
  stream_update, stream_finish, validate,
}
use mender_rt1180_zephyr.Frame.Streaming.{
  drop_payload, parse-append, parse-size, fed, fed-fed, update_fits, update_too_big, finish_agrees,
}
use mender_rt1180_zephyr.Store.Validate.{
  Context, updated, chunked, read_loop, fuel_for_payload, parsed, headed, sought, streamed,
  validate_path,
}

module _ (c : Crc) (FilePath S : Type 0) (fs : Fs FilePath S) (rd : Readable FilePath S fs)
    (path : FilePath) where
  fed-nil : (ctx : StreamCtx) → ctx ≡ fed c ctx []
  fed-nil ctx = ground (arith, c.update-nil ctx.crc)

  -- the loop has taken all the bytes, and they fit the payload
  abbrev Took : StreamCtx → List ℕ → StreamCtx → Type 0
  Took ctx bytes ctx' = (ctx' ≡ fed c ctx bytes) × (ctx.payload_seen + length bytes ≤ payload_size)

  updated-Took :
      (more : StreamCtx → S → Context c FilePath S fs) (ctx ctx' : StreamCtx) (b : ℕ)
      (bs rest : List ℕ) (s : S)
      → ctx.header_ok ≡ true
      → ctx.hdr.payload_len ≡ payload_size
      → ctx.payload_seen ≤ payload_size
      → length (b ∷ bs) ≤ stream_chunk_size
      → (ctx.payload_seen + length (b ∷ bs) ≤ payload_size
          → (more (fed c ctx (b ∷ bs)) s).0 ≡ ok ctx'
          → Took (fed c ctx (b ∷ bs)) rest ctx')
      → (updated c FilePath S fs more (stream_update c ctx (b ∷ bs)) s).0 ≡ ok ctx'
      → Took ctx ((b ∷ bs) ++ rest) ctx'
  updated-Took more ctx ctx' b bs rest s hok size seen small go eq =
      elim (dec_lt payload_size (ctx.payload_seen + length (b ∷ bs))) [
        | yes over ↦
            let bad : (updated c FilePath S fs more (stream_update c ctx (b ∷ bs)) s).0
                ≡ fail efbig =
              rw (update_too_big c ctx b bs hok size seen over small) refl in
            absurd (cc)
        | no fits ↦
            let same : updated c FilePath S fs more (stream_update c ctx (b ∷ bs)) s
                ≡ more (fed c ctx (b ∷ bs)) s =
              rw (update_fits c ctx b bs hok (omega arith) (omega arith)) refl in
            let (e, le) = go (omega arith) (sym (ap (λ z. z.0) same) ∙ eq) in
            (e ∙ fed-fed c ctx (b ∷ bs) rest, omega (arith, length-append (b ∷ bs) rest))
      ]

  chunked-Took :
      (more : StreamCtx → S → Context c FilePath S fs) (ctx ctx' : StreamCtx)
      (r : (Ret × List ℕ) × S) (left : List ℕ)
      → ctx.header_ok ≡ true
      → ctx.hdr.payload_len ≡ payload_size
      → ctx.payload_seen ≤ payload_size
      → ((k : ℕ) → r.0.0 ≡ val k → r.0.1 ≡ take stream_chunk_size left)
      → ((b : ℕ) (bs : List ℕ)
          → r.0.1 ≡ b ∷ bs
          → (k : ℕ) → r.0.0 ≡ val k
          → ctx.payload_seen + length (b ∷ bs) ≤ payload_size
          → (more (fed c ctx (b ∷ bs)) r.1).0 ≡ ok ctx'
          → Took (fed c ctx (b ∷ bs)) (drop stream_chunk_size left) ctx')
      → (chunked c FilePath S fs more ctx r).0 ≡ ok ctx'
      → Took ctx left ctx'
  chunked-Took more ctx ctx' ((err e, bytes), s) left hok size seen got go eq = absurd (cc)
  chunked-Took more ctx ctx' ((val n, []), s) left hok size seen got go eq =
      let none_left : left ≡ [] =
        take_nil stream_chunk_size left (sym (got n refl)) (omega arith) in
      let same : ctx ≡ ctx' = cc in rw none_left (sym same ∙ fed-nil ctx, omega arith)
    where
      take_nil : (n : ℕ) (xs : List ℕ) → take n xs ≡ [] → 1 ≤ n → xs ≡ []
      take_nil zero xs e h = absurd (omega arith)
      take_nil (suc n) [] e h = refl
      take_nil (suc n) (x ∷ xs) e h = absurd (cc)
  chunked-Took more ctx ctx' ((val n, b ∷ bs), s) left hok size seen got go eq =
      let whole : (b ∷ bs) ++ drop stream_chunk_size left ≡ left =
        ap (λ l. l ++ drop stream_chunk_size left) (got n refl)
        ∙ take-append-drop stream_chunk_size left in
      subst (λ l. Took ctx l ctx') whole
        (updated-Took more ctx ctx' b bs (drop stream_chunk_size left) s hok size seen
          (omega (arith, ap length (got n refl), length-take stream_chunk_size left))
          (go b bs refl n refl) eq)

  read_loop-Took :
      (fuel : ℕ) (ctx ctx' : StreamCtx) (s : S)
      → ctx.header_ok ≡ true
      → ctx.hdr.payload_len ≡ payload_size
      → ctx.payload_seen ≤ payload_size
      → payload_size < ctx.payload_seen + fuel
      → (read_loop c FilePath S fs fuel path ctx s).0 ≡ ok ctx'
      → Took ctx (rd.unread s path) ctx'
  unfolding read_loop
  read_loop-Took zero ctx ctx' s hok size seen enough eq = absurd (omega arith)
  read_loop-Took (suc fuel) ctx ctx' s hok size seen enough eq =
      let r = fs.read path stream_chunk_size s in
      chunked-Took (λ ctx'' s'. read_loop c FilePath S fs fuel path ctx'' s') ctx ctx' r
        (rd.unread s path) hok size seen (λ k e. (rd.read_bytes path stream_chunk_size k s e).1)
        (λ b bs e k done fits eq'.
          subst (λ l. Took (fed c ctx (b ∷ bs)) l ctx')
            (rd.read_bytes path stream_chunk_size k s done).2
            (read_loop-Took fuel (fed c ctx (b ∷ bs)) ctx' r.1 hok size fits (omega arith) eq'))
        eq

  -- The file as a whole is accepted, with the header `h`.
  abbrev pub Accepted : List ℕ → Header → Type 0
  Accepted bytes h = drop_payload (validate c (some bytes) true) ≡ ok h

  begun :
      (h0 : Header) (ctx : StreamCtx) (s : S)
      → h0.payload_len ≡ payload_size
      → (read_loop c FilePath S fs fuel_for_payload path (stream_begin h0) s).0 ≡ ok ctx
      → (ctx ≡ fed c (stream_begin h0) (rd.unread s path))
        × (length (rd.unread s path) ≤ payload_size)
  unfolding stream_begin
  begun h0 ctx s len took =
      let (e, le) =
        read_loop-Took fuel_for_payload (stream_begin h0) ctx s refl len (omega arith) (omega arith)
          took in
      (e, omega arith)

  parsed-Accepted :
      (hdr_raw : List ℕ) (p : Result Header) (s : S) (h : Header)
      → header_parse (some hdr_raw) true ≡ p
      → length hdr_raw ≡ header_size
      → (parsed c FilePath S fs path p s).0 ≡ ok h
      → Accepted (hdr_raw ++ rd.unread s path) h
  parsed-Accepted hdr_raw (fail e) s h p size eq = absurd (cc)
  parsed-Accepted hdr_raw (ok h0) s h p size eq =
      let (ctx, done, took) =
        bind-eq-ok (stream_finish c) h
          (read_loop c FilePath S fs fuel_for_payload path (stream_begin h0) s).0 eq in
      let len = parse-size hdr_raw p in
      let (e, le) = begun h0 ctx s len took in
      sym (
        finish_agrees c h0 hdr_raw (rd.unread s path) len size le
          (parse-append hdr_raw (rd.unread s path) size ∙ p))
      ∙ ap (stream_finish c) (sym e)
      ∙ done

  headed-Accepted :
      (r : (Ret × List ℕ) × S) (bytes : List ℕ) (h : Header)
      → ((k : ℕ)
          → r.0.0 ≡ val k
          → (r.0.1 ≡ take header_size bytes) × (rd.unread r.1 path ≡ drop header_size bytes))
      → (headed c FilePath S fs path r).0 ≡ ok h
      → Accepted bytes h
  headed-Accepted ((err e, b), s) bytes h got eq = absurd (cc)
  headed-Accepted ((val n, hdr_raw), s) bytes h got eq =
      elim (Bool-cases (ltb (length hdr_raw) header_size)) [
        | inl short ↦
            let bad : (headed c FilePath S fs path ((val n, hdr_raw), s)).0 ≡ fail einval =
              rw short refl in
            absurd (cc)
        | inr long ↦
            let same : headed c FilePath S fs path ((val n, hdr_raw), s)
                ≡ parsed c FilePath S fs path (header_parse (some hdr_raw) true) s =
              rw long refl in
            let (front, rest) = got n refl in
            let size : length hdr_raw ≡ header_size =
              let big : header_size ≤ length hdr_raw = ground arith in
              omega (arith, ap length front, length-take header_size bytes) in
            let whole : hdr_raw ++ rd.unread s path ≡ bytes =
              rw (front, rest) (take-append-drop header_size bytes) in
            subst (λ l. Accepted l h) whole
              (parsed-Accepted hdr_raw (header_parse (some hdr_raw) true) s h refl size
                (sym (ap (λ z. z.0) same) ∙ eq))
      ]

  sought-Accepted :
      (r : Ret × S) (bytes : List ℕ) (h : Header)
      → ((k : ℕ) → r.0 ≡ val k → rd.unread r.1 path ≡ bytes)
      → (sought c FilePath S fs path r).0 ≡ ok h
      → Accepted bytes h
  sought-Accepted (err e, s) bytes h got eq = absurd (cc)
  sought-Accepted (val n, s) bytes h got eq =
      headed-Accepted (fs.read path header_size s) bytes h
        (λ k e.
          let (size, front, rest) = rd.read_bytes path header_size k s e in
          (front ∙ ap (take header_size) (got n refl), rest ∙ ap (drop header_size) (got n refl)))
        eq

  streamed-Accepted :
      (r : Ret × S) (bytes : List ℕ) (h : Header)
      → fs.content r.1 path ≡ some bytes
      → (streamed c FilePath S fs path r).0 ≡ ok h
      → Accepted bytes h
  streamed-Accepted (err e, s) bytes h held eq = absurd (cc)
  streamed-Accepted (val n, s) bytes h held eq =
      sought-Accepted (fs.seek path 0 s) bytes h (λ k e. rd.unread-seek path 0 k s bytes e held) eq

  -- On a lawful and readable file system: a file that is accepted through the stream is one that the
  -- whole-buffer validation accepts, with the same header.
  pub validate_path-Accepted :
      (s : S) (bytes : List ℕ) (h : Header)
      → Lawful FilePath S fs
      → fs.content s path ≡ some bytes
      → (validate_path c FilePath S fs path s).0 ≡ ok h
      → Accepted bytes h
  unfolding validate_path
  validate_path-Accepted s bytes h law held eq =
      streamed-Accepted (fs.open_read path s) bytes h (law.open_read-content path path s ∙ held) eq
