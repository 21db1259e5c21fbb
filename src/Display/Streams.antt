-- ===== src/Display/Streams.antt =====
-- eink_display.c: the two callbacks hand out what they are given to show, in order.
use mender_rt1180_zephyr.Prelude.{
  ℕ, zero, suc, ◌-◌, ◌≡◌, refl, ap, ◌∙◌, sym, subst, arith, min, Bool, true, false, Bool-cases, inl,
  inr, List, [], ◌∷◌, take, drop, length, length-take, length-drop, take_all, length-replicate,
  replicate, ◌==◌, if◌then◌else◌, Ret, val, err, einval,
}
use mender_rt1180_zephyr.Fs.{Fs, Readable}
use mender_rt1180_zephyr.El133.Streams.{Source}
use mender_rt1180_zephyr.Store.Reader.{Text}
use mender_rt1180_zephyr.Display.Paint.{StreamFile, mem_fill, Stream, counted, stream_fill}

take_nil : (n : ℕ) → take {A = ℕ} n [] ≡ []
take_nil zero = refl
take_nil (suc n) = refl

drop_nil : (n : ℕ) → drop {A = ℕ} n [] ≡ []
drop_nil zero = refl
drop_nil (suc n) = refl

-- no more than there is
take-take : (j n m : ℕ) (xs : List ℕ) → j ≡ min n m → take n (take m xs) ≡ take j xs
take-take j zero m xs h = let none_left : j ≡ 0 = omega arith in rw none_left refl
take-take j (suc n) zero xs h = let none_left : j ≡ 0 = omega arith in rw none_left refl
take-take zero (suc n) (suc m) xs h = absurd (omega arith)
take-take (suc j) (suc n) (suc m) [] h = refl
take-take (suc j) (suc n) (suc m) (x ∷ xs) h = ap (λ l. x ∷ l) (take-take j n m xs (omega arith))

drop-take :
    (j n m k : ℕ) (xs : List ℕ) → j ≡ min n m → k ≡ m - j → drop n (take m xs) ≡ take k (drop j xs)
drop-take j n zero k xs h e = let none_left : k ≡ 0 = omega arith in rw none_left (drop_nil n)
drop-take j zero (suc m) k xs h e =
    let nothing : j ≡ 0 = omega arith in let all : k ≡ suc m = omega arith in rw (nothing, all) refl
drop-take zero (suc n) (suc m) k xs h e = absurd (omega arith)
drop-take (suc j) (suc n) (suc m) k [] h e = sym (take_nil k)
drop-take (suc j) (suc n) (suc m) k (x ∷ xs) h e = drop-take j n m k xs (omega arith) (omega arith)

take-replicate : (j n m b : ℕ) → j ≡ min n m → take n (replicate m b) ≡ replicate j b
unfolding replicate
take-replicate j zero m b h = let none_left : j ≡ 0 = omega arith in rw none_left refl
take-replicate j (suc n) zero b h = let none_left : j ≡ 0 = omega arith in rw none_left refl
take-replicate zero (suc n) (suc m) b h = absurd (omega arith)
take-replicate (suc j) (suc n) (suc m) b h = ap (λ l. b ∷ l) (take-replicate j n m b (omega arith))

drop-replicate : (j n m b : ℕ) → j ≡ m - n → drop n (replicate m b) ≡ replicate j b
unfolding replicate
drop-replicate j n zero b h = let none_left : j ≡ 0 = omega arith in rw none_left (drop_nil n)
drop-replicate j zero (suc m) b h = let all : j ≡ suc m = omega arith in rw all refl
drop-replicate j (suc n) (suc m) b h = drop-replicate j n m b (omega arith)

-- what a callback that succeeds has given of `rest`
abbrev Given : {U : Type 0} → (U → List ℕ) → ℕ → List ℕ → (Ret × List ℕ) × U → Type 0
Given unread n rest r =
    (k : ℕ)
    → r.0.0 ≡ val k
    → (length r.0.1 ≡ k) × (r.0.1 ≡ take n rest) × (unread r.1 ≡ drop n rest)

if-Given :
    {U : Type 0} (unread : U → List ℕ) (n : ℕ) (rest : List ℕ) (b : Bool) (u : U)
    (r : (Ret × List ℕ) × U)
    → Given unread n rest r
    → Given unread n rest (if b then ((err einval, []), u) else r)
if-Given unread n rest true u r h = λ k e. absurd (cc)
if-Given unread n rest false u r h = h

min-length :
    (n : ℕ) (left : List ℕ)
    → (take (min n (length left)) left ≡ take n left)
      × (drop (min n (length left)) left ≡ drop n left)
min-length n left =
    let whole = take_all (length left) left refl in
    let j = min n (length left) in
    (
      sym (take-take j n (length left) left refl) ∙ ap (take n) whole,
      sym (take_all (length left - j) (drop j left) (length-drop j left))
          ∙ sym (drop-take j n (length left) (length left - j) left refl refl)
          ∙ ap (drop n) whole,
    )

pub mem_fill-Given : (n : ℕ) (left : List ℕ) → Given (λ u. u) n left (mem_fill n left)
unfolding mem_fill
mem_fill-Given n left =
    if-Given (λ u. u) n left (min n (length left) == 0) left
      (
        (val (min n (length left)), take (min n (length left)) left),
        drop (min n (length left)) left,
      )
      (λ k h.
        let same : min n (length left) ≡ k = cc in
        let (t, d) = min-length n left in
        (omega (arith, same, length-take (min n (length left)) left), t, d))

-- `mem_fill_cb` hands out the bytes that are left.
abbrev pub payload_source : Source (List ℕ) mem_fill
payload_source = record { unread = λ left. left; gives = λ n k left. mem_fill-Given n left k }

module _ (S : Type 0) (fs : Fs Text S) (rd : Readable Text S fs) where
  -- what is left to be streamed
  abbrev pub to_show : Stream S fs → List ℕ
  to_show (f, s) =
      if f.solid
      then replicate f.payload_left f.solid_byte
      else take f.payload_left (rd.unread s f.path)

  counted-Given :
      (n want : ℕ) (f : StreamFile) (rest : List ℕ) (r : (Ret × List ℕ) × S)
      → f.solid ≡ false
      → want ≡ min n f.payload_left
      → ((k : ℕ)
          → r.0.0 ≡ val k
          → (k ≡ length r.0.1) × (r.0.1 ≡ take want rest) × (rd.unread r.1 f.path ≡ drop want rest))
      → Given to_show n (take f.payload_left rest) (counted S fs f want r)
  counted-Given n want f rest ((err e, bytes), s) file eq got = λ k h. absurd (cc)
  counted-Given n want f rest ((val m, bytes), s) file eq got = elim (Bool-cases (m == want)) [
    | inl all ↦ rw all (λ k h.
        let (len, front, back) = got m refl in
        let same : m ≡ k = cc in
        (
          sym len ∙ same,
          front ∙ sym (take-take want n f.payload_left rest eq),
          rw file (
              ap (take (f.payload_left - want)) back
              ∙ sym (drop-take want n f.payload_left (f.payload_left - want) rest eq refl)),
        ))
    | inr few ↦ rw few (λ k h. absurd (cc))
  ]

  filled-Given :
      (n : ℕ) (f : StreamFile) (s : S) (solid : Bool)
      → f.solid ≡ solid
      → Given to_show n (to_show (f, s)) (
          if solid
          then (
            (val (min n f.payload_left), replicate (min n f.payload_left) f.solid_byte),
            (record f { payload_left = f.payload_left - min n f.payload_left }, s),
          )
          else counted S fs f (min n f.payload_left) (fs.read f.path (min n f.payload_left) s))
  filled-Given n f s true e = λ k h.
      let same : min n f.payload_left ≡ k = cc in
      rw e (
        length-replicate (min n f.payload_left) f.solid_byte ∙ same,
        sym (take-replicate (min n f.payload_left) n f.payload_left f.solid_byte refl),
        sym (
            drop-replicate (f.payload_left - min n f.payload_left) n f.payload_left f.solid_byte
              (omega arith)),
      )
  filled-Given n f s false e =
      subst
        (λ b.
          Given to_show n
            (if b
              then replicate f.payload_left f.solid_byte
              else take f.payload_left (rd.unread s f.path))
            (counted S fs f (min n f.payload_left) (fs.read f.path (min n f.payload_left) s)))
        (sym e)
        (counted-Given n (min n f.payload_left) f (rd.unread s f.path)
          (fs.read f.path (min n f.payload_left) s) e refl
          (λ k h. rd.read_bytes f.path (min n f.payload_left) k s h))

  pub stream_fill-Given :
      (n : ℕ) (st : Stream S fs) → Given to_show n (to_show st) (stream_fill S fs n st)
  unfolding stream_fill
  stream_fill-Given n (f, s) =
      if-Given to_show n (to_show (f, s)) (min n f.payload_left == 0) (f, s) _
        (filled-Given n f s f.solid refl)

  -- `stream_fill_cb` hands out what is left of the colour, or of the payload of the file.
  abbrev pub stream_source : Source (Stream S fs) (stream_fill S fs)
  stream_source = record { unread = to_show; gives = λ n k st. stream_fill-Given n st k }
