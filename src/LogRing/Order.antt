-- ===== src/LogRing/Order.antt =====
-- eink_log_ring.c: the ring holds the newest bytes written, oldest first.
use native.Mathlib.Nat.{mod-add-mod, mod-mod, mod-lt, mod-eq_of_lt, mod-eq-sub-mod}
use mender_rt1180_zephyr.Prelude.{
  ℕ, zero, suc, ◌+◌, ◌-◌, ◌%◌, ◌≤◌, ◌<◌, ◌≡◌, ◌≢◌, refl, sym, ap, ◌∙◌, List, [], ◌∷◌, ◌++◌, arith,
  length, get_or, set, drop, length-append, length-set, length-drop, drop_eq, drop-append_le,
  drop-drop, dec_lt, append_assoc, append-nil, get_or-set_self, get_or-set_ne, ltb, lt→ltb,
  if◌then◌else◌,
}
use mender_rt1180_zephyr.LogRing.{LogRing, putc_locked, write_locked, copy_from, start}

-- the last `n` elements
abbrev pub newest : ℕ → List ℕ → List ℕ
newest n xs = drop (length xs - n) xs

newest_all : (n : ℕ) (xs : List ℕ) → length xs ≤ n → newest n xs ≡ xs
newest_all n xs h = drop_eq xs {j = 0} (omega arith)

newest_one :
    (n : ℕ) (xs : List ℕ) (c : ℕ)
    → length xs ≡ n
    → 0 < n
    → newest n (xs ++ c ∷ []) ≡ drop 1 xs ++ c ∷ []
newest_one n [] c h p = absurd (omega arith)
newest_one n (x ∷ xs) c h p =
    drop_eq (x ∷ xs ++ c ∷ []) {j = 1} (omega (arith, length-append (x ∷ xs) (c ∷ [])))

-- Bytes that have left the log do not come back.
newest-newest-append : (n : ℕ) (xs ys : List ℕ) → newest n (newest n xs ++ ys) ≡ newest n (xs ++ ys)
newest-newest-append n xs ys =
    ap (newest n) (sym (drop-append_le (length xs - n) xs ys (omega arith)))
    ∙ drop-drop (length (drop (length xs - n) (xs ++ ys)) - n) (length xs - n) (xs ++ ys)
    ∙ drop_eq (xs ++ ys)
        (omega (arith, length-drop (length xs - n) (xs ++ ys), length-append xs ys))

pub record IsValid (ring_size : ℕ) (r : LogRing) : Type 0 where
  pub storage : length r.ring ≡ ring_size
  pub head_in : r.ring_head < ring_size
  pub len_in : r.ring_len ≤ ring_size
  -- a ring that is not full has never gone round
  pub fresh : r.ring_len < ring_size → r.ring_head ≡ r.ring_len

module _ (ring_size : ℕ) where
  -- the bytes held, oldest first
  abbrev pub contents : LogRing → List ℕ
  contents r = copy_from ring_size r.ring (start ring_size r) r.ring_len

  pub putc-IsValid :
      (r : LogRing) (c : ℕ) → IsValid ring_size r → IsValid ring_size (putc_locked ring_size r c)
  unfolding putc_locked
  putc-IsValid r c v = ground (
    arith,
    length-set r.ring r.ring_head c,
    mod-lt (r.ring_head + 1) {m = ring_size},
    mod-eq_of_lt {n = r.ring_head + 1} {m = ring_size},
  )

  pub length-copy_from : (ring : List ℕ) (k n : ℕ) → length (copy_from ring_size ring k n) ≡ n
  unfolding copy_from
  length-copy_from ring k zero = refl
  length-copy_from ring k (suc n) = ap suc (length-copy_from ring (k + 1) n)

  copy_from-suc :
      (ring : List ℕ) (k n : ℕ)
      → copy_from ring_size ring k (suc n)
        ≡ copy_from ring_size ring k n ++ get_or ring ((k + n) % ring_size) 0 ∷ []
  unfolding copy_from
  copy_from-suc ring k zero = ap (λ i. get_or ring (i % ring_size) 0 ∷ []) (omega arith)
  copy_from-suc ring k (suc n) =
      ap (λ xs. get_or ring (k % ring_size) 0 ∷ xs) (copy_from-suc ring (k + 1) n)
      ∙ ap
          (λ i.
            get_or ring (k % ring_size) 0 ∷ copy_from ring_size ring (k + 1) n
            ++ get_or ring (i % ring_size) 0 ∷ [])
          (omega arith)

  -- A start counts modulo the size.
  copy_from-mod :
      (ring : List ℕ) (k n : ℕ)
      → copy_from ring_size ring (k % ring_size) n ≡ copy_from ring_size ring k n
  unfolding copy_from
  copy_from-mod ring k zero = refl
  copy_from-mod ring k (suc n) =
      let there : copy_from ring_size ring (k % ring_size + 1) n
          ≡ copy_from ring_size ring (k + 1) n =
        sym (copy_from-mod ring (k % ring_size + 1) n)
        ∙ ap (λ i. copy_from ring_size ring i n) (mod-add-mod k ring_size 1)
        ∙ copy_from-mod ring (k + 1) n in
      rw (mod-mod, there)

  -- A byte written outside the range read is not seen.
  copy_from-set :
      (ring : List ℕ) (h c k n : ℕ)
      → ((j : ℕ) → j < n → h ≢ (k + j) % ring_size)
      → copy_from ring_size (set ring h c) k n ≡ copy_from ring_size ring k n
  unfolding copy_from
  copy_from-set ring h c k zero out = refl
  copy_from-set ring h c k (suc n) out =
      let here : h ≢ k % ring_size =
        λ e. out 0 (omega arith) (e ∙ ap (λ i. i % ring_size) (omega arith)) in
      let later : (j : ℕ) → j < n → h ≢ (k + 1 + j) % ring_size =
        λ j lt e. out (suc j) (omega arith) (e ∙ ap (λ i. i % ring_size) (omega arith)) in
      rw (get_or-set_ne ring c 0 here, copy_from-set ring h c (k + 1) n later)

  -- Fewer than `ring_size` places past the head one has not come back to it.
  past-ne-head : (h j : ℕ) → h < ring_size → j + 1 < ring_size → h ≢ (h + 1 + j) % ring_size
  past-ne-head h j hh hj = elim (dec_lt (h + 1 + j) ring_size) [
    | yes p ↦ omega (arith, mod-eq_of_lt p)
    | no p ↦ omega (
      arith,
      mod-eq-sub-mod {n = h + 1 + j} {m = ring_size} (omega arith),
      mod-eq_of_lt {n = h + 1 + j - ring_size} {m = ring_size} (omega arith),
    )
  ]

  copy_from-set_end :
      (ring : List ℕ) (h c k n : ℕ)
      → h < length ring
      → h ≡ (k + n) % ring_size
      → ((j : ℕ) → j < n → h ≢ (k + j) % ring_size)
      → copy_from ring_size (set ring h c) k (suc n) ≡ copy_from ring_size ring k n ++ c ∷ []
  copy_from-set_end ring h c k n hl e out = rw (
    copy_from-suc (set ring h c) k n,
    copy_from-set ring h c k n out,
    ← e,
    get_or-set_self ring h c 0 hl,
  )

  start_room : (r : LogRing) → r.ring_len < ring_size → start ring_size r ≡ 0
  unfolding start
  start_room r room = ground arith

  start_full : (r : LogRing) → r.ring_len ≡ ring_size → start ring_size r ≡ r.ring_head
  unfolding start
  start_full r full = ground arith

  start-putc_room :
      (r : LogRing) (c : ℕ)
      → IsValid ring_size r
      → r.ring_len < ring_size
      → start ring_size (putc_locked ring_size r c) ≡ 0
  unfolding start putc_locked
  start-putc_room r c v room = ground (
    arith,
    mod-eq-sub-mod {n = r.ring_head + 1} {m = ring_size},
    mod-eq_of_lt {n = 0} {m = ring_size},
  )

  start-putc_full :
      (r : LogRing) (c : ℕ)
      → r.ring_len ≡ ring_size
      → start ring_size (putc_locked ring_size r c) ≡ (r.ring_head + 1) % ring_size
  unfolding start putc_locked
  start-putc_full r c full = ground arith

  len-putc :
      (r : LogRing) (c : ℕ)
      → (putc_locked ring_size r c).ring_len
        ≡ (if ltb r.ring_len ring_size then suc r.ring_len else r.ring_len)
  unfolding putc_locked
  len-putc r c = ground arith

  ring-putc : (r : LogRing) (c : ℕ) → (putc_locked ring_size r c).ring ≡ set r.ring r.ring_head c
  unfolding putc_locked
  ring-putc r c = refl

  -- The bytes held after one more byte, with room left and when full.
  putc_room :
      (r : LogRing) (c : ℕ)
      → IsValid ring_size r
      → r.ring_len < ring_size
      → contents (putc_locked ring_size r c) ≡ contents r ++ c ∷ []
  putc_room r c v room =
      rw
        (
          start-putc_room r c v room,
          ring-putc r c,
          len-putc r c,
          lt→ltb _ _ room,
          start_room r room,
        )
        (copy_from-set_end r.ring r.ring_head c 0 r.ring_len (omega arith)
          (v.fresh room ∙ sym (mod-eq_of_lt room) ∙ ap (λ i. i % ring_size) (omega arith))
          (λ j lt e. absurd (
            omega
              (arith, v.fresh room, e, mod-eq_of_lt {n = 0 + j} {m = ring_size} (omega arith)))))

  putc_full :
      (r : LogRing) (c n : ℕ)
      → IsValid ring_size r
      → r.ring_len ≡ ring_size
      → ring_size ≡ suc n
      → contents (putc_locked ring_size r c) ≡ drop 1 (contents r) ++ c ∷ []
  unfolding copy_from
  putc_full r c n v full e =
      let held : r.ring_len ≡ suc n = full ∙ e in
      let new_len : (putc_locked ring_size r c).ring_len ≡ suc n = ground (arith, len-putc r c) in
      let back : r.ring_head ≡ (r.ring_head + 1 + n) % ring_size = omega (
        arith,
        mod-eq-sub-mod {n = r.ring_head + 1 + n} {m = ring_size} (omega arith),
        mod-eq_of_lt {n = r.ring_head + 1 + n - ring_size} {m = ring_size} (omega arith),
      ) in
      rw (start-putc_full r c full, ring-putc r c, new_len, start_full r full, held, copy_from-mod)
        (copy_from-set_end r.ring r.ring_head c (r.ring_head + 1) n (omega arith) back
          (λ j lt. past-ne-head r.ring_head j v.head_in (omega arith)))

  -- One more byte: the oldest byte leaves when there is no room.
  contents-putc :
      (r : LogRing) (c : ℕ)
      → IsValid ring_size r
      → contents (putc_locked ring_size r c) ≡ newest ring_size (contents r ++ c ∷ [])
  contents-putc r c v = elim (dec_lt r.ring_len ring_size) [
    | yes room ↦
        putc_room r c v room
        ∙ sym (
            newest_all ring_size (contents r ++ c ∷ [])
              (omega (arith, long, length-append (contents r) (c ∷ []))))
    | no full ↦
        putc_full r c (ring_size - 1) v (omega arith) (omega arith)
        ∙ sym (newest_one ring_size (contents r) c (long ∙ omega arith) (omega arith))
  ]
    where
      long : length (contents r) ≡ r.ring_len
      long = length-copy_from r.ring (start ring_size r) r.ring_len

  write-IsValid :
      (r : LogRing) (bytes : List ℕ)
      → IsValid ring_size r
      → IsValid ring_size (write_locked ring_size r bytes)
  unfolding write_locked
  write-IsValid r [] v = v
  write-IsValid r (c ∷ bytes) v =
      write-IsValid (putc_locked ring_size r c) bytes (putc-IsValid r c v)

  contents-write :
      (r : LogRing) (bytes : List ℕ)
      → IsValid ring_size r
      → contents (write_locked ring_size r bytes) ≡ newest ring_size (contents r ++ bytes)
  unfolding write_locked
  contents-write r [] v = rw append-nil (
      sym (
        newest_all ring_size (contents r)
          (omega (arith, length-copy_from r.ring (start ring_size r) r.ring_len))))
  contents-write r (c ∷ bytes) v =
      contents-write (putc_locked ring_size r c) bytes (putc-IsValid r c v)
      ∙ ap (λ xs. newest ring_size (xs ++ bytes)) (contents-putc r c v)
      ∙ newest-newest-append ring_size (contents r ++ c ∷ []) bytes
      ∙ ap (newest ring_size) (append_assoc (contents r) (c ∷ []) bytes)

  -- The ring is a bounded log: a write keeps the ring valid and leaves the newest `ring_size` bytes
  -- of what it held followed by what is written, in order.
  pub write_lem :
      (r : LogRing) (bytes : List ℕ)
      → IsValid ring_size r
      → IsValid ring_size (write_locked ring_size r bytes)
        × (contents (write_locked ring_size r bytes) ≡ newest ring_size (contents r ++ bytes))
  write_lem r bytes v = (write-IsValid r bytes v, contents-write r bytes v)
