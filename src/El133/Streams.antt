-- ===== src/El133/Streams.antt =====
-- display_el133uf1.c: what a half that is streamed has the controllers hear, and how much of its
-- source it takes.
use mender_rt1180_zephyr.Prelude.{
  ℕ, zero, suc, ◌+◌, ◌-◌, ◌≤◌, ◌≡◌, refl, ap, ◌∙◌, sym, subst, arith, min, true, false, List, [],
  ◌∷◌, ◌++◌, append_assoc, take, drop, length, length-take, length-drop, drop-drop, drop_eq, ◌==◌,
  Bool-cases, inl, inr, some, Ret, val, err,
}
use mender_rt1180_zephyr.El133.{Bus, Cs, dc_pin, reg, cs_set, addressed, dtm}
use mender_rt1180_zephyr.El133.Stream.{half_bytes, sent, filled, stream_loop, stream_half}
use mender_rt1180_zephyr.El133.Heard.{View, drive, transmit, Wired, AtRest, Told}
use mender_rt1180_zephyr.El133.Tells.{choose, Sent, spi_write-Sent, cs_set-AtRest, view-addressed}
use mender_rt1180_zephyr.El133.Loads.{
  Ends, map-Ends, Begun, whole-Told, transmit-transmit, transmit-nil,
}

-- A callback that hands out the bytes of a source: it counts those that it gives.
pub record Source (U : Type 0) (fill : ℕ → U → (Ret × List ℕ) × U) : Type 0 where
  pub unread : U → List ℕ
  pub gives :
      (n k : ℕ) (u : U)
      → (fill n u).0.0 ≡ val k
      → (length (fill n u).0.1 ≡ k)
        × ((fill n u).0.1 ≡ take n (unread u))
        × (unread (fill n u).1 ≡ drop n (unread u))

take_nothing : (n : ℕ) → take {A = ℕ} n [] ≡ []
take_nothing zero = refl
take_nothing (suc n) = refl

take-take-drop : (j d k : ℕ) (xs : List ℕ) → j + d ≡ k → take j xs ++ take d (drop j xs) ≡ take k xs
take-take-drop zero d k xs h = ap (λ n. take n xs) (omega arith)
take-take-drop (suc j) d zero xs h = absurd (omega arith)
take-take-drop (suc j) d (suc k) [] h = take_nothing d
take-take-drop (suc j) d (suc k) (x ∷ xs) h =
    ap (λ l. x ∷ l) (take-take-drop j d k xs (omega arith))

module _ (B U : Type 0) (bus : Bus B) (wired : Wired B bus) (fill : ℕ → U → (Ret × List ℕ) × U)
    (src : Source U fill) (which : Cs) (v : View) (at_rest : AtRest v) where
  abbrev Start : View
  Start = Begun B bus wired which v at_rest

  -- `left` bytes of `rest` are heard after those so far, and taken from the source
  abbrev pub Streamed : List ℕ → ℕ → List ℕ → U × B → Type 0
  Streamed so_far left rest s =
      Told (reg which dtm (so_far ++ take left rest) ∷ []) v (wired.view s.1)
      × (src.unread s.0 ≡ drop left rest)
      × (left ≤ length rest)

  abbrev pub LetGo : U × B → Type 0
  LetGo s = AtRest (wired.view s.1)

  chunk-Streamed :
      (so_far rest : List ℕ) (want left : ℕ) (s : U × B)
      → want ≤ left
      → length (take want rest) ≡ want
      → Streamed (so_far ++ take want rest) (left - want) (drop want rest) s
      → Streamed so_far left rest s
  chunk-Streamed so_far rest want left s le got (told, taken, enough) = (
    subst (λ l. Told (reg which dtm l ∷ []) v (wired.view s.1))
        (append_assoc so_far (take want rest) (take (left - want) (drop want rest))
          ∙ ap (λ l. so_far ++ l) (take-take-drop want (left - want) left rest (omega arith)))
        told,
    taken ∙ drop-drop (left - want) want rest ∙ drop_eq rest (omega arith),
    omega (arith, length-take want rest, length-drop want rest),
  )

  last :
      (so_far : List ℕ) (u : U) (b : B)
      → wired.view b ≡ transmit so_far Start
      → Streamed so_far 0 (src.unread u) (u, cs_set B bus which false b)
  last so_far u b at = (whole-Told B bus wired which v at_rest so_far b at, refl, omega arith)

  filled-Ends :
      (more : U → B → Ret × (U × B)) (want left : ℕ) (so_far rest : List ℕ) (b : B)
      (r : (Ret × List ℕ) × U)
      → wired.view b ≡ transmit so_far Start
      → want ≤ left
      → ((k : ℕ)
          → r.0.0 ≡ val k
          → (length r.0.1 ≡ k) × (r.0.1 ≡ take want rest) × (src.unread r.1 ≡ drop want rest))
      → ((b' : B)
          → wired.view b' ≡ transmit (so_far ++ take want rest) Start
          → src.unread r.1 ≡ drop want rest
          → Ends
              (Streamed (so_far ++ take want rest) (left - want) (drop want rest))
              LetGo
              (some (more r.1 b')))
      → Ends (Streamed so_far left rest) LetGo (some (filled B bus which U fill more want b r))
  filled-Ends more want left so_far rest b ((err e, bytes), u) at le gave go =
      cs_set-AtRest B bus wired which v b at_rest
        (ap (λ z. z.selected0) at, ap (λ z. z.selected1) at)
  filled-Ends more want left so_far rest b ((val n, bytes), u) at le gave go =
      elim (Bool-cases (n == want)) [
        | inl same ↦
            let n_want : n ≡ want = ground arith in
            let (len, taken, rest') = gave n refl in
            rw same (
              sent_on (bus.spi_write bytes b)
                (spi_write-Sent B bus wired bytes (transmit so_far Start) b at) taken rest'
                (ap length (sym taken) ∙ len ∙ n_want))
        | inr other ↦ rw other (
            cs_set-AtRest B bus wired which v b at_rest
              (ap (λ z. z.selected0) at, ap (λ z. z.selected1) at))
      ]
    where
      sent_on :
          (res : Ret × B)
          → Sent B bus wired bytes (transmit so_far Start) res
          → bytes ≡ take want rest
          → src.unread u ≡ drop want rest
          → length (take want rest) ≡ want
          → Ends
              (Streamed so_far left rest)
              LetGo
              (some (sent B bus which U fill (λ b'. more u b') u res))
      sent_on (err e, b') heard taken rest' len = cs_set-AtRest B bus wired which v b' at_rest heard
      sent_on (val k, b') heard taken rest' len =
          map-Ends (Streamed (so_far ++ take want rest) (left - want) (drop want rest))
            (Streamed so_far left rest) LetGo (some (more u b'))
            (λ s h. chunk-Streamed so_far rest want left s le len h)
            (go b'
              (heard
                ∙ transmit-transmit so_far bytes Start
                ∙ ap (λ l. transmit (so_far ++ l) Start) taken)
              rest')

  stream_loop-Ends :
      (fuel chunk_len left : ℕ) (so_far : List ℕ) (u : U) (b : B)
      → wired.view b ≡ transmit so_far Start
      → 1 ≤ chunk_len
      → left ≤ fuel
      → Ends
          (Streamed so_far left (src.unread u))
          LetGo
          (some (stream_loop B bus which U fill fuel chunk_len left u b))
  unfolding stream_loop
  stream_loop-Ends zero chunk_len zero so_far u b at some_room enough = last so_far u b at
  stream_loop-Ends zero chunk_len (suc left) so_far u b at some_room enough = absurd (omega arith)
  stream_loop-Ends (suc fuel) chunk_len zero so_far u b at some_room enough = last so_far u b at
  stream_loop-Ends (suc fuel) chunk_len (suc left) so_far u b at some_room enough =
      let want = min chunk_len (suc left) in
      filled-Ends (λ u' b'. stream_loop B bus which U fill fuel chunk_len (suc left - want) u' b')
        want (suc left) so_far (src.unread u) b (fill want u) at (omega arith)
        (λ k e. src.gives want k u e)
        (λ b' at' rest'.
          subst
            (λ l. Ends (Streamed (so_far ++ take want (src.unread u)) (suc left - want) l) LetGo (
              some (
                stream_loop B bus which U fill fuel chunk_len (suc left - want) (fill want u).1
                  b')))
            rest'
            (stream_loop-Ends fuel chunk_len (suc left - want) (so_far ++ take want (src.unread u))
              (fill want u).1 b' at' some_room (omega arith)))

  -- On a bus whose documented behaviour is given, a half that is streamed from a source releases both
  -- controllers, whether it succeeds or not.
  pub stream_half-Ends :
      (chunk_len : ℕ) (u : U) (b : B)
      → wired.view b ≡ v
      → 1 ≤ chunk_len
      → Ends
          (Streamed [] half_bytes (src.unread u))
          LetGo
          (some (stream_half B bus which U fill chunk_len u b))
  unfolding stream_half
  stream_half-Ends chunk_len u b at some_room =
      begun (bus.spi_write (dtm ∷ []) (addressed B bus which b)) (
        spi_write-Sent B bus wired (dtm ∷ []) _ (addressed B bus which b) (
          view-addressed B bus wired which b
          ∙ ap (λ z. drive dc_pin false (choose which true z)) at))
    where
      begun :
          (r : Ret × B)
          → Sent B bus wired (dtm ∷ []) (drive dc_pin false (choose which true v)) r
          → Ends (Streamed [] half_bytes (src.unread u)) LetGo (
              some (
                sent B bus which U fill
                  (λ b'.
                    stream_loop B bus which U fill half_bytes chunk_len half_bytes u
                      (bus.set_pin dc_pin true b'))
                  u
                  r))
      begun (err e, b') heard = cs_set-AtRest B bus wired which v b' at_rest heard
      begun (val n, b') heard =
          stream_loop-Ends half_bytes chunk_len half_bytes [] u (bus.set_pin dc_pin true b')
            (wired.view-set_pin dc_pin true b' ∙ ap (drive dc_pin true) heard ∙ transmit-nil Start)
            some_room (omega arith)
