-- ===== src/El133/Loads.antt =====
-- display_el133uf1.c: what the halves of a frame have the controllers hear.
use mender_rt1180_zephyr.Prelude.{
  ℕ, zero, suc, ◌≤◌, ◌≡◌, refl, ap, ◌∙◌, sym, subst, arith, Bool, true, false, List, [], ◌∷◌, ◌++◌,
  map, append_assoc, append-nil, take, drop, length, length-take, length-drop, take-append-drop,
  Option, none, some, Ret, val, err,
}
use mathlib.Core.List.{map-append}
use mender_rt1180_zephyr.El133.{Bus, Cs, dc_pin, reg, cs_set, addressed, dtm, ◌then◌}
use mender_rt1180_zephyr.El133.Stream.{chunk_size, loaded, load_loop, load_dtm}
use mender_rt1180_zephyr.El133.Heard.{
  View, Word, word, hearing, drive, transmit, Wired, AtRest, Told,
}
use mender_rt1180_zephyr.El133.Tells.{
  choose, After, Sent, spi_write-Sent, cs_set-AtRest, cs_set-Told, view-addressed,
}

-- What a call that may fail leaves: it ends, and `Good` holds of the state where it succeeds, `Bad`
-- where it fails.
module _ {ℓ} {S : Type ℓ} where
  abbrev pub Ends : (S → Type 0) → (S → Type 0) → Option (Ret × S) → Type 0
  Ends Good Bad none = ⊥
  Ends Good Bad (some (err e, s)) = Bad s
  Ends Good Bad (some (val n, s)) = Good s

  pub map-Ends :
      (G H Bad : S → Type 0) (o : Option (Ret × S))
      → ((s : S) → G s → H s)
      → Ends G Bad o
      → Ends H Bad o
  map-Ends G H Bad none go h = absurd h
  map-Ends G H Bad (some (err e, s)) go h = h
  map-Ends G H Bad (some (val n, s)) go h = go s h

  pub then-Ends :
      (G H Bad : S → Type 0) (o : Option (Ret × S)) (next : S → Option (Ret × S))
      → Ends G Bad o
      → ((s : S) → G s → Ends H Bad (next s))
      → Ends H Bad (o then next)
  then-Ends G H Bad none next h go = absurd h
  then-Ends G H Bad (some (err e, s)) next h go = h
  then-Ends G H Bad (some (val n, s)) next h go = go s h

hearing-append :
    (b : Bool) (old xs ys : List Word) → hearing b (hearing b old xs) ys ≡ hearing b old (xs ++ ys)
hearing-append true old xs ys = append_assoc old xs ys
hearing-append false old xs ys = refl

-- two buffers after each other are heard as one
pub transmit-transmit :
    (xs ys : List ℕ) (v : View) → transmit ys (transmit xs v) ≡ transmit (xs ++ ys) v
transmit-transmit xs ys v =
    rw
      (
        map-append (word v.dc) xs ys,
        hearing-append v.selected0 v.first (map (word v.dc) xs) (map (word v.dc) ys),
        hearing-append v.selected1 v.second (map (word v.dc) xs) (map (word v.dc) ys),
      )
      refl

hearing-nil : (b : Bool) (old : List Word) → hearing b old [] ≡ old
hearing-nil true old = append-nil old
hearing-nil false old = refl

pub transmit-nil : (v : View) → v ≡ transmit [] v
transmit-nil v = rw (hearing-nil v.selected0 v.first, hearing-nil v.selected1 v.second) refl

module _ (B : Type 0) (bus : Bus B) (wired : Wired B bus) (which : Cs) (v : View)
    (at_rest : AtRest v) where
  -- the frame data are to follow
  abbrev pub Begun : View
  Begun = drive dc_pin true (transmit (dtm ∷ []) (drive dc_pin false (choose which true v)))

  -- all the bytes so far, and the end of the transfer
  pub whole-Told :
      (so_far : List ℕ) (b : B)
      → wired.view b ≡ transmit so_far Begun
      → Told (reg which dtm (so_far ++ []) ∷ []) v (wired.view (cs_set B bus which false b))
  whole-Told so_far b at =
      subst (λ l. Told (reg which dtm l ∷ []) v (wired.view (cs_set B bus which false b)))
        (sym (append-nil so_far)) (cs_set-Told B bus wired which dtm so_far v b at_rest at)

  more_so_far : (n : ℕ) (src so_far : List ℕ) → (so_far ++ take n src) ++ drop n src ≡ so_far ++ src
  more_so_far n src so_far =
      append_assoc so_far (take n src) (drop n src) ∙ ap (λ l. so_far ++ l) (take-append-drop n src)

  loaded-After :
      (more : B → Ret × B) (src so_far : List ℕ) (r : Ret × B)
      → Sent B bus wired (take chunk_size src) (transmit so_far Begun) r
      → ((b : B)
          → wired.view b ≡ transmit (so_far ++ take chunk_size src) Begun
          → After B bus wired
              (reg which dtm ((so_far ++ take chunk_size src) ++ drop chunk_size src) ∷ [])
              v
              (some (more b)))
      → After B bus wired (reg which dtm (so_far ++ src) ∷ []) v (some (loaded B bus which more r))
  loaded-After more src so_far (err e, b) heard go =
      cs_set-AtRest B bus wired which v b at_rest heard
  loaded-After more src so_far (val n, b) heard go =
      subst (λ l. After B bus wired (reg which dtm l ∷ []) v (some (more b)))
        (more_so_far chunk_size src so_far)
        (go b (heard ∙ transmit-transmit so_far (take chunk_size src) Begun))

  -- the bytes so far, and those that are to follow
  load_loop-After :
      (fuel : ℕ) (src so_far : List ℕ) (b : B)
      → wired.view b ≡ transmit so_far Begun
      → length src ≤ fuel
      → After B bus wired
          (reg which dtm (so_far ++ src) ∷ [])
          v
          (some (load_loop B bus which fuel src b))
  unfolding load_loop
  load_loop-After zero [] so_far b at enough = whole-Told so_far b at
  load_loop-After zero (x ∷ src) so_far b at enough = absurd (omega arith)
  load_loop-After (suc fuel) [] so_far b at enough = whole-Told so_far b at
  load_loop-After (suc fuel) (x ∷ src) so_far b at enough =
      loaded-After (λ b'. load_loop B bus which fuel (drop chunk_size (x ∷ src)) b') (x ∷ src)
        so_far (bus.spi_write (take chunk_size (x ∷ src)) b)
        (spi_write-Sent B bus wired (take chunk_size (x ∷ src)) (transmit so_far Begun) b at)
        (λ b' at'.
          load_loop-After fuel (drop chunk_size (x ∷ src)) (so_far ++ take chunk_size (x ∷ src)) b'
            at' (omega (arith, length-drop chunk_size (x ∷ src))))

  pub load_dtm-After :
      (src : List ℕ) (len : ℕ) (b : B)
      → wired.view b ≡ v
      → After B bus wired
          (reg which dtm (take len src) ∷ [])
          v
          (some (load_dtm B bus which src len b))
  unfolding load_dtm
  load_dtm-After src len b at = begun (bus.spi_write (dtm ∷ []) (addressed B bus which b)) (
      spi_write-Sent B bus wired (dtm ∷ []) _ (addressed B bus which b) (
        view-addressed B bus wired which b ∙ ap (λ z. drive dc_pin false (choose which true z)) at))
    where
      begun :
          (r : Ret × B)
          → Sent B bus wired (dtm ∷ []) (drive dc_pin false (choose which true v)) r
          → After B bus wired (reg which dtm (take len src) ∷ []) v (
              some (
                loaded B bus which
                  (λ b'. load_loop B bus which len (take len src) (bus.set_pin dc_pin true b'))
                  r))
      begun (err e, b') heard = cs_set-AtRest B bus wired which v b' at_rest heard
      begun (val n, b') heard =
          load_loop-After len (take len src) [] (bus.set_pin dc_pin true b')
            (wired.view-set_pin dc_pin true b' ∙ ap (drive dc_pin true) heard ∙ transmit-nil Begun)
            (omega (arith, length-take len src))
