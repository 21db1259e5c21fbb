-- ===== src/El133/Frames.antt =====
-- display_el133uf1.c: what a frame has the controllers hear, written from a buffer or streamed, and
-- when the panel shows it.
use mender_rt1180_zephyr.Prelude.{
  ℕ, ◌+◌, ◌≤◌, ◌≡◌, refl, ap, ◌∙◌, subst, arith, Bool, true, false, Bool-cases, inl, inr,
  if◌then◌else◌, not, List, [], ◌∷◌, ◌++◌, take, drop, length, length-drop, drop-drop, drop_eq, ltb,
  Option, none, some, Ret, val, err, zero, suc,
}
use mender_rt1180_zephyr.El133.{Bus, Cs, Reg, reg, cs0, cs1, refresh, dtm, ◌then◌}
use mender_rt1180_zephyr.El133.Stream.{half_bytes, payload_bytes, chunk_size, load_dtm, stream_half}
use mender_rt1180_zephyr.El133.Device.{
  Panel, cleaned, refreshed, unblanked, blanking_off, settled, half_loaded, write, half_streamed,
  beside, stream_write,
}
use mender_rt1180_zephyr.El133.Heard.{View, Wired, AtRest, Told, Told-nil, Told-append}
use mender_rt1180_zephyr.El133.Tells.{After}
use mender_rt1180_zephyr.El133.Orders.{refresh_orders, refresh-After, IsZero, refresh-IsZero}
use mender_rt1180_zephyr.El133.Loads.{Ends, then-Ends, map-Ends, load_dtm-After}
use mender_rt1180_zephyr.El133.Streams.{Source, Streamed, stream_half-Ends}

-- each controller is sent its half
abbrev pub first_half : List ℕ → Reg
first_half payload = reg cs0 dtm (take half_bytes payload)

abbrev pub second_half : List ℕ → Reg
second_half payload = reg cs1 dtm (take half_bytes (drop half_bytes payload))

abbrev pub frame_orders : List ℕ → List Reg
frame_orders payload = first_half payload ∷ second_half payload ∷ []

-- a frame is shown at once unless the panel is blanked
abbrev pub shown_now : Bool → List Reg
shown_now true = []
shown_now false = refresh_orders

module _ (B : Type 0) (bus : Bus B) (wired : Wired B bus) where
  abbrev pub seen : Panel B → View
  seen p = wired.view p.bus_state

  abbrev pub LetGo : Panel B → Type 0
  LetGo p = AtRest (seen p)

  -- the frame is shown, and the panel is no longer blanked
  abbrev pub Shown : View → Panel B → Type 0
  Shown v q = Told refresh_orders v (seen q) × (q.dirty ≡ false) × (q.blanking_on ≡ false)

  pub blanking_off-Ends :
      (p : Panel B)
      → p.dirty ≡ true
      → AtRest (seen p)
      → Ends (Shown (seen p)) LetGo (blanking_off B bus p)
  unfolding blanking_off
  blanking_off-Ends p h at = turned p.dirty h
    where
      shown :
          (o : Option (Ret × B))
          → After B bus wired refresh_orders (seen p) o
          → IsZero o
          → Ends (Shown (seen p)) LetGo (unblanked B bus (refreshed B bus p o))
      shown none k z = k
      shown (some (err e, b)) k z = k
      shown (some (val zero, b)) k z = (k, refl, refl)
      shown (some (val (suc n), b)) k z = absurd z

      turned :
          (dirty : Bool)
          → dirty ≡ true
          → Ends (Shown (seen p)) LetGo (
              unblanked B bus
                (if dirty then refreshed B bus p (refresh B bus p.bus_state) else some (val 0, p)))
      turned true e =
          shown (refresh B bus p.bus_state) (refresh-After B bus wired p.bus_state at)
            (refresh-IsZero B bus p.bus_state)
      turned false e = absurd (cc)

  -- both halves are loaded, and the panel shows them unless it is blanked
  abbrev pub Settled : Bool → View → Panel B → Type 0
  Settled blanked v q =
      Told (shown_now blanked) v (seen q) × (q.dirty ≡ blanked) × (q.blanking_on ≡ blanked)

  settled-Ends :
      (p : Panel B)
      → AtRest (seen p)
      → Ends (Settled p.blanking_on (seen p)) LetGo (settled B bus p)
  settled-Ends p at = by_blanking p.blanking_on refl
    where
      shown :
          (o : Option (Ret × B))
          → p.blanking_on ≡ false
          → After B bus wired refresh_orders (seen p) o
          → Ends
              (Settled false (seen p))
              LetGo
              (cleaned B bus (record p { dirty = true }) o then (λ q. some (val 0, q)))
      shown none e k = k
      shown (some (err e', b)) e k = k
      shown (some (val n, b)) e k = (k, refl, e)

      by_blanking :
          (blanked : Bool)
          → p.blanking_on ≡ blanked
          → Ends (Settled blanked (seen p)) LetGo (
              if not blanked
              then cleaned B bus (record p { dirty = true }) (refresh B bus p.bus_state)
              then (λ q. some (val 0, q))
              else some (val 0, record p { dirty = true }))
      by_blanking true e = (Told-nil _ _ at refl, refl, e)
      by_blanking false e =
          shown (refresh B bus p.bus_state) e (refresh-After B bus wired p.bus_state at)

  -- the halves of `payload` are loaded, and then settled
  abbrev pub Framed : List ℕ → Panel B → Panel B → Type 0
  Framed payload p q =
      Told (frame_orders payload ++ shown_now p.blanking_on) (seen p) (seen q)
      × (q.dirty ≡ p.blanking_on)
      × (q.blanking_on ≡ p.blanking_on)

  abbrev Half : Reg → Panel B → Panel B → Type 0
  Half r p q = Told (r ∷ []) (seen p) (seen q) × (q.blanking_on ≡ p.blanking_on)

  -- both halves are loaded
  abbrev Both : List ℕ → Panel B → Panel B → Type 0
  Both payload p r = (q : Panel B) × Half (first_half payload) p q × Half (second_half payload) q r

  halves-Ends :
      (payload : List ℕ) (p q r : Panel B)
      → Half (first_half payload) p q
      → Half (second_half payload) q r
      → Ends (Framed payload p) LetGo (settled B bus r)
  halves-Ends payload p q r (told0, same0) (told1, same1) =
      map-Ends (Settled r.blanking_on (seen r)) (Framed payload p) LetGo (settled B bus r)
        (λ s (told, was_dirty, was_blanked). (
          subst (λ b. Told (frame_orders payload ++ shown_now b) (seen p) (seen s)) (same1 ∙ same0)
              (Told-append _ _ _ _ _ (Told-append _ _ _ _ _ told0 told1) told),
          was_dirty ∙ same1 ∙ same0,
          was_blanked ∙ same1 ∙ same0,
        ))
        (settled-Ends r told1.rest)

  half_loaded-Ends :
      (r : Reg) (p : Panel B) (res : Ret × B)
      → After B bus wired (r ∷ []) (seen p) (some res)
      → Ends (Half r p) LetGo (half_loaded B bus p res)
  half_loaded-Ends r p (err e, b) h = h
  half_loaded-Ends r p (val n, b) h = (h, refl)

  abbrev load_first : List ℕ → Panel B → Option (Ret × Panel B)
  load_first payload q = half_loaded B bus q (load_dtm B bus cs0 payload half_bytes q.bus_state)

  abbrev load_second : List ℕ → Panel B → Option (Ret × Panel B)
  load_second payload q =
      half_loaded B bus q (load_dtm B bus cs1 (drop half_bytes payload) half_bytes q.bus_state)

  -- A frame that is written from a buffer leaves both controllers released, whether it succeeds or
  -- not.
  pub write-Ends :
      (payload : List ℕ) (buf_size : ℕ) (p : Panel B)
      → AtRest (seen p)
      → Ends (Framed payload p) LetGo (write B bus payload buf_size p)
  unfolding write
  write-Ends payload buf_size p at = elim (Bool-cases (ltb buf_size payload_bytes)) [
    | inl short ↦ rw short at
    | inr enough ↦ rw enough (
        then-Ends (Both payload p) (Framed payload p) LetGo
          (load_first payload p then load_second payload) (settled B bus)
          (then-Ends (Half (first_half payload) p) (Both payload p) LetGo (load_first payload p)
            (load_second payload)
            (half_loaded-Ends (first_half payload) p _
              (load_dtm-After B bus wired cs0 (seen p) at payload half_bytes p.bus_state refl))
            (λ q h.
              map-Ends (Half (second_half payload) q) (Both payload p) LetGo (load_second payload q)
                (λ r k. (q, h, k))
                (half_loaded-Ends (second_half payload) q _ (
                  load_dtm-After B bus wired cs1 (seen q) h.0.rest (drop half_bytes payload)
                    half_bytes q.bus_state refl))))
          (λ r (q, h, k). halves-Ends payload p q r h k))
  ]

  module _ (U : Type 0) (fill : ℕ → U → (Ret × List ℕ) × U) (src : Source U fill) where
    abbrev pub LetGoOf : U × Panel B → Type 0
    LetGoOf s = LetGo s.1

    -- a frame is streamed from the source's bytes `rest`, and taken from them
    abbrev pub FramedFrom : List ℕ → Panel B → U × Panel B → Type 0
    FramedFrom rest p s =
        Framed rest p s.1
        × (src.unread s.0 ≡ drop payload_bytes rest)
        × (payload_bytes ≤ length rest)

    abbrev BothFrom : List ℕ → Panel B → U × Panel B → Type 0
    BothFrom rest p s =
        Both rest p s.1 × (src.unread s.0 ≡ drop payload_bytes rest) × (payload_bytes ≤ length rest)

    abbrev FirstFrom : List ℕ → Panel B → U × Panel B → Type 0
    FirstFrom rest p s =
        Half (first_half rest) p s.1
        × (src.unread s.0 ≡ drop half_bytes rest)
        × (half_bytes ≤ length rest)

    abbrev streamed_to : Cs → U × Panel B → Option (Ret × (U × Panel B))
    streamed_to which s =
        half_streamed B bus U fill s.1 (stream_half B bus which U fill chunk_size s.0 s.1.bus_state)

    -- a half is streamed to `which`
    abbrev HalfTo : Cs → U × Panel B → U × Panel B → Type 0
    HalfTo which s t =
        Half (reg which dtm (take half_bytes (src.unread s.0))) s.1 t.1
        × (src.unread t.0 ≡ drop half_bytes (src.unread s.0))
        × (half_bytes ≤ length (src.unread s.0))

    half_streamed-Ends :
        (which : Cs) (u : U) (p : Panel B)
        → AtRest (seen p)
        → Ends (HalfTo which (u, p)) LetGoOf (streamed_to which (u, p))
    half_streamed-Ends which u p at =
        onward (stream_half B bus which U fill chunk_size u p.bus_state) (
          stream_half-Ends B U bus wired fill src which (seen p) at chunk_size u p.bus_state refl
            (omega arith))
      where
        onward :
            (res : Ret × (U × B))
            → Ends
                (Streamed B U bus wired fill src which (seen p) at [] half_bytes (src.unread u))
                (λ s. AtRest (wired.view s.1))
                (some res)
            → Ends (HalfTo which (u, p)) LetGoOf (half_streamed B bus U fill p res)
        onward (err e, (u', b)) h = h
        onward (val n, (u', b)) (told, taken, enough) = ((told, refl), taken, enough)

    second-BothFrom :
        (rest : List ℕ) (p : Panel B) (s : U × Panel B)
        → FirstFrom rest p s
        → Ends (BothFrom rest p) LetGoOf (streamed_to cs1 s)
    second-BothFrom rest p (u, q) (h, taken, enough) =
        map-Ends (HalfTo cs1 (u, q)) (BothFrom rest p) LetGoOf (streamed_to cs1 (u, q))
          (λ t z. (
            (
              q,
              h,
              (
                subst (λ l. Told (reg cs1 dtm (take half_bytes l) ∷ []) (seen q) (seen t.1)) taken
                    z.0.0,
                z.0.1,
              ),
            ),
            z.1
                ∙ ap (drop half_bytes) taken
                ∙ drop-drop half_bytes half_bytes rest
                ∙ drop_eq rest {i = half_bytes + half_bytes} {j = payload_bytes} refl,
            omega (arith, z.2, ap length taken, length-drop half_bytes rest),
          ))
          (half_streamed-Ends cs1 u q h.0.rest)

    settled-FramedFrom :
        (rest : List ℕ) (p : Panel B) (s : U × Panel B)
        → BothFrom rest p s
        → Ends (FramedFrom rest p) LetGoOf (beside B bus U fill s.0 (settled B bus s.1))
    settled-FramedFrom rest p (u, r) ((q, h, k), taken, enough) =
        onward (settled B bus r) (halves-Ends rest p q r h k)
      where
        onward :
            (o : Option (Ret × Panel B))
            → Ends (Framed rest p) LetGo o
            → Ends (FramedFrom rest p) LetGoOf (beside B bus U fill u o)
        onward none z = z
        onward (some (err e, r')) z = z
        onward (some (val n, r')) z = (z, taken, enough)

    -- A frame that is streamed leaves both controllers released, whether it succeeds or not.
    pub stream_write-Ends :
        (u : U) (p : Panel B)
        → AtRest (seen p)
        → Ends (FramedFrom (src.unread u) p) LetGoOf (stream_write B bus U fill u p)
    unfolding stream_write
    stream_write-Ends u p at =
        then-Ends (BothFrom (src.unread u) p) (FramedFrom (src.unread u) p) LetGoOf
          (streamed_to cs0 (u, p) then streamed_to cs1)
          (λ (u', q). beside B bus U fill u' (settled B bus q))
          (then-Ends (FirstFrom (src.unread u) p) (BothFrom (src.unread u) p) LetGoOf
            (streamed_to cs0 (u, p)) (streamed_to cs1) (half_streamed-Ends cs0 u p at)
            (λ s h. second-BothFrom (src.unread u) p s h))
          (λ s h. settled-FramedFrom (src.unread u) p s h)
