-- ===== src/El133/Tells.antt =====
-- display_el133uf1.c: what a transfer, a wait for the panel, the writes to registers and a refresh
-- have the controllers hear.
use mender_rt1180_zephyr.Prelude.{
  ℕ, zero, suc, ◌+◌, ◌*◌, ◌/◌, ◌<◌, ◌≡◌, refl, ap, ◌∙◌, sym, subst, arith, Bool, true, false,
  Bool-cases, inl, inr, List, [], ◌∷◌, ◌++◌, map, append_assoc, append-nil, ltb, Option, none, some,
  Ret, val, err,
}
use mender_rt1180_zephyr.El133.{
  cs0_pin, cs1_pin, dc_pin, Cs, cs0, cs1, cs_both, Bus, ◌then◌, Reg, reg, cs_set, addressed,
  released, followed, xfer_cmd, looked, ready_loop, wait_ready,
}
use mender_rt1180_zephyr.El133.Heard.{
  Word, command, View, drive, transmit, word, hearing, Wired, AtRest, Told, Told-nil, Told-append,
}

-- `which` selected or released
abbrev pub choose : Cs → Bool → View → View
choose cs0 level v = drive cs0_pin level v
choose cs1 level v = drive cs1_pin level v
choose cs_both level v = drive cs1_pin level (drive cs0_pin level v)

-- the whole transfer
abbrev spoken : Cs → ℕ → List ℕ → View → View
spoken which cmd payload v = choose which false (
    transmit payload
      (drive dc_pin true (transmit (cmd ∷ []) (drive dc_pin false (choose which true v)))))

module _ (xs ds : List Word) (c : Word) where
  aloud : (xs ++ (c ∷ [])) ++ ds ≡ xs ++ ((c ∷ ds) ++ [])
  aloud = append_assoc xs (c ∷ []) ds ∙ ap (λ l. xs ++ l) (sym (append-nil (c ∷ ds)))

  unheard : (b : Bool) → b ≡ false → hearing b (hearing b xs (c ∷ [])) ds ≡ xs ++ []
  unheard b h = rw h (sym (append-nil xs))

spoken-Told :
    (which : Cs) (cmd : ℕ) (payload : List ℕ) (v : View)
    → AtRest v
    → Told (reg which cmd payload ∷ []) v (spoken which cmd payload v)
spoken-Told cs0 cmd payload v (h, k) = record {
  rest = (refl, k);
  first_heard = aloud v.first (map (word true) payload) (command cmd);
  second_heard = unheard v.second (map (word true) payload) (command cmd) v.selected1 k;
}
spoken-Told cs1 cmd payload v (h, k) = record {
  rest = (h, refl);
  first_heard = unheard v.first (map (word true) payload) (command cmd) v.selected0 h;
  second_heard = aloud v.second (map (word true) payload) (command cmd);
}
spoken-Told cs_both cmd payload v (h, k) = record {
  rest = (refl, refl);
  first_heard = aloud v.first (map (word true) payload) (command cmd);
  second_heard = aloud v.second (map (word true) payload) (command cmd);
}

-- a command without a payload leaves the D/C line
called-Told :
    (which : Cs) (cmd : ℕ) (v : View)
    → AtRest v
    → Told
        (reg which cmd [] ∷ [])
        v
        (choose which false (transmit (cmd ∷ []) (drive dc_pin false (choose which true v))))
called-Told cs0 cmd v (h, k) = record {
  rest = (refl, k);
  first_heard = ap (λ l. v.first ++ l) refl;
  second_heard = rw k (sym (append-nil v.second));
}
called-Told cs1 cmd v (h, k) = record {
  rest = (h, refl);
  first_heard = rw h (sym (append-nil v.first));
  second_heard = refl;
}
called-Told cs_both cmd v h = record {
  rest = (refl, refl);
  first_heard = refl;
  second_heard = refl;
}

abbrev pub SameLines : View → View → Type 0
SameLines v w = (w.selected0 ≡ v.selected0) × (w.selected1 ≡ v.selected1)

pub release-AtRest :
    (which : Cs) (v w : View)
    → AtRest v
    → SameLines (choose which true v) w
    → AtRest (choose which false w)
release-AtRest cs0 v w (h, k) (p, q) = (refl, q ∙ k)
release-AtRest cs1 v w (h, k) (p, q) = (p ∙ h, refl)
release-AtRest cs_both v w (h, k) (p, q) = (refl, refl)

-- What a call that may fail has had the controllers hear: it ends, and both are released, whether it
-- succeeds or not; when it does, they have heard the writes.
module _ (B : Type 0) (bus : Bus B) (wired : Wired B bus) where
  abbrev pub After : List Reg → View → Option (Ret × B) → Type 0
  After regs v none = ⊥
  After regs v (some (err e, b)) = AtRest (wired.view b)
  After regs v (some (val n, b)) = Told regs v (wired.view b)

  view-cs_set :
      (which : Cs) (level : Bool) (b : B)
      → wired.view (cs_set B bus which level b) ≡ choose which level (wired.view b)
  view-cs_set cs0 level b = wired.view-set_pin cs0_pin level b
  view-cs_set cs1 level b = wired.view-set_pin cs1_pin level b
  view-cs_set cs_both level b =
      wired.view-set_pin cs1_pin level _
      ∙ ap (drive cs1_pin level) (wired.view-set_pin cs0_pin level b)

  pub view-addressed :
      (which : Cs) (b : B)
      → wired.view (addressed B bus which b) ≡ drive dc_pin false (choose which true (wired.view b))
  view-addressed which b =
      wired.view-set_pin dc_pin false _ ∙ ap (drive dc_pin false) (view-cs_set which true b)

  -- a buffer that is heard, or the lines as they were
  abbrev pub Sent : List ℕ → View → Ret × B → Type 0
  Sent bytes v (err e, b) = SameLines v (wired.view b)
  Sent bytes v (val n, b) = wired.view b ≡ transmit bytes v

  pub spi_write-Sent :
      (bytes : List ℕ) (v : View) (b : B) → wired.view b ≡ v → Sent bytes v (bus.spi_write bytes b)
  spi_write-Sent bytes v b at = sorted (bus.spi_write bytes b) refl
    where
      sorted : (r : Ret × B) → bus.spi_write bytes b ≡ r → Sent bytes v r
      sorted (err e, b') eq =
          let (p, q) = wired.spi_failed bytes b e (ap (λ z. z.0) eq) in
          let at' : wired.view (bus.spi_write bytes b).1 ≡ wired.view b' =
            ap (λ z. wired.view z.1) eq in
          (
            ap (λ z. z.selected0) (sym at') ∙ p ∙ ap (λ z. z.selected0) at,
            ap (λ z. z.selected1) (sym at') ∙ q ∙ ap (λ z. z.selected1) at,
          )
      sorted (val n, b') eq =
          ap (λ z. wired.view z.1) (sym eq)
          ∙ wired.view-spi_write bytes b n (ap (λ z. z.0) eq)
          ∙ ap (transmit bytes) at

  pub cs_set-AtRest :
      (which : Cs) (v : View) (b : B)
      → AtRest v
      → SameLines (choose which true v) (wired.view b)
      → AtRest (wired.view (cs_set B bus which false b))
  cs_set-AtRest which v b h same =
      subst AtRest (sym (view-cs_set which false b)) (release-AtRest which v (wired.view b) h same)

  pub cs_set-Told :
      (which : Cs) (cmd : ℕ) (payload : List ℕ) (v : View) (b : B)
      → AtRest v
      → wired.view b
        ≡ transmit payload
            (drive dc_pin true (transmit (cmd ∷ []) (drive dc_pin false (choose which true v))))
      → Told (reg which cmd payload ∷ []) v (wired.view (cs_set B bus which false b))
  cs_set-Told which cmd payload v b h at =
      subst (Told (reg which cmd payload ∷ []) v)
        (sym (view-cs_set which false b ∙ ap (choose which false) at))
        (spoken-Told which cmd payload v h)

  released-After :
      (which : Cs) (cmd : ℕ) (payload : List ℕ) (v : View) (r : Ret × B)
      → AtRest v
      → Sent payload
          (drive dc_pin true (transmit (cmd ∷ []) (drive dc_pin false (choose which true v))))
          r
      → After (reg which cmd payload ∷ []) v (some (released B bus which r))
  released-After which cmd payload v (err e, b) h sent = cs_set-AtRest which v b h sent
  released-After which cmd payload v (val n, b) h sent = cs_set-Told which cmd payload v b h sent

  followed-After :
      (which : Cs) (cmd : ℕ) (payload : List ℕ) (v : View) (r : Ret × B)
      → AtRest v
      → Sent (cmd ∷ []) (drive dc_pin false (choose which true v)) r
      → After (reg which cmd payload ∷ []) v (some (followed B bus which payload r))
  followed-After which cmd payload v (err e, b) h sent = cs_set-AtRest which v b h sent
  followed-After which cmd [] v (val n, b) h sent =
      subst (Told (reg which cmd [] ∷ []) v)
        (sym (view-cs_set which false b ∙ ap (choose which false) sent)) (called-Told which cmd v h)
  followed-After which cmd (x ∷ payload) v (val n, b) h sent =
      released-After which cmd (x ∷ payload) v
        (bus.spi_write (x ∷ payload) (bus.set_pin dc_pin true b)) h
        (spi_write-Sent (x ∷ payload) _ (bus.set_pin dc_pin true b)
          (wired.view-set_pin dc_pin true b ∙ ap (drive dc_pin true) sent))

  pub xfer_cmd-After :
      (r : Reg) (b : B)
      → AtRest (wired.view b)
      → After (r ∷ []) (wired.view b) (some (xfer_cmd B bus r b))
  unfolding xfer_cmd
  xfer_cmd-After r b h =
      followed-After r.which r.cmd r.payload (wired.view b)
        (bus.spi_write (r.cmd ∷ []) (addressed B bus r.which b)) h
        (spi_write-Sent (r.cmd ∷ []) _ (addressed B bus r.which b) (view-addressed r.which b))

  looked-After :
      (more : B → Option (Ret × B)) (end : ℕ) (v : View) (r : Bool × B)
      → AtRest v
      → wired.view r.1 ≡ v
      → (ltb end (bus.uptime r.1) ≡ false → After [] v (more (bus.sleep 5 r.1)))
      → After [] v (looked B bus more end r)
  looked-After more end v (true, b) h at go = Told-nil v (wired.view b) h at
  looked-After more end v (false, b) h at go = elim (Bool-cases (ltb end (bus.uptime b))) [
    | inl late ↦ rw late (subst AtRest (sym at) h)
    | inr early ↦ rw early (go early)
  ]

  ready_loop-After :
      (fuel end : ℕ) (v : View) (b : B)
      → AtRest v
      → wired.view b ≡ v
      → end < bus.uptime b + 5 * fuel
      → After [] v (ready_loop B bus (suc fuel) end b)
  unfolding ready_loop
  ready_loop-After zero end v b h at enough =
      looked-After (λ b'. ready_loop B bus zero end b') end v (bus.is_busy_high b) h
        (wired.view-is_busy_high b ∙ at) (λ early. absurd (ground (arith, wired.looks b)))
  ready_loop-After (suc fuel) end v b h at enough =
      looked-After (λ b'. ready_loop B bus (suc fuel) end b') end v (bus.is_busy_high b) h
        (wired.view-is_busy_high b ∙ at)
        (λ early.
          ready_loop-After fuel end v (bus.sleep 5 (bus.is_busy_high b).1) h
            (wired.view-sleep 5 _ ∙ wired.view-is_busy_high b ∙ at)
            (omega (arith, wired.looks b, wired.sleeps 5 (bus.is_busy_high b).1)))

  pub wait_ready-After :
      (timeout_ms : ℕ) (v : View) (b : B)
      → AtRest v
      → wired.view b ≡ v
      → After [] v (wait_ready B bus timeout_ms b)
  unfolding wait_ready
  wait_ready-After timeout_ms v b h at =
      ready_loop-After (suc (timeout_ms / 5)) (bus.uptime b + timeout_ms) v b h at (omega arith)

  -- one call after another
  pub then-After :
      (rs qs : List Reg) (v : View) (o : Option (Ret × B)) (next : B → Option (Ret × B))
      → After rs v o
      → ((b : B) → AtRest (wired.view b) → After qs (wired.view b) (next b))
      → After (rs ++ qs) v (o then next)
  then-After rs qs v none next h go = absurd h
  then-After rs qs v (some (err e, b)) next h go = h
  then-After rs qs v (some (val n, b)) next h go =
      joined rs qs v (wired.view b) (next b) h (go b h.rest)
    where
      joined :
          (rs qs : List Reg) (u v : View) (o : Option (Ret × B))
          → Told rs u v
          → After qs v o
          → After (rs ++ qs) u o
      joined rs qs u v none h k = k
      joined rs qs u v (some (err e, b)) h k = k
      joined rs qs u v (some (val n, b)) h k = Told-append rs qs u v (wired.view b) h k
