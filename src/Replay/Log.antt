-- ===== src/Replay/Log.antt =====
-- The append-only log of phinet-core/src/replay.rs, and what loading it back gives.
use mathlib.Core.Path.{subst}
use phinet.Prelude.{
  ℕ, ◌+◌, ◌≤◌, ◌≡◌, refl, ◌∙◌, List, [], ◌∷◌, ◌++◌, Option, none, some, Bool, true, false, ◌||◌,
  ◌&&◌, String, arith, ltb, leb, if◌then◌else◌, Bool-cases, inl, inr,
}
use phinet.Prelude.Eq.{string_eq}
use phinet.Prelude.Map.{lookup, insert, lookup-insert, Absent, Keyed, Absent-of_eq}
use phinet.Replay.{LogLine, blank, junk, entry, load_lines, is_live, to_lines}

-- Some line says that the id counts as seen at a time.
unfoldable pub logged : ℕ → String → List LogLine → Bool
logged t id [] = false
logged t id (blank ∷ lines) = logged t id lines
logged t id (junk ∷ lines) = logged t id lines
logged t id (entry j exp ∷ lines) = (string_eq.beq j id && ltb t exp) || logged t id lines

-- The lines of an id have expiries from `low` on that never fall.
abbrev pub Rising : String → ℕ → List LogLine → Type 0
Rising id low [] = Unit
Rising id low (blank ∷ lines) = Rising id low lines
Rising id low (junk ∷ lines) = Rising id low lines
Rising id low (entry j exp ∷ lines) =
    (string_eq.beq j id ≡ true → low ≤ exp)
    × Rising id (if string_eq.beq j id then exp else low) lines

abbrev lowest : Option ℕ → ℕ
lowest none = 0
lowest (some exp) = exp

module _ (id : String) where
  pub Rising-weaken :
      (low low' : ℕ) (lines : List LogLine)
      → low' ≤ low
      → Rising id low lines
      → Rising id low' lines
  Rising-weaken low low' [] h rising = tt
  Rising-weaken low low' (blank ∷ lines) h rising = Rising-weaken low low' lines h rising
  Rising-weaken low low' (junk ∷ lines) h rising = Rising-weaken low low' lines h rising
  Rising-weaken low low' (entry j exp ∷ lines) h rising = (
    λ same. omega (arith, rising.0 same, h),
    Rising-weaken (if string_eq.beq j id then exp else low)
        (if string_eq.beq j id then exp else low') lines (ground arith) rising.1,
  )

  -- What an expired line that is skipped would have said is said by no line below it either.
  load_skip :
      (now t exp low : ℕ) (j : String) (lines : List LogLine) (rest found : Bool)
      → now ≤ t
      → leb exp now ≡ true
      → rest ≡ (logged t id lines || found)
      → rest ≡ (logged t id (entry j exp ∷ lines) || found)
  unfolding logged
  load_skip now t exp low j lines rest found later old h = ground arith

  load_insert :
      (t exp : ℕ) (j : String) (lines : List LogLine) (m : List (String × ℕ)) (rest : Bool)
      → (string_eq.beq j id ≡ true → lowest (lookup id m) ≤ exp)
      → rest ≡ (logged t id lines || is_live t (lookup id (insert j exp m)))
      → rest ≡ (logged t id (entry j exp ∷ lines) || is_live t (lookup id m))
  unfolding logged
  load_insert t exp j lines m rest rises h = elim (Bool-cases (string_eq.beq j id)) [
    | inl same ↦
        let least = rises same in
        replaced same (lookup id m) least (rw (lookup-insert j id exp m, same) at h)
    | inr other ↦ rw other (rw (lookup-insert j id exp m, other) at h)
  ]
    where
      replaced :
          string_eq.beq j id ≡ true
          → (old : Option ℕ) → lowest old ≤ exp
          → rest ≡ (logged t id lines || ltb t exp)
          → rest ≡ (((string_eq.beq j id && ltb t exp) || logged t id lines) || is_live t old)
      replaced same none least e = ground arith
      replaced same (some e0) least e = ground arith

  lowest-insert :
      (j : String) (exp : ℕ) (m : List (String × ℕ))
      → (if string_eq.beq j id then exp else lowest (lookup id m))
        ≡ lowest (lookup id (insert j exp m))
  lowest-insert j exp m = rw (lookup-insert j id exp m) (ground arith)

  -- Loading a log whose expiries never fall gives, from the time of loading on, what it says.
  pub load_lines-logged :
      (now t : ℕ) (lines : List LogLine) (m : List (String × ℕ)) (count : ℕ)
      → now ≤ t
      → Rising id (lowest (lookup id m)) lines
      → is_live t (lookup id (load_lines now lines m count).0)
        ≡ (logged t id lines || is_live t (lookup id m))
  unfolding load_lines
  load_lines-logged now t [] m count later rising = unfold logged in refl
  load_lines-logged now t (blank ∷ lines) m count later rising =
      load_lines-logged now t lines m count later rising ∙ (unfold logged in refl)
  load_lines-logged now t (junk ∷ lines) m count later rising =
      load_lines-logged now t lines m (count + 1) later rising ∙ (unfold logged in refl)
  load_lines-logged now t (entry j exp ∷ lines) m count later rising =
      let low = lowest (lookup id m) in
      elim (Bool-cases (leb exp now)) [
        | inl old ↦
            rw (old, load_lines)
              (load_skip now t exp low j lines _ (is_live t (lookup id m)) later old (
                load_lines-logged now t lines m (count + 1) later (
                  Rising-weaken (if string_eq.beq j id then exp else low) low lines
                    (ground (arith, rising.0)) rising.1)))
        | inr new ↦
            rw (new, load_lines)
              (load_insert t exp j lines m _ rising.0 (
                load_lines-logged now t lines (insert j exp m) (count + 1) later
                  (subst (λ n. Rising id n lines) (lowest-insert j exp m) rising.1)))
      ]

  -- An id that no line says is seen at `now` may be written with any expiry from then on.
  pub logged-snoc :
      (t exp : ℕ) (j : String) (lines : List LogLine)
      → logged t id (lines ++ entry j exp ∷ [])
        ≡ (logged t id lines || (string_eq.beq j id && ltb t exp))
  unfolding logged
  logged-snoc t exp j [] = ground arith
  logged-snoc t exp j (blank ∷ lines) = logged-snoc t exp j lines
  logged-snoc t exp j (junk ∷ lines) = logged-snoc t exp j lines
  logged-snoc t exp j (entry k e ∷ lines) = ground (arith, logged-snoc t exp j lines)

  pub Rising-snoc :
      (now exp low : ℕ) (j : String) (lines : List LogLine)
      → (string_eq.beq j id ≡ true → (logged now id lines ≡ false) × (low ≤ exp))
      → now ≤ exp
      → Rising id low lines
      → Rising id low (lines ++ entry j exp ∷ [])
  unfolding logged
  Rising-snoc now exp low j [] unseen late rising = (λ same. (unseen same).1, tt)
  Rising-snoc now exp low j (blank ∷ lines) unseen late rising =
      Rising-snoc now exp low j lines unseen late rising
  Rising-snoc now exp low j (junk ∷ lines) unseen late rising =
      Rising-snoc now exp low j lines unseen late rising
  Rising-snoc now exp low j (entry k e ∷ lines) unseen late rising = (
    rising.0,
    Rising-snoc now exp (if string_eq.beq k id then e else low) j lines
        (λ same. ground (arith, unseen same)) late rising.1,
  )

  logged-Absent : (t : ℕ) (m : List (String × ℕ)) → Absent id m → logged t id (to_lines m) ≡ false
  unfolding logged
  logged-Absent t [] absent = refl
  logged-Absent t ((j, e) ∷ m) absent = ground (arith, absent.0, logged-Absent t m absent.1)

  Rising-Absent : (low : ℕ) (m : List (String × ℕ)) → Absent id m → Rising id low (to_lines m)
  Rising-Absent low [] absent = tt
  Rising-Absent low ((j, e) ∷ m) absent =
      (λ same. absurd (cc (same, absent.0)), rw absent.0 (Rising-Absent low m absent.1))

  -- The lines that `compact` writes say what the entries say.
  pub logged-to_lines :
      (t : ℕ) (m : List (String × ℕ)) → Keyed m → logged t id (to_lines m) ≡ is_live t (lookup id m)
  unfolding logged lookup
  logged-to_lines t [] keyed = refl
  logged-to_lines t ((j, e) ∷ m) keyed = elim (Bool-cases (string_eq.beq j id)) [
    | inl same ↦ ground (arith, same, logged-Absent t m (Absent-of_eq j id m same keyed.0))
    | inr other ↦ ground (arith, other, logged-to_lines t m keyed.1)
  ]

  pub Rising-to_lines : (m : List (String × ℕ)) → Keyed m → Rising id 0 (to_lines m)
  Rising-to_lines [] keyed = tt
  Rising-to_lines ((j, e) ∷ m) keyed = elim (Bool-cases (string_eq.beq j id)) [
    | inl same ↦ (λ _. omega arith, rw same (Rising-Absent e m (Absent-of_eq j id m same keyed.0)))
    | inr other ↦ (λ _. omega arith, rw other (Rising-to_lines m keyed.1))
  ]
